-- ===== src/Zns/Init/Fresh.antt =====
-- zns_ftl.c: what `zns_init_ftl` establishes.
use nvmevirt_fdp.Prelude.{
  ℕ, zero, suc, ◌+◌, ◌*◌, ◌^◌, ◌≤◌, ◌<◌, ◌≡◌, false, refl, sym, arith, digit_bound, total_zero,
}
use nvmevirt_fdp.Ssd.Config.{SsdParams}
use nvmevirt_fdp.Ssd.Buffer.{Buffer}
use nvmevirt_fdp.Ssd.Nand.{SsdTime}
use nvmevirt_fdp.Zns.Config.{ZnsParams}
use nvmevirt_fdp.Zns.State.{
  ZnsFtl, zone_empty, ResourceType, get_resource, active_zone, open_zone, zrwa_zone, zone_lbas,
  zone_to_slba,
}
use nvmevirt_fdp.Zns.Resources.{held, all_held, IsAccounted}
use nvmevirt_fdp.Zns.Init.{byte_to_lba, zslba_of, init_descriptor, init_resource, zns_init_ftl}

-- The start of a zone as the loop computes it.
zslba_of_lem :
    (zp : ZnsParams) (i : ℕ)
    → i * byte_to_lba zp.zone_size < 2 ^ 64
    → zslba_of zp i ≡ i * byte_to_lba zp.zone_size
unfolding zslba_of
zslba_of_lem zp zero h = omega arith
zslba_of_lem zp (suc i) h =
    let next : (i + 1) * byte_to_lba zp.zone_size
        ≡ i * byte_to_lba zp.zone_size + byte_to_lba zp.zone_size =
      grind arith in
    let e = zslba_of_lem zp i (omega (arith, next)) in omega (arith, e, next)

no_resource : (zp : ZnsParams) (r : ResourceType) (i : ℕ) → held r (init_descriptor zp i) ≡ 0
unfolding init_descriptor
no_resource zp active_zone i = refl
no_resource zp open_zone i = refl
no_resource zp zrwa_zone i = refl

-- The sectors are of 512 bytes, the zones have some, and their blocks are numbers of 32 bits.
pub record IsZoned (zp : ZnsParams) (sp : SsdParams) : Type 0 where
  pub sector : sp.secsz ≡ 512
  pub zones_fit : zp.nr_zones < 2 ^ 32
  pub lbas_pos : 0 < byte_to_lba zp.zone_size
  pub lbas_fit : zp.nr_zones * byte_to_lba zp.zone_size ≤ 2 ^ 32

-- The state after `zns_init_ftl`: no resource is taken, and each zone is empty and begins at the block that
-- the conversions give.
pub record IsFresh (f : ZnsFtl) : Type 0 where
  pub accounted : IsAccounted f
  pub none_taken : (r : ResourceType) → (get_resource f r).acquired_cnt ≡ 0
  pub all_empty : (i : ℕ) → (f.zone_descs i).state ≡ zone_empty
  pub no_zrwa : (i : ℕ) → (f.zone_descs i).zrwav ≡ false
  pub unwritten : (i : ℕ) → i < f.zp.nr_zones → (f.zone_descs i).wp ≡ zone_to_slba f i
  pub starts : (i : ℕ) → i < f.zp.nr_zones → (f.zone_descs i).zslba ≡ zone_to_slba f i
  pub capacity : (i : ℕ) → (f.zone_descs i).zone_capacity ≡ zone_lbas f

module _ (zp : ZnsParams) (sp : SsdParams) (time : SsdTime) (b : Buffer) (mapped : ℕ → ℕ) where
  fresh_counts :
      (r : ResourceType)
      → (get_resource (zns_init_ftl zp sp time b mapped) r).acquired_cnt
        ≡ all_held r (zns_init_ftl zp sp time b mapped)
  unfolding zns_init_ftl init_resource
  fresh_counts active_zone = sym (total_zero _ zp.nr_zones (no_resource zp active_zone))
  fresh_counts open_zone = sym (total_zero _ zp.nr_zones (no_resource zp open_zone))
  fresh_counts zrwa_zone = sym (total_zero _ zp.nr_zones (no_resource zp zrwa_zone))

  fresh_totals :
      (r : ResourceType)
      → (get_resource (zns_init_ftl zp sp time b mapped) r).total_cnt ≡ zp.nr_zones
  unfolding zns_init_ftl init_resource
  fresh_totals active_zone = refl
  fresh_totals open_zone = refl
  fresh_totals zrwa_zone = refl

  fresh_none :
      (r : ResourceType) → (get_resource (zns_init_ftl zp sp time b mapped) r).acquired_cnt ≡ 0
  unfolding zns_init_ftl init_resource
  fresh_none active_zone = refl
  fresh_none open_zone = refl
  fresh_none zrwa_zone = refl

  fresh_start :
      (i : ℕ)
      → IsZoned zp sp
      → i < zp.nr_zones
      → zslba_of zp i ≡ zone_to_slba (zns_init_ftl zp sp time b mapped) i
  unfolding zns_init_ftl
  fresh_start i z h =
      let lt : i * byte_to_lba zp.zone_size < 2 ^ 32 =
        omega (
          arith,
          z.lbas_fit,
          digit_bound (byte_to_lba zp.zone_size) zp.nr_zones i 0 h z.lbas_pos,
        ) in
      rw z.sector (omega (arith, zslba_of_lem zp i (omega arith)))

  -- A new FTL whose sectors are of 512 bytes, whose zones have blocks, and whose blocks and zones are
  -- numbers of 32 bits, has no resource
  -- taken, and every zone is empty and without a ZRWA; zone `i` begins at the block that the conversions
  -- give for it, where its write pointer is, and has the capacity of a zone; and the counts of resources are
  -- those of the zones.
  pub zns_init_ftl-IsFresh : IsZoned zp sp → IsFresh (zns_init_ftl zp sp time b mapped)
  unfolding zns_init_ftl init_descriptor
  zns_init_ftl-IsFresh z = record {
    accounted = record {
      counts = fresh_counts;
      totals = fresh_totals;
      fits = z.zones_fit;
      plain = λ i h e. (refl, refl);
    };
    none_taken = fresh_none;
    all_empty = λ i. refl;
    no_zrwa = λ i. refl;
    unwritten = λ i h. fresh_start i z h;
    starts = λ i h. fresh_start i z h;
    capacity = λ i. rw z.sector refl;
  }
