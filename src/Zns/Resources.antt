-- ===== src/Zns/Resources.antt =====
-- zns_ftl.h: the counts of zone resources. What one zone holds of each resource follows from its
-- descriptor, and a count is what the zones hold together.
use nvmevirt_fdp.Prelude.{
  ℕ, ◌+◌, ◌^◌, ◌≤◌, ◌<◌, ◌≡◌, inl, inr, Bool-cases, refl, sym, ap, ◌∙◌, fun_ext, Bool, true, false,
  ◌&&◌, arith, ◌==◌, if◌then◌else◌, total, total-set, total_term, total_room, total_bound,
}
use nvmevirt_fdp.Ssd.Config.{SsdParams}
use nvmevirt_fdp.Ssd.Nand.{SsdTime}
use nvmevirt_fdp.Zns.Config.{ZnsParams}
use nvmevirt_fdp.Zns.State.{
  ZoneState, zone_empty, opened_impl, opened_expl, closed, read_only, full, offline, ZoneDesc,
  ResourceType, active_zone, open_zone, zrwa_zone, ZnsFtl, get_resource,
}

abbrev pub is_open : ZoneState → Bool
is_open ZoneState.zone_empty = false
is_open ZoneState.opened_impl = true
is_open ZoneState.opened_expl = true
is_open ZoneState.closed = false
is_open ZoneState.read_only = false
is_open ZoneState.full = false
is_open ZoneState.offline = false

abbrev pub is_active : ZoneState → Bool
is_active ZoneState.zone_empty = false
is_active ZoneState.opened_impl = true
is_active ZoneState.opened_expl = true
is_active ZoneState.closed = true
is_active ZoneState.read_only = false
is_active ZoneState.full = false
is_active ZoneState.offline = false

-- What a zone holds.
abbrev pub held : ResourceType → ZoneDesc → ℕ
held ResourceType.active_zone d = if is_active d.state then 1 else 0
held ResourceType.open_zone d = if is_open d.state then 1 else 0
held ResourceType.zrwa_zone d = if is_active d.state && d.zrwav then 1 else 0

abbrev pub all_held : ResourceType → ZnsFtl → ℕ
all_held r f = total (λ i. held r (f.zone_descs i)) f.zp.nr_zones

pub held-le_one : (r : ResourceType) (d : ZoneDesc) → held r d ≤ 1
held-le_one ResourceType.active_zone d = ground arith
held-le_one ResourceType.open_zone d = ground arith
held-le_one ResourceType.zrwa_zone d = ground arith

-- The counts are those of the zones, each zone may hold each resource, and an empty zone has no ZRWA
-- and is written from its start.
pub record IsAccounted (f : ZnsFtl) : Type 0 where
  pub counts : (r : ResourceType) → (get_resource f r).acquired_cnt ≡ all_held r f
  pub totals : (r : ResourceType) → (get_resource f r).total_cnt ≡ f.zp.nr_zones
  pub fits : f.zp.nr_zones < 2 ^ 32
  pub plain :
      (i : ℕ)
      → i < f.zp.nr_zones
      → (f.zone_descs i).state ≡ ZoneState.zone_empty
      → ((f.zone_descs i).zrwav ≡ false) × ((f.zone_descs i).wp ≡ (f.zone_descs i).zslba)

-- A count has what the zone holds, and room for what it does not hold.
pub record HasRoom (f : ZnsFtl) (zid : ℕ) : Type 0 where
  pub active_in : held active_zone (f.zone_descs zid) ≤ f.res_active.acquired_cnt
  pub open_in : held open_zone (f.zone_descs zid) ≤ f.res_open.acquired_cnt
  pub zrwa_in : held zrwa_zone (f.zone_descs zid) ≤ f.res_zrwa.acquired_cnt
  pub active_room :
      held active_zone (f.zone_descs zid) ≡ 0 → f.res_active.acquired_cnt < f.res_active.total_cnt
  pub open_room :
      held open_zone (f.zone_descs zid) ≡ 0 → f.res_open.acquired_cnt < f.res_open.total_cnt
  pub zrwa_room :
      held zrwa_zone (f.zone_descs zid) ≡ 0 → f.res_zrwa.acquired_cnt < f.res_zrwa.total_cnt
  pub active_fits : f.res_active.acquired_cnt < 2 ^ 32
  pub open_fits : f.res_open.acquired_cnt < 2 ^ 32
  pub zrwa_fits : f.res_zrwa.acquired_cnt < 2 ^ 32
  pub active_total : f.res_active.total_cnt < 2 ^ 32
  pub open_total : f.res_open.total_cnt < 2 ^ 32
  pub zrwa_total : f.res_zrwa.total_cnt < 2 ^ 32
  pub plain_zone :
      (f.zone_descs zid).state ≡ ZoneState.zone_empty
      → ((f.zone_descs zid).zrwav ≡ false) × ((f.zone_descs zid).wp ≡ (f.zone_descs zid).zslba)

module _ (f : ZnsFtl) (zid : ℕ) (v : IsAccounted f) (h : zid < f.zp.nr_zones) where
  in_count : (r : ResourceType) → held r (f.zone_descs zid) ≤ (get_resource f r).acquired_cnt
  in_count r = rw (v.counts r) (total_term (λ i. held r (f.zone_descs i)) zid f.zp.nr_zones h)

  room_for :
      (r : ResourceType)
      → held r (f.zone_descs zid) ≡ 0
      → (get_resource f r).acquired_cnt < (get_resource f r).total_cnt
  room_for r e =
      rw (v.counts r, v.totals r)
        (total_room (λ i. held r (f.zone_descs i)) zid f.zp.nr_zones
          (λ j. held-le_one r (f.zone_descs j)) h e)

  fits_count : (r : ResourceType) → (get_resource f r).acquired_cnt < 2 ^ 32
  fits_count r = rw (v.counts r) (
      omega (
        arith,
        v.fits,
        total_bound (λ i. held r (f.zone_descs i)) f.zp.nr_zones
            (λ j. held-le_one r (f.zone_descs j)),
      ))

  pub IsAccounted-HasRoom : HasRoom f zid
  IsAccounted-HasRoom = record {
    active_in = in_count active_zone;
    open_in = in_count open_zone;
    zrwa_in = in_count zrwa_zone;
    active_room = room_for active_zone;
    open_room = room_for open_zone;
    zrwa_room = room_for zrwa_zone;
    active_fits = fits_count active_zone;
    open_fits = fits_count open_zone;
    zrwa_fits = fits_count zrwa_zone;
    active_total = rw (v.totals active_zone) v.fits;
    open_total = rw (v.totals open_zone) v.fits;
    zrwa_total = rw (v.totals zrwa_zone) v.fits;
    plain_zone = v.plain zid h;
  }

-- The transitions of a zone.
infix 40 ◌⟶◌
pub data ◌⟶◌ : ZoneState → ZoneState → Type 0 where
  stays : {s : ZoneState} → s ⟶ s
  opens : zone_empty ⟶ opened_expl
  starts : zone_empty ⟶ opened_impl
  reopens : closed ⟶ opened_expl
  restarts : closed ⟶ opened_impl
  promotes : opened_impl ⟶ opened_expl
  closes : {s : ZoneState} → is_open s ≡ true → s ⟶ closed
  finishes : {s : ZoneState} → is_active s ≡ true → s ⟶ full
  skips : zone_empty ⟶ full
  resets : {s : ZoneState} → is_active s ≡ true → s ⟶ zone_empty
  erases : full ⟶ zone_empty
  retires : read_only ⟶ offline

-- The parameters and the time model, which no change to a zone touches.
abbrev pub Params : Type 0
Params = SsdParams × ZnsParams × SsdTime

abbrev pub params : ZnsFtl → Params
params f = (f.sp, f.zp, f.time)

-- One zone changes along a transition, and the counts change by what it takes and gives back.
pub record Changed (f : ZnsFtl) (zid : ℕ) (g : ZnsFtl) : Type 0 where
  pub desc : ZoneDesc
  pub descs : g.zone_descs ≡ (λ i. if zid == i then desc else f.zone_descs i)
  pub same_params : params g ≡ params f
  pub active :
      g.res_active.acquired_cnt + held active_zone (f.zone_descs zid)
      ≡ f.res_active.acquired_cnt + held active_zone desc
  pub opened :
      g.res_open.acquired_cnt + held open_zone (f.zone_descs zid)
      ≡ f.res_open.acquired_cnt + held open_zone desc
  pub zrwa :
      g.res_zrwa.acquired_cnt + held zrwa_zone (f.zone_descs zid)
      ≡ f.res_zrwa.acquired_cnt + held zrwa_zone desc
  pub totals :
      (g.res_active.total_cnt ≡ f.res_active.total_cnt)
      × (g.res_open.total_cnt ≡ f.res_open.total_cnt)
      × (g.res_zrwa.total_cnt ≡ f.res_zrwa.total_cnt)
  pub edge : (f.zone_descs zid).state ⟶ desc.state
  pub plain_desc : desc.state ≡ ZoneState.zone_empty → (desc.zrwav ≡ false) × (desc.wp ≡ desc.zslba)

module _ (f g : ZnsFtl) (zid : ℕ) (c : Changed f zid g) where
  changed_count :
      (r : ResourceType)
      → (get_resource g r).acquired_cnt + held r (f.zone_descs zid)
        ≡ (get_resource f r).acquired_cnt + held r c.desc
  changed_count ResourceType.active_zone = c.active
  changed_count ResourceType.open_zone = c.opened
  changed_count ResourceType.zrwa_zone = c.zrwa

  same_total : (r : ResourceType) → (get_resource g r).total_cnt ≡ (get_resource f r).total_cnt
  same_total ResourceType.active_zone = c.totals.0
  same_total ResourceType.open_zone = c.totals.1
  same_total ResourceType.zrwa_zone = c.totals.2

  same_zp : g.zp ≡ f.zp
  same_zp = ap (λ (p : Params). p.1) c.same_params

  pub Changed-IsAccounted : IsAccounted f → zid < f.zp.nr_zones → IsAccounted g
  Changed-IsAccounted v h = record {
    counts = λ r.
        rw (c.descs, same_zp)
          (omega (
            arith,
            changed_count r,
            v.counts r,
            total-set (held r) f.zone_descs zid c.desc f.zp.nr_zones h,
          ));
    totals = λ r. same_total r ∙ v.totals r ∙ ap (λ z. z.nr_zones) (sym same_zp);
    fits = rw same_zp v.fits;
    plain =
        rw (c.descs, same_zp)
          (λ i hi. elim (Bool-cases (zid == i)) [
            | inl e ↦ rw e c.plain_desc
            | inr e ↦ rw e (v.plain i hi)
          ]);
  }

same_entry : (ds : ℕ → ZoneDesc) (zid : ℕ) → ds ≡ (λ i. if zid == i then ds zid else ds i)
same_entry ds zid = fun_ext λ i. elim (Bool-cases (zid == i)) [
  | inl e ↦ let same : zid ≡ i = ground arith in rw e (ap ds (sym same))
  | inr e ↦ rw e
]

-- A refused command changes nothing.
pub Changed-same : (f : ZnsFtl) (zid : ℕ) → HasRoom f zid → Changed f zid f
Changed-same f zid h = record {
  desc = f.zone_descs zid;
  descs = same_entry f.zone_descs zid;
  same_params = refl;
  active = refl;
  opened = refl;
  zrwa = refl;
  totals = (refl, refl, refl);
  edge = stays;
  plain_desc = h.plain_zone;
}

-- A change to the descriptor `d`, with its counts put together.
abbrev pub Balanced : ZnsFtl → ℕ → ZnsFtl → ZoneDesc → Type 0
Balanced f zid g d =
    (g.res_active.acquired_cnt + held active_zone (f.zone_descs zid)
      ≡ f.res_active.acquired_cnt + held active_zone d)
    × (g.res_open.acquired_cnt + held open_zone (f.zone_descs zid)
        ≡ f.res_open.acquired_cnt + held open_zone d)
    × (g.res_zrwa.acquired_cnt + held zrwa_zone (f.zone_descs zid)
        ≡ f.res_zrwa.acquired_cnt + held zrwa_zone d)
    × (g.res_active.total_cnt ≡ f.res_active.total_cnt)
    × (g.res_open.total_cnt ≡ f.res_open.total_cnt)
    × (g.res_zrwa.total_cnt ≡ f.res_zrwa.total_cnt)

pub changed :
    (f g : ZnsFtl) (zid : ℕ) (d : ZoneDesc)
    → (f.zone_descs zid).state ⟶ d.state
    → (d.state ≡ ZoneState.zone_empty → (d.zrwav ≡ false) × (d.wp ≡ d.zslba))
    → g.zone_descs ≡ (λ i. if zid == i then d else f.zone_descs i)
    → params g ≡ params f
    → Balanced f zid g d
    → Changed f zid g
changed f g zid d e p ds z b = record {
  desc = d;
  descs = ds;
  same_params = z;
  active = b.0;
  opened = b.1;
  zrwa = b.2;
  totals = (b.3, b.4, b.5);
  edge = e;
  plain_desc = p;
}
