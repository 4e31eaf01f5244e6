-- ===== src/Zns/Init.antt =====
-- zns_ftl.c: the initial state of a zoned namespace.
pub mod Fresh
use nvmevirt_fdp.Prelude.{ℕ, zero, suc, ◌+◌, ◌/◌, ◌^◌, false, [], Option, some, ◌>>=◌}
use nvmevirt_fdp.Ssd.Config.{SsdConfig, SsdParams, u64, ssd_init_params}
use nvmevirt_fdp.Ssd.Buffer.{Buffer, buffer_init}
use nvmevirt_fdp.Ssd.Nand.{SsdTime, init_time}
use nvmevirt_fdp.Zns.Config.{ZnsConfig, ZnsParams, zns_init_params}
use nvmevirt_fdp.Zns.State.{ZoneState, zone_empty, ZoneDesc, ZoneResource, ZnsFtl}

-- `BYTE_TO_LBA`, with 9 bits.
abbrev pub byte_to_lba : ℕ → ℕ
byte_to_lba n = n / 2 ^ 9

-- The variable `zslba` in round `i` of the loop of `__init_descriptor`.
unfoldable pub zslba_of : ZnsParams → ℕ → ℕ
zslba_of zp zero = 0
zslba_of zp (suc i) = u64 (zslba_of zp i + byte_to_lba zp.zone_size)

-- `__init_descriptor`, for zone `i`.
unfoldable pub init_descriptor : ZnsParams → ℕ → ZoneDesc
unfolding zslba_of
init_descriptor zp i = record {
  state = zone_empty;
  zrwav = false;
  zone_capacity = byte_to_lba zp.zone_size;
  zslba = zslba_of zp i;
  wp = zslba_of zp i;
}

-- `__init_resource`, for each type.
unfoldable pub init_resource : ZnsParams → ZoneResource
init_resource zp = record { acquired_cnt = 0; total_cnt = zp.nr_zones }

-- `zns_init_ftl`, with an SSD and the memory behind `mapped_addr`. The buffers of zones are allocated
-- only if their size is not 0, and used only then.
unfoldable pub zns_init_ftl : ZnsParams → SsdParams → SsdTime → Buffer → (ℕ → ℕ) → ZnsFtl
unfolding init_descriptor init_resource buffer_init
zns_init_ftl zp sp time write_buffer mapped = record {
  sp = sp;
  zp = zp;
  res_active = init_resource zp;
  res_open = init_resource zp;
  res_zrwa = init_resource zp;
  zone_descs = init_descriptor zp;
  zone_write_buffer = λ i. buffer_init zp.zone_wb_size;
  zrwa_buffer = λ i. buffer_init zp.zrwa_buffer_size;
  write_buffer = write_buffer;
  time = time;
  storage = mapped;
  scheduled = [];
}

-- `zns_init_namespace`, in a build with the macros `c` and `z`, and a clock: the FTL of the namespace.
unfoldable pub zns_init_namespace : SsdConfig → ZnsConfig → (ℕ → ℕ) → ℕ → (ℕ → ℕ) → Option ZnsFtl
unfolding ssd_init_params zns_init_params zns_init_ftl init_time buffer_init
zns_init_namespace c z clock size mapped = do
  sp ← ssd_init_params c size 1
  zp ← zns_init_params z sp size
  some (zns_init_ftl zp sp (init_time sp clock) (buffer_init sp.write_buffer_size) mapped)
