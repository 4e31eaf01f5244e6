-- ===== src/Zns/Config.antt =====
-- zns_ftl.h: `struct znsparams`, with the macros of ssd_config.h that it is made of; zns_ftl.c:
-- `zns_init_params`.
use nvmevirt_fdp.Prelude.{ℕ, ◌*◌, ◌/◌, ◌%◌, Option, some, false, [], ◌∷◌, ◌==◌, ◌>>◌, nvmev_assert}
use nvmevirt_fdp.Ssd.Config.{u32, kb, mb, SsdConfig, SsdParams}

-- The macros of a ZNS model that are not in `SsdConfig`.
pub record ZnsConfig : Type 0 where
  pub zone_size : ℕ
  pub dies_per_zone : ℕ
  pub max_zrwa_zones : ℕ
  pub zone_wb_size : ℕ
  pub zrwa_size : ℕ
  pub zrwafg_size : ℕ
  pub zrwa_buffer_size : ℕ

-- `BASE_SSD == ZNS_PROTOTYPE`.
abbrev pub zns_prototype : ZnsConfig
zns_prototype = record {
  zone_size = mb 32;
  dies_per_zone = 1;
  max_zrwa_zones = 0;
  zone_wb_size = 0;
  zrwa_size = 0;
  zrwafg_size = 0;
  zrwa_buffer_size = 0;
}

abbrev pub zns_prototype_ssd : SsdConfig
zns_prototype_ssd = record {
  lba_size = 512;
  nand_channels = 8;
  plns_per_lun = 1;
  luns_per_nand_ch = 16;
  cell_mode = 3;
  blks_per_pln = 0;
  blk_size = mb 32;
  oneshot_page_size = kb 64 * 2;
  flash_page_size = kb 64;
  write_unit_size = kb 64 * 2;
  nand_4kb_read_latency = 25485 ∷ 25485 ∷ 25485 ∷ [];
  nand_read_latency = 40950 ∷ 40950 ∷ 40950 ∷ [];
  nand_prog_latency = 1913640;
  nand_erase_latency = 0;
  max_ch_xfer_size = kb 64;
  fw_4kb_read_latency = 32150;
  fw_read_latency = 32150;
  fw_ch_xfer_latency = 413;
  fw_wbuf_latency0 = 0;
  fw_wbuf_latency1 = 0;
  nand_channel_bandwidth = 800;
  pcie_bandwidth = 3200;
  global_wb_size = 8 * 16 * (kb 64 * 2) * 2;
  write_early_completion = false;
}

-- `struct znsparams`.
pub record ZnsParams : Type 0 where
  pub nr_zones : ℕ
  pub nr_active_zones : ℕ
  pub nr_open_zones : ℕ
  pub dies_per_zone : ℕ
  pub zone_size : ℕ
  pub zone_wb_size : ℕ
  pub nr_zrwa_zones : ℕ
  pub zrwafg_size : ℕ
  pub zrwa_size : ℕ
  pub zrwa_buffer_size : ℕ
  pub lbas_per_zrwafg : ℕ
  pub lbas_per_zrwa : ℕ

-- `zns_init_params`. The fields are `uint32_t`; the macros are taken to fit.
unfoldable pub zns_init_params : ZnsConfig → SsdParams → ℕ → Option ZnsParams
zns_init_params c sp capacity = do
  nvmev_assert (capacity % c.zone_size == 0)
  nvmev_assert (c.zone_size % sp.pgsz == 0)
  some (record {
    nr_zones = u32 (capacity / c.zone_size);
    nr_active_zones = u32 (capacity / c.zone_size);
    nr_open_zones = u32 (capacity / c.zone_size);
    dies_per_zone = c.dies_per_zone;
    zone_size = c.zone_size;
    zone_wb_size = c.zone_wb_size;
    nr_zrwa_zones = c.max_zrwa_zones;
    zrwafg_size = c.zrwafg_size;
    zrwa_size = c.zrwa_size;
    zrwa_buffer_size = c.zrwa_buffer_size;
    lbas_per_zrwafg = c.zrwafg_size / sp.secsz;
    lbas_per_zrwa = c.zrwa_size / sp.secsz;
  })
