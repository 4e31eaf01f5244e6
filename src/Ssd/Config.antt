-- ===== src/Ssd/Config.antt =====
-- ssd_config.h: the macros that one SSD model defines, and the geometry that the FDP model builds
-- with. ssd.h: `struct ssdparams`; ssd.c: `ssd_init_params`, which computes it.
use nvmevirt_fdp.Prelude.{
  ℕ, ◌+◌, ◌-◌, ◌*◌, ◌/◌, ◌%◌, ◌^◌, Bool, true, ◌&&◌, List, [], ◌∷◌, Option, some, ltb, ◌==◌,
  if◌then◌else◌, ◌>>=◌, ◌>>◌, nvmev_assert,
}

abbrev pub kb : ℕ → ℕ
kb n = n * 1024

abbrev pub mb : ℕ → ℕ
mb n = n * 1024 * 1024

abbrev pub u64 : ℕ → ℕ
u64 n = n % 2 ^ 64

abbrev pub u32 : ℕ → ℕ
u32 n = n % 2 ^ 32

-- `DIV_ROUND_UP(n, d)` on 64-bit operands.
abbrev pub div_round_up : ℕ → ℕ → ℕ
div_round_up n d = u64 (n + d - 1) / d

-- The macros of ssd_config.h that ssd.c reads.
pub record SsdConfig : Type 0 where
  pub lba_size : ℕ
  pub nand_channels : ℕ
  pub plns_per_lun : ℕ
  pub luns_per_nand_ch : ℕ
  pub cell_mode : ℕ
  pub blks_per_pln : ℕ
  pub blk_size : ℕ
  pub oneshot_page_size : ℕ
  pub flash_page_size : ℕ
  pub write_unit_size : ℕ
  pub nand_4kb_read_latency : List ℕ
  pub nand_read_latency : List ℕ
  pub nand_prog_latency : ℕ
  pub nand_erase_latency : ℕ
  pub max_ch_xfer_size : ℕ
  pub fw_4kb_read_latency : ℕ
  pub fw_read_latency : ℕ
  pub fw_ch_xfer_latency : ℕ
  pub fw_wbuf_latency0 : ℕ
  pub fw_wbuf_latency1 : ℕ
  pub nand_channel_bandwidth : ℕ
  pub pcie_bandwidth : ℕ
  pub global_wb_size : ℕ
  pub write_early_completion : Bool

-- `BASE_SSD == SAMSUNG_FDP`.
abbrev pub samsung_fdp : SsdConfig
samsung_fdp = record {
  lba_size = 512;
  nand_channels = 8;
  plns_per_lun = 1;
  luns_per_nand_ch = 2;
  cell_mode = 2;
  blks_per_pln = 128;
  blk_size = 0;
  oneshot_page_size = kb 32;
  flash_page_size = kb 32;
  write_unit_size = 512;
  nand_4kb_read_latency = 29760 ∷ 41760 ∷ 0 ∷ [];
  nand_read_latency = 30013 ∷ 42013 ∷ 0 ∷ [];
  nand_prog_latency = 185000;
  nand_erase_latency = 0;
  max_ch_xfer_size = kb 16;
  fw_4kb_read_latency = 21500;
  fw_read_latency = 30490;
  fw_ch_xfer_latency = 0;
  fw_wbuf_latency0 = 4000;
  fw_wbuf_latency1 = 460;
  nand_channel_bandwidth = 800;
  pcie_bandwidth = 3360;
  global_wb_size = mb 256;
  write_early_completion = true;
}

-- `SSD_PARTITIONS`, `FDP_NR_RG`, `FDP_NR_RUH`, `FDP_NR_EVENTS`, `NR_NAMESPACES`.
abbrev pub ssd_partitions : ℕ
ssd_partitions = 4

abbrev pub fdp_nr_rg : ℕ
fdp_nr_rg = 1

abbrev pub fdp_nr_ruh : ℕ
fdp_nr_ruh = 8

abbrev pub fdp_nr_events : ℕ
fdp_nr_events = 63

abbrev pub nr_namespaces : ℕ
nr_namespaces = 1

-- `struct ssdparams`.
pub record SsdParams : Type 0 where
  pub secsz : ℕ
  pub secs_per_pg : ℕ
  pub pgsz : ℕ
  pub pgs_per_flashpg : ℕ
  pub flashpgs_per_blk : ℕ
  pub pgs_per_oneshotpg : ℕ
  pub oneshotpgs_per_blk : ℕ
  pub pgs_per_blk : ℕ
  pub blks_per_pl : ℕ
  pub pls_per_lun : ℕ
  pub luns_per_ch : ℕ
  pub nchs : ℕ
  pub cell_mode : ℕ
  pub write_unit_size : ℕ
  pub write_early_completion : Bool
  pub pg_4kb_rd_lat : List ℕ
  pub pg_rd_lat : List ℕ
  pub pg_wr_lat : ℕ
  pub blk_er_lat : ℕ
  pub max_ch_xfer_size : ℕ
  pub fw_4kb_rd_lat : ℕ
  pub fw_rd_lat : ℕ
  pub fw_wbuf_lat0 : ℕ
  pub fw_wbuf_lat1 : ℕ
  pub fw_ch_xfer_lat : ℕ
  pub ch_bandwidth : ℕ
  pub pcie_bandwidth : ℕ
  pub secs_per_blk : ℕ
  pub secs_per_pl : ℕ
  pub secs_per_lun : ℕ
  pub secs_per_ch : ℕ
  pub tt_secs : ℕ
  pub pgs_per_pl : ℕ
  pub pgs_per_lun : ℕ
  pub pgs_per_ch : ℕ
  pub tt_pgs : ℕ
  pub blks_per_lun : ℕ
  pub blks_per_ch : ℕ
  pub tt_blks : ℕ
  pub blks_per_line : ℕ
  pub pgs_per_line : ℕ
  pub secs_per_line : ℕ
  pub tt_lines : ℕ
  pub pls_per_ch : ℕ
  pub tt_pls : ℕ
  pub tt_luns : ℕ
  pub write_buffer_size : ℕ

-- `blk_size` and `blks_per_pl`: either macro may be given, and the other follows from the capacity.
unfoldable pub block_layout : SsdConfig → ℕ → ℕ → Option (ℕ × ℕ)
block_layout c nchs capacity =
    if ltb 0 c.blks_per_pln
    then some (
      div_round_up capacity (c.blks_per_pln * c.plns_per_lun * c.luns_per_nand_ch * nchs),
      c.blks_per_pln,
    )
    else (do
      nvmev_assert (ltb 0 c.blk_size)
      some (
        c.blk_size,
        u32 (div_round_up capacity (c.blk_size * c.plns_per_lun * c.luns_per_nand_ch * nchs)),
      ))

-- The fields that ssd.c lists as calculated, from the others. `unsigned long` products wrap.
unfoldable pub calculated : SsdConfig → ℕ → ℕ → ℕ → SsdParams
calculated c nchs blk_size blks_per_pl = record {
  secsz = secsz;
  secs_per_pg = secs_per_pg;
  pgsz = pgsz;
  pgs_per_flashpg = c.flash_page_size / pgsz;
  flashpgs_per_blk = (c.oneshot_page_size / c.flash_page_size) * oneshotpgs_per_blk;
  pgs_per_oneshotpg = pgs_per_oneshotpg;
  oneshotpgs_per_blk = oneshotpgs_per_blk;
  pgs_per_blk = pgs_per_blk;
  blks_per_pl = blks_per_pl;
  pls_per_lun = pls_per_lun;
  luns_per_ch = luns_per_ch;
  nchs = nchs;
  cell_mode = c.cell_mode;
  write_unit_size = c.write_unit_size;
  write_early_completion = c.write_early_completion;
  pg_4kb_rd_lat = c.nand_4kb_read_latency;
  pg_rd_lat = c.nand_read_latency;
  pg_wr_lat = c.nand_prog_latency;
  blk_er_lat = c.nand_erase_latency;
  max_ch_xfer_size = c.max_ch_xfer_size;
  fw_4kb_rd_lat = c.fw_4kb_read_latency;
  fw_rd_lat = c.fw_read_latency;
  fw_wbuf_lat0 = c.fw_wbuf_latency0;
  fw_wbuf_lat1 = c.fw_wbuf_latency1;
  fw_ch_xfer_lat = c.fw_ch_xfer_latency;
  ch_bandwidth = c.nand_channel_bandwidth;
  pcie_bandwidth = c.pcie_bandwidth;
  secs_per_blk = secs_per_blk;
  secs_per_pl = secs_per_pl;
  secs_per_lun = secs_per_lun;
  secs_per_ch = secs_per_ch;
  tt_secs = u64 (secs_per_ch * nchs);
  pgs_per_pl = pgs_per_pl;
  pgs_per_lun = pgs_per_lun;
  pgs_per_ch = pgs_per_ch;
  tt_pgs = u64 (pgs_per_ch * nchs);
  blks_per_lun = blks_per_lun;
  blks_per_ch = blks_per_ch;
  tt_blks = u64 (blks_per_ch * nchs);
  blks_per_line = tt_luns;
  pgs_per_line = pgs_per_line;
  secs_per_line = u64 (pgs_per_line * secs_per_pg);
  tt_lines = blks_per_lun;
  pls_per_ch = pls_per_ch;
  tt_pls = u64 (pls_per_ch * nchs);
  tt_luns = tt_luns;
  write_buffer_size = c.global_wb_size;
}
  where
    secsz : ℕ
    secsz = c.lba_size

    secs_per_pg : ℕ
    secs_per_pg = 4096 / c.lba_size

    pgsz : ℕ
    pgsz = secsz * secs_per_pg

    pls_per_lun : ℕ
    pls_per_lun = c.plns_per_lun

    luns_per_ch : ℕ
    luns_per_ch = c.luns_per_nand_ch

    pgs_per_oneshotpg : ℕ
    pgs_per_oneshotpg = c.oneshot_page_size / pgsz

    oneshotpgs_per_blk : ℕ
    oneshotpgs_per_blk = u32 (div_round_up blk_size c.oneshot_page_size)

    pgs_per_blk : ℕ
    pgs_per_blk = pgs_per_oneshotpg * oneshotpgs_per_blk

    secs_per_blk : ℕ
    secs_per_blk = secs_per_pg * pgs_per_blk

    secs_per_pl : ℕ
    secs_per_pl = u64 (secs_per_blk * blks_per_pl)

    secs_per_lun : ℕ
    secs_per_lun = u64 (secs_per_pl * pls_per_lun)

    secs_per_ch : ℕ
    secs_per_ch = u64 (secs_per_lun * luns_per_ch)

    pgs_per_pl : ℕ
    pgs_per_pl = pgs_per_blk * blks_per_pl

    pgs_per_lun : ℕ
    pgs_per_lun = u64 (pgs_per_pl * pls_per_lun)

    pgs_per_ch : ℕ
    pgs_per_ch = u64 (pgs_per_lun * luns_per_ch)

    blks_per_lun : ℕ
    blks_per_lun = blks_per_pl * pls_per_lun

    blks_per_ch : ℕ
    blks_per_ch = u64 (blks_per_lun * luns_per_ch)

    pls_per_ch : ℕ
    pls_per_ch = pls_per_lun * luns_per_ch

    tt_luns : ℕ
    tt_luns = luns_per_ch * nchs

    pgs_per_line : ℕ
    pgs_per_line = u64 (tt_luns * pgs_per_blk)

-- `ssd_init_params`. `int` fields are taken to stay below 2^31, as the compiler may assume.
unfoldable pub ssd_init_params : SsdConfig → ℕ → ℕ → Option SsdParams
unfolding block_layout calculated
ssd_init_params c capacity nparts = do
  let pgsz = c.lba_size * (4096 / c.lba_size)
  nvmev_assert (c.nand_channels % nparts == 0)
  let nchs = c.nand_channels / nparts
  (blk_size, blks_per_pl) ← block_layout c nchs (capacity / nparts)
  nvmev_assert (c.oneshot_page_size % pgsz == 0 && c.flash_page_size % pgsz == 0)
  nvmev_assert (c.oneshot_page_size % c.flash_page_size == 0)
  some (calculated c nchs blk_size blks_per_pl)
