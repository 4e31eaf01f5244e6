-- ===== src/Tests/Devices.antt =====
-- A partition of 2 channels, 2 LUNs, 3 lines of blocks of 4 pages, programmed 2 at a time.
use nvmevirt_fdp.Prelude.{true, [], ◌∷◌, arith}
use nvmevirt_fdp.Ssd.Config.{SsdParams}
use nvmevirt_fdp.Ssd.Geometry.{IsGeometry}

abbrev pub tiny : SsdParams
tiny = record {
  secsz = 512;
  secs_per_pg = 8;
  pgsz = 4096;
  pgs_per_flashpg = 2;
  flashpgs_per_blk = 2;
  pgs_per_oneshotpg = 2;
  oneshotpgs_per_blk = 2;
  pgs_per_blk = 4;
  blks_per_pl = 3;
  pls_per_lun = 1;
  luns_per_ch = 2;
  nchs = 2;
  cell_mode = 2;
  write_unit_size = 512;
  write_early_completion = true;
  pg_4kb_rd_lat = 30 ∷ 40 ∷ 0 ∷ [];
  pg_rd_lat = 35 ∷ 45 ∷ 0 ∷ [];
  pg_wr_lat = 200;
  blk_er_lat = 0;
  max_ch_xfer_size = 4096;
  fw_4kb_rd_lat = 20;
  fw_rd_lat = 30;
  fw_wbuf_lat0 = 4;
  fw_wbuf_lat1 = 1;
  fw_ch_xfer_lat = 0;
  ch_bandwidth = 800;
  pcie_bandwidth = 3360;
  secs_per_blk = 32;
  secs_per_pl = 96;
  secs_per_lun = 96;
  secs_per_ch = 192;
  tt_secs = 384;
  pgs_per_pl = 12;
  pgs_per_lun = 12;
  pgs_per_ch = 24;
  tt_pgs = 48;
  blks_per_lun = 3;
  blks_per_ch = 6;
  tt_blks = 12;
  blks_per_line = 4;
  pgs_per_line = 16;
  secs_per_line = 128;
  tt_lines = 3;
  pls_per_ch = 2;
  tt_pls = 4;
  tt_luns = 4;
  write_buffer_size = 65536;
}

pub tiny-IsGeometry : IsGeometry tiny
tiny-IsGeometry = omega arith
