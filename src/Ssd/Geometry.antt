-- ===== src/Ssd/Geometry.antt =====
-- The geometry that the FTLs rely on: which fields of `struct ssdparams` are products of which, and
-- the numbering of pages (`ppa2pgidx` of fdp_ftl.c).
pub mod Index
use nvmevirt_fdp.Prelude.{
  ℕ, ◌+◌, ◌*◌, ◌^◌, ◌≤◌, ◌<◌, ◌≡◌, Bool, ◌&&◌, Option, some, ltb, ◌>>=◌, ◌>>◌, nvmev_assert,
}
use nvmevirt_fdp.Ssd.Config.{SsdParams}
use nvmevirt_fdp.Ssd.Address.{Ppa}

-- A single-plane device whose addresses fit `struct ppa` and whose products do not wrap.
pub record IsGeometry (sp : SsdParams) : Type 0 where
  pub nchs_pos : 0 < sp.nchs
  pub nchs_fit : sp.nchs ≤ 2 ^ 8
  pub luns_pos : 0 < sp.luns_per_ch
  pub luns_fit : sp.luns_per_ch ≤ 2 ^ 8
  pub one_plane : sp.pls_per_lun ≡ 1
  pub blks_fit : sp.blks_per_pl ≤ 2 ^ 16
  pub blks_pos : 0 < sp.blks_per_pl
  pub pgs_fit : sp.pgs_per_blk ≤ 2 ^ 16
  pub oneshot_pos : 0 < sp.pgs_per_oneshotpg
  pub oneshots_pos : 0 < sp.oneshotpgs_per_blk
  pub pgs_of_oneshots : sp.pgs_per_blk ≡ sp.pgs_per_oneshotpg * sp.oneshotpgs_per_blk
  pub pgs_of_flashpgs : sp.pgs_per_blk ≡ sp.flashpgs_per_blk * sp.pgs_per_flashpg
  pub pl_pgs : sp.pgs_per_pl ≡ sp.pgs_per_blk * sp.blks_per_pl
  pub lun_pgs : sp.pgs_per_lun ≡ sp.pgs_per_pl * sp.pls_per_lun
  pub ch_pgs : sp.pgs_per_ch ≡ sp.pgs_per_lun * sp.luns_per_ch
  pub all_pgs : sp.tt_pgs ≡ sp.pgs_per_ch * sp.nchs
  pub line_pgs : sp.pgs_per_line ≡ sp.luns_per_ch * sp.nchs * sp.pgs_per_blk
  pub all_lines : sp.tt_lines ≡ sp.blks_per_pl
  pub positive_pgsz : 0 < sp.pgsz
  pub few_pgs : sp.tt_pgs < 2 ^ 48

-- The sum that numbers the pages.
abbrev pub pgidx : SsdParams → Ppa → ℕ
pgidx sp p =
    p.ch * sp.pgs_per_ch
    + p.lun * sp.pgs_per_lun
    + p.pl * sp.pgs_per_pl
    + p.blk * sp.pgs_per_blk
    + p.pg

-- `ppa2pgidx`.
unfoldable pub ppa2pgidx : SsdParams → Ppa → Option ℕ
ppa2pgidx sp p = do nvmev_assert (ltb (pgidx sp p) sp.tt_pgs); some (pgidx sp p)

-- `valid_ppa`. The fields are unsigned, so the tests below 0 never hold.
unfoldable pub valid_ppa : SsdParams → Ppa → Bool
valid_ppa sp p =
    ltb p.ch sp.nchs
    && ltb p.lun sp.luns_per_ch
    && ltb p.pl sp.pls_per_lun
    && ltb p.blk sp.blks_per_pl
    && ltb p.pg sp.pgs_per_blk

-- `valid_lpn`.
unfoldable pub valid_lpn : SsdParams → ℕ → Bool
valid_lpn sp lpn = ltb lpn sp.tt_pgs

-- An address of a page of the device.
pub record InDevice (sp : SsdParams) (p : Ppa) : Type 0 where
  pub ch_in : p.ch < sp.nchs
  pub lun_in : p.lun < sp.luns_per_ch
  pub pl_in : p.pl < sp.pls_per_lun
  pub blk_in : p.blk < sp.blks_per_pl
  pub pg_in : p.pg < sp.pgs_per_blk
