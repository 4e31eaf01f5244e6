-- ===== src/Ssd/Geometry/Index.antt =====
-- `ppa2pgidx` of fdp_ftl.c: the bound of page numbers, and pages with one number.
use native.Mathlib.Nat.{div-add-mod'}
use nvmevirt_fdp.Prelude.{
  ℕ, ◌/◌, ◌%◌, ◌∙◌, refl, quotient_lt, ◌+◌, ◌*◌, ◌<◌, ◌≡◌, ◌↔◌, some, true, arith, digit_unique,
  digit_bound,
}
use nvmevirt_fdp.Ssd.Config.{SsdParams}
use nvmevirt_fdp.Ssd.Address.{Ppa, same_pg}
use nvmevirt_fdp.Ssd.Geometry.{IsGeometry, InDevice, pgidx, ppa2pgidx, valid_ppa}

pub valid_ppa_iff : (sp : SsdParams) (p : Ppa) → (valid_ppa sp p ≡ true) ↔ InDevice sp p
unfolding valid_ppa
valid_ppa_iff sp p = (λ e. ground arith, λ v. ground arith)

-- With one plane the index is written in the mixed base (channel, LUN, block, page).
pgidx_digits :
    (sp : SsdParams) (p : Ppa)
    → IsGeometry sp
    → p.pl < sp.pls_per_lun
    → pgidx sp p
      ≡ ((p.ch * sp.luns_per_ch + p.lun) * sp.blks_per_pl + p.blk) * sp.pgs_per_blk + p.pg
pgidx_digits sp p g h =
    let one : p.pl ≡ 0 = omega (arith, g.one_plane) in
    rw (one, g.ch_pgs, g.lun_pgs, g.pl_pgs, g.one_plane) (omega arith)

tt_pgs_digits :
    (sp : SsdParams)
    → IsGeometry sp
    → sp.tt_pgs ≡ sp.nchs * sp.luns_per_ch * sp.blks_per_pl * sp.pgs_per_blk
tt_pgs_digits sp g = rw (g.all_pgs, g.ch_pgs, g.lun_pgs, g.pl_pgs, g.one_plane) (omega arith)

pgidx_bound : (sp : SsdParams) (p : Ppa) → IsGeometry sp → InDevice sp p → pgidx sp p < sp.tt_pgs
pgidx_bound sp p g v =
    let luns = digit_bound sp.luns_per_ch sp.nchs p.ch p.lun v.ch_in v.lun_in in
    let blks =
      digit_bound sp.blks_per_pl (sp.nchs * sp.luns_per_ch) (p.ch * sp.luns_per_ch + p.lun) p.blk
        luns v.blk_in in
    let pgs =
      digit_bound sp.pgs_per_blk (sp.nchs * sp.luns_per_ch * sp.blks_per_pl)
        ((p.ch * sp.luns_per_ch + p.lun) * sp.blks_per_pl + p.blk) p.pg blks v.pg_in in
    rw (pgidx_digits sp p g v.pl_in, tt_pgs_digits sp g) pgs

-- `ppa2pgidx` never trips its assertion on a page of the device.
pub ppa2pgidx_ok :
    (sp : SsdParams) (p : Ppa)
    → IsGeometry sp
    → InDevice sp p
    → (ppa2pgidx sp p ≡ some (pgidx sp p)) × (pgidx sp p < sp.tt_pgs)
unfolding ppa2pgidx
ppa2pgidx_ok sp p g v = (ground (arith, pgidx_bound sp p g v), pgidx_bound sp p g v)

-- Two pages of the device with one index are one page.
pub pgidx-injective :
    (sp : SsdParams) (p q : Ppa)
    → IsGeometry sp
    → InDevice sp p
    → InDevice sp q
    → pgidx sp p ≡ pgidx sp q
    → same_pg p q ≡ true
pgidx-injective sp p q g v w e =
    let digits = rw (pgidx_digits sp p g v.pl_in, pgidx_digits sp q g w.pl_in) at e in
    let pgs = digit_unique sp.pgs_per_blk _ _ p.pg q.pg v.pg_in w.pg_in digits in
    let blks = digit_unique sp.blks_per_pl _ _ p.blk q.blk v.blk_in w.blk_in pgs.0 in
    let luns = digit_unique sp.luns_per_ch p.ch q.ch p.lun q.lun v.lun_in w.lun_in blks.0 in
    ground (arith, v.pl_in, w.pl_in, g.one_plane)

-- Every number below the number of pages is the number of a page of the device.
pub pgidx-surjective :
    (sp : SsdParams) (n : ℕ)
    → IsGeometry sp
    → n < sp.tt_pgs
    → (p : Ppa) × InDevice sp p × (pgidx sp p ≡ n)
pgidx-surjective sp n g h =
    let pos : 0 < sp.pgs_per_blk =
      rw g.pgs_of_oneshots (grind (arith, g.oneshot_pos, g.oneshots_pos)) in
    let blks = n / sp.pgs_per_blk in
    let luns = blks / sp.blks_per_pl in
    let total = tt_pgs_digits sp g in
    let b : blks < sp.blks_per_pl * (sp.nchs * sp.luns_per_ch) =
      quotient_lt sp.pgs_per_blk (sp.blks_per_pl * (sp.nchs * sp.luns_per_ch)) n
        (omega (arith, total)) in
    let l : luns < sp.luns_per_ch * sp.nchs =
      quotient_lt sp.blks_per_pl (sp.luns_per_ch * sp.nchs) blks (omega arith) in
    let p : Ppa = record {
      pg = n % sp.pgs_per_blk;
      blk = blks % sp.blks_per_pl;
      pl = 0;
      lun = luns % sp.luns_per_ch;
      ch = luns / sp.luns_per_ch;
      rsv = 0;
    } in
    let plane : 0 < sp.pls_per_lun = omega (arith, g.one_plane) in
    (
      p,
      record {
        ch_in = quotient_lt sp.luns_per_ch sp.nchs luns l;
        lun_in = omega (arith, g.luns_pos);
        pl_in = plane;
        blk_in = omega (arith, g.blks_pos);
        pg_in = omega (arith, pos);
      },
      pgidx_digits sp p g plane
          ∙ rw
              (
                div-add-mod' luns sp.luns_per_ch,
                div-add-mod' blks sp.blks_per_pl,
                div-add-mod' n sp.pgs_per_blk,
              )
              refl,
    )
