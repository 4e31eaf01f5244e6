-- ===== src/Fdp/Remap/GcPointer.antt =====
-- fdp_ftl.c: the write pointer of garbage collection, and the pages of the device.
use nvmevirt_fdp.Prelude.{
  ℕ, ◌<◌, ◌≡◌, some, refl, sym, ap, ◌∙◌, subst, arith, ltb, ◌==◌, Ensures, ends, Ensures-bind,
  Ensures-assert, Ensures-if, Ensures-Returns,
}
use nvmevirt_fdp.Ssd.Config.{SsdParams}
use nvmevirt_fdp.Ssd.Address.{Ppa}
use nvmevirt_fdp.Ssd.Geometry.{IsGeometry, InDevice, ppa2pgidx, valid_lpn}
use nvmevirt_fdp.Ssd.Nand.{NandCmd, ssd_advance_nand}
use nvmevirt_fdp.Fdp.Lines.{PQueue}
use nvmevirt_fdp.Fdp.State.{Ftl, Dev, WritePointer, gc_io}
use nvmevirt_fdp.Fdp.Mapping.{set_maptbl_ent, set_rmap_ent, get_rmap_ent}
use nvmevirt_fdp.Fdp.Pointers.{
  get_wp, set_wp, label_line, next_line, advance_write_pointer, get_new_page, Position, next_page,
  line_end,
}
use nvmevirt_fdp.Fdp.Pointers.Order.{IsPointer, Advanced, advance_position-Advanced}
use nvmevirt_fdp.Fdp.Pages.{mark_page_valid, validate_media}
use nvmevirt_fdp.Fdp.Gc.{advance, gc_delay, move_page}
use nvmevirt_fdp.Fdp.Remap.{View}
use nvmevirt_fdp.Fdp.Remap.Stores.{
  page_at, Ensures-any, close_line-Leaves, get_next_free_line-Leaves,
}

-- The GC pointer is at a page of the device.
pub record InLine (sp : SsdParams) (w : WritePointer) : Type 0 where
  pub at : IsPointer sp w
  pub plane : w.pl ≡ 0
  pub block : w.blk < sp.blks_per_pl

pub InLine-InDevice :
    (sp : SsdParams) (w : WritePointer) → IsGeometry sp → InLine sp w → InDevice sp (page_at w)
InLine-InDevice sp w g h =
    let at = h.at in
    record {
      ch_in = omega (arith, at.ch_in, g.nchs_fit);
      lun_in = omega (arith, at.lun_in, g.luns_fit);
      pl_in = omega (arith, h.plane, g.one_plane);
      blk_in = omega (arith, h.block, g.blks_fit);
      pg_in = omega (arith, at.pg_in, g.pgs_fit);
    }

pub pgs_pos : (sp : SsdParams) → IsGeometry sp → 0 < sp.pgs_per_blk
pgs_pos sp g = rw g.pgs_of_oneshots (grind (arith, g.oneshot_pos, g.oneshots_pos))

module _ (pq : PQueue) where
  abbrev pub AtPage : Ftl pq.Q → Type 0
  AtPage f = IsGeometry f.sp × InLine f.sp f.gc_wp

  -- A new line starts at its first page.
  pub next_line-AtPage :
      (f : Ftl pq.Q) (w : WritePointer)
      → IsGeometry f.sp
      → Ensures AtPage (next_line pq f gc_io 0 w)
  unfolding next_line label_line set_wp
  next_line-AtPage f w g = Ensures-bind (close_line-Leaves pq f w.curline) λ f1 e1.
      Ensures-assert (ltb w.blk f.sp.blks_per_pl) λ _.
        Ensures-bind (get_next_free_line-Leaves pq f1) λ r e2.
          Ensures-assert (ltb ((label_line r.1 r.0 gc_io 0).lm.lines r.0).id f.sp.blks_per_pl) λ b.
            Ensures-assert (w.pg == 0) λ a1. Ensures-assert (w.lun == 0) λ a2.
              Ensures-assert (w.ch == 0) λ a3. Ensures-assert (w.pl == 0) λ a4.
                let ch : w.ch < f.sp.nchs = ground (arith, g.nchs_pos) in
                let lun : w.lun < f.sp.luns_per_ch = ground (arith, g.luns_pos) in
                let pg : w.pg < f.sp.pgs_per_blk = ground (arith, pgs_pos f.sp g) in
                let blk : ((label_line r.1 r.0 gc_io 0).lm.lines r.0).id < f.sp.blks_per_pl =
                  ground arith in
                let e : r.1.sp ≡ f.sp = ap (λ (v : View). v.sp) (e2 ∙ e1) in
                ends (
                  subst IsGeometry (sym e) g,
                  record {
                    at = record { ch_in = rw e ch; lun_in = rw e lun; pg_in = rw e pg };
                    plane = ground arith;
                    block = rw e blk;
                  },
                )

  pub after :
      (f : Ftl pq.Q) (p : Position)
      → AtPage f
      → Advanced f.sp f.gc_wp p
      → Ensures AtPage (elim p [
        | Position.next_page w' ↦ some (set_wp f gc_io 0 w')
        | Position.line_end w' ↦ next_line pq f gc_io 0 w'
      ])
  unfolding set_wp
  after f (next_page w) h s =
      ends (h.0, record { at = s.0; plane = s.4 ∙ h.1.plane; block = rw s.3 h.1.block })
  after f (line_end w) h s = next_line-AtPage f w h.0

  pub advance-AtPage :
      (f : Ftl pq.Q) → AtPage f → Ensures AtPage (advance_write_pointer pq f gc_io 0)
  unfolding advance_write_pointer get_wp
  advance-AtPage f h =
      Ensures-bind (Ensures-Returns (advance_position-Advanced f.sp f.gc_wp h.0 h.1.at))
        λ p s. after f p h s

  pub set_maptbl_ent-AtPage :
      (f : Ftl pq.Q) (l : ℕ) (p : Ppa) → AtPage f → Ensures AtPage (set_maptbl_ent f l p)
  unfolding set_maptbl_ent
  set_maptbl_ent-AtPage f l p h = Ensures-assert (ltb l f.sp.tt_pgs) λ _. ends h

  pub set_rmap_ent-AtPage :
      (f : Ftl pq.Q) (l : ℕ) (p : Ppa) → AtPage f → Ensures AtPage (set_rmap_ent f l p)
  unfolding set_rmap_ent
  set_rmap_ent-AtPage f l p h = Ensures-bind (Ensures-any pq (ppa2pgidx f.sp p)) λ i _. ends h

  pub mark_page_valid-AtPage :
      (f : Ftl pq.Q) (p : Ppa) → AtPage f → Ensures AtPage (mark_page_valid f p)
  unfolding mark_page_valid
  mark_page_valid-AtPage f p h =
      Ensures-bind (Ensures-any pq (validate_media f.sp f.media p))
        λ m _. Ensures-assert (ltb (f.lm.lines p.blk).vpc f.sp.pgs_per_line) λ _. ends h

  pub move_page-AtPage :
      (f : Ftl pq.Q) (old : Ppa)
      → AtPage f
      → Ensures (λ (r : Ppa × Ftl pq.Q). AtPage r.1) (move_page pq f old)
  unfolding move_page
  move_page-AtPage f old h = Ensures-bind (Ensures-any pq (get_rmap_ent f old)) λ l _.
      Ensures-assert (valid_lpn f.sp l) λ _.
        Ensures-bind (Ensures-any pq (get_new_page f gc_io 0)) λ p _.
          Ensures-bind (set_maptbl_ent-AtPage f l p h) λ f1 h1.
            Ensures-bind (set_rmap_ent-AtPage f1 l p h1) λ f2 h2.
              Ensures-bind (mark_page_valid-AtPage f2 p h2)
                λ f3 h3. Ensures-bind (advance-AtPage f3 h3) λ f4 h4. ends h4

  pub advance-ftl :
      (d : Dev pq.Q) (n : NandCmd) → Ensures (λ (r : ℕ × Dev pq.Q). r.1.ftl ≡ d.ftl) (advance d n)
  unfolding advance
  advance-ftl d n =
      Ensures-bind (Ensures-any pq (ssd_advance_nand d.ftl.sp n d.time)) λ r _. ends refl

  pub gc_delay-ftl : (d : Dev pq.Q) (n : NandCmd) → Ensures (λ d'. d'.ftl ≡ d.ftl) (gc_delay d n)
  unfolding gc_delay
  gc_delay-ftl d n =
      Ensures-if d.ftl.cp.enable_gc_delay (λ _. Ensures-bind (advance-ftl d n) λ r e. ends e)
        (λ _. ends refl)
