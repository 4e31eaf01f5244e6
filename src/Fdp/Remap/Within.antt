-- ===== src/Fdp/Remap/Within.antt =====
-- fdp_ftl.c: the mapping part of a first write, and of the move of a page by garbage collection,
-- while the write pointer is before the last page of its line.
use nvmevirt_fdp.Prelude.{
  ℕ, ◌+◌, ◌<◌, ◌≡◌, ◌%◌, ◌^◌, false, some, refl, ap, arith, ltb, ◌==◌, Returns, returns,
  Returns-map, Returns-bind, Returns-assert, Returns-Ensures, ◌>>=◌, if◌then◌else◌,
}
use nvmevirt_fdp.Ssd.Config.{SsdParams, fdp_nr_ruh}
use nvmevirt_fdp.Ssd.Address.{Ppa, mapped_ppa}
use nvmevirt_fdp.Ssd.Geometry.{IsGeometry, InDevice, pgidx, valid_lpn}
use nvmevirt_fdp.Ssd.Geometry.Index.{ppa2pgidx_ok}
use nvmevirt_fdp.Ssd.Media.{pg_free, is_free, Media}
use nvmevirt_fdp.Fdp.Lines.{PQueue}
use nvmevirt_fdp.Fdp.State.{Ftl, WritePointer, IoType, user_io, gc_io}
use nvmevirt_fdp.Fdp.Mapping.{set_maptbl_ent, set_rmap_ent, get_rmap_ent}
use nvmevirt_fdp.Fdp.Pointers.{
  get_wp, set_wp, advance_write_pointer, get_new_page, next_line, Position, next_page, line_end,
}
use nvmevirt_fdp.Fdp.Pointers.Order.{IsPointer, rank, Advanced, advance_position-Advanced}
use nvmevirt_fdp.Fdp.Pages.{mark_page_valid, validate_media}
use nvmevirt_fdp.Fdp.Gc.{move_page}
use nvmevirt_fdp.Fdp.Namespace.Write.{map_page, unmap_page}
use nvmevirt_fdp.Fdp.Remap.{view, IsMapping}
use nvmevirt_fdp.Fdp.Remap.Stores.{page_at, pointer}
use nvmevirt_fdp.Fdp.Remap.Inverse.{Remapped, Moved, map_page-Remapped, move_page-Moved}

-- The write pointer is at a free page of the device that is not the last of its line, and the counts
-- of the page's block and line leave room for one more valid page.
pub record HasPage {Q : Type 0} (f : Ftl Q) (io : IoType) (ruh : ℕ) : Type 0 where
  pub handle : ruh < fdp_nr_ruh
  pub geometry : IsGeometry f.sp
  pub at : IsPointer f.sp (pointer f io ruh)
  pub plane : (pointer f io ruh).pl ≡ 0
  pub block : (pointer f io ruh).blk < f.sp.blks_per_pl
  pub before_last :
      rank f.sp (pointer f io ruh).ch (pointer f io ruh).lun (pointer f io ruh).pg + 1
      < f.sp.pgs_per_line
  pub free : f.media.get_pg (page_at (pointer f io ruh)) ≡ pg_free
  pub block_room : (f.media.get_blk (page_at (pointer f io ruh))).vpc < f.sp.pgs_per_blk
  pub line_room : (f.lm.lines (page_at (pointer f io ruh)).blk).vpc < f.sp.pgs_per_line

pub HasPage-InDevice :
    {Q : Type 0} (f : Ftl Q) (io : IoType) (ruh : ℕ)
    → HasPage f io ruh
    → InDevice f.sp (page_at (pointer f io ruh))
HasPage-InDevice f io ruh h =
    let g = h.geometry in
    let at = h.at in
    record {
      ch_in = omega (arith, at.ch_in, g.nchs_fit);
      lun_in = omega (arith, at.lun_in, g.luns_fit);
      pl_in = omega (arith, h.plane, g.one_plane);
      blk_in = omega (arith, h.block, g.blks_fit);
      pg_in = omega (arith, at.pg_in, g.pgs_fit);
    }

module _ (pq : PQueue) where
  get_wp-Returns :
      (f : Ftl pq.Q) (io : IoType) (ruh : ℕ)
      → ruh < fdp_nr_ruh
      → Returns (λ w. w ≡ pointer f io ruh) (get_wp f io ruh)
  unfolding get_wp
  get_wp-Returns f user_io ruh h = Returns-assert (ground arith) (returns refl)
  get_wp-Returns f gc_io ruh h = returns refl

  get_new_page-Returns :
      (f : Ftl pq.Q) (io : IoType) (ruh : ℕ)
      → HasPage f io ruh
      → Returns (λ p. p ≡ page_at (pointer f io ruh)) (get_new_page f io ruh)
  unfolding get_new_page
  get_new_page-Returns f io ruh h = Returns-bind (get_wp-Returns f io ruh h.handle) λ w e.
      Returns-assert {b = w.pl % 2 ^ 8 == 0} (ground (arith, h.plane, ap (λ u. u.pl) e))
        (returns (ap page_at e))

  -- Before the last page of its line the pointer only moves.
  step :
      (f : Ftl pq.Q) (io : IoType) (ruh : ℕ) (w : WritePointer) (p : Position)
      → Advanced f.sp w p
      → rank f.sp w.ch w.lun w.pg + 1 < f.sp.pgs_per_line
      → Returns
          (λ _. Unit {0})
          (elim p [
            | Position.next_page w' ↦ some (set_wp f io ruh w')
            | Position.line_end w' ↦ next_line pq f io ruh w'
          ])
  step f io ruh w (next_page w') s h = returns tt
  step f io ruh w (line_end w') s h = absurd (omega (arith, s.0))

  advance-Returns :
      (f : Ftl pq.Q) (io : IoType) (ruh : ℕ)
      → ruh < fdp_nr_ruh
      → IsGeometry f.sp
      → IsPointer f.sp (pointer f io ruh)
      → rank f.sp (pointer f io ruh).ch (pointer f io ruh).lun (pointer f io ruh).pg + 1
        < f.sp.pgs_per_line
      → Returns (λ _. Unit {0}) (advance_write_pointer pq f io ruh)
  unfolding advance_write_pointer
  advance-Returns f io ruh hr g h before = Returns-bind (get_wp-Returns f io ruh hr) λ w e.
      Returns-bind (advance_position-Advanced f.sp w g (rw e h))
        λ p s. step f io ruh w p s (rw e before)

  set_maptbl_ent_ok :
      (f : Ftl pq.Q) (l : ℕ) (p : Ppa)
      → l < f.sp.tt_pgs
      → set_maptbl_ent f l p ≡ some (record f { maptbl = λ k. if l == k then p else f.maptbl k })
  unfolding set_maptbl_ent
  set_maptbl_ent_ok f l p h = ground arith

  set_rmap_ent_ok :
      (f : Ftl pq.Q) (l : ℕ) (p : Ppa)
      → IsGeometry f.sp
      → InDevice f.sp p
      → set_rmap_ent f l p
        ≡ some (record f { rmap = λ i. if pgidx f.sp p == i then l else f.rmap i })
  unfolding set_rmap_ent
  set_rmap_ent_ok f l p g h = rw (ppa2pgidx_ok f.sp p g h).0

  validate_media-Returns :
      (sp : SsdParams) (m : Media) (p : Ppa)
      → m.get_pg p ≡ pg_free
      → (m.get_blk p).vpc < sp.pgs_per_blk
      → Returns (λ _. Unit {0}) (validate_media sp m p)
  unfolding validate_media
  validate_media-Returns sp m p free block =
      Returns-assert {b = is_free (m.get_pg p)} (rw free)
        (Returns-assert {b = ltb (m.get_blk p).vpc sp.pgs_per_blk} (ground arith) (returns tt))

  -- Only the media and the lines change.
  mark_page_valid-Returns :
      (f : Ftl pq.Q) (p : Ppa)
      → f.media.get_pg p ≡ pg_free
      → (f.media.get_blk p).vpc < f.sp.pgs_per_blk
      → (f.lm.lines p.blk).vpc < f.sp.pgs_per_line
      → Returns
          (λ g. (g.sp ≡ f.sp) × (g.wp_ruh ≡ f.wp_ruh) × (g.gc_wp ≡ f.gc_wp))
          (mark_page_valid f p)
  unfolding mark_page_valid
  mark_page_valid-Returns f p free block line =
      Returns-bind (validate_media-Returns f.sp f.media p free block) λ m _.
        Returns-assert {b = ltb (f.lm.lines p.blk).vpc f.sp.pgs_per_line} (ground arith)
          (returns (refl, refl, refl))

  pointer-frame :
      (f g : Ftl pq.Q) (io : IoType) (ruh : ℕ)
      → g.wp_ruh ≡ f.wp_ruh
      → g.gc_wp ≡ f.gc_wp
      → pointer g io ruh ≡ pointer f io ruh
  pointer-frame f g user_io ruh e k = ap (λ w. w ruh) e
  pointer-frame f g gc_io ruh e k = k

  advance-after :
      (f g : Ftl pq.Q) (io : IoType) (ruh : ℕ)
      → HasPage f io ruh
      → (g.sp ≡ f.sp) × (g.wp_ruh ≡ f.wp_ruh) × (g.gc_wp ≡ f.gc_wp)
      → Returns (λ _. Unit {0}) (advance_write_pointer pq g io ruh)
  advance-after f g io ruh h e =
      let p = pointer-frame f g io ruh e.1 e.2 in
      advance-Returns g io ruh h.handle (rw e.0 h.geometry) (rw (e.0, p) h.at)
        (rw (e.0, p) h.before_last)

  install-Returns :
      (f : Ftl pq.Q) (io : IoType) (ruh l : ℕ) (p : Ppa)
      → HasPage f io ruh
      → p ≡ page_at (pointer f io ruh)
      → l < f.sp.tt_pgs
      → Returns
          (λ (_ : Ppa × Ftl pq.Q). Unit {0})
          (do
            f1 ← set_maptbl_ent f l p
            f2 ← set_rmap_ent f1 l p
            f3 ← mark_page_valid f2 p
            f4 ← advance_write_pointer pq f3 io ruh
            some (p, f4))
  install-Returns f io ruh l p h e hl =
      let f1 = record f { maptbl = λ k. if l == k then p else f.maptbl k } in
      rw
        (
          set_maptbl_ent_ok f l p hl,
          set_rmap_ent_ok f1 l p h.geometry (rw e (HasPage-InDevice f io ruh h)),
        )
        (Returns-bind
          (mark_page_valid-Returns _ p (rw e h.free) (rw e h.block_room) (rw e h.line_room))
          λ f3 e3. Returns-bind (advance-after f f3 io ruh h e3) λ f4 _. returns tt)

  map_page-Returns :
      (f : Ftl pq.Q) (ruh l : ℕ)
      → HasPage f user_io ruh
      → mapped_ppa (f.maptbl l) ≡ false
      → l < f.sp.tt_pgs
      → Returns (λ _. Unit {0}) (map_page pq f ruh l)
  unfolding map_page unmap_page
  map_page-Returns f ruh l h new hl = rw new (
      Returns-bind (get_new_page-Returns f user_io ruh h)
        λ p e. install-Returns f user_io ruh l p h e hl)

  move_page-Returns :
      (f : Ftl pq.Q) (old : Ppa)
      → HasPage f gc_io 0
      → InDevice f.sp old
      → f.rmap (pgidx f.sp old) < f.sp.tt_pgs
      → Returns (λ _. Unit {0}) (move_page pq f old)
  unfolding move_page get_rmap_ent valid_lpn
  move_page-Returns f old h ho hl = rw (ppa2pgidx_ok f.sp old h.geometry ho).0 (
      Returns-assert {b = ltb (f.rmap (pgidx f.sp old)) f.sp.tt_pgs} (ground arith) (
        Returns-bind (get_new_page-Returns f gc_io 0 h)
          λ p e. install-Returns f gc_io 0 (f.rmap (pgidx f.sp old)) p h e hl))

  -- The mapping part of the first write of a logical page (`map_page`: the loop of `fdp_write` up to
  -- `advance_write_pointer`, before the NAND command and the write credits), through a handle whose
  -- write pointer is at a free page before the last of its line, with room in the counts of the
  -- page's block and line, on tables that agree: no assertion of this part fails, it returns the
  -- pointer's page, the tables still agree, the logical page is mapped to that page, and every
  -- other logical page keeps its entry.
  pub map_page-first_write :
      (f : Ftl pq.Q) (ruh l : ℕ)
      → IsMapping (view f)
      → HasPage f user_io ruh
      → mapped_ppa (f.maptbl l) ≡ false
      → l < f.sp.tt_pgs
      → Returns
          (λ (r : Ppa × Ftl pq.Q).
            (r.0 ≡ page_at (f.wp_ruh ruh)) × Remapped (view f) l (view r.1) r.0)
          (map_page pq f ruh l)
  map_page-first_write f ruh l v h new hl =
      Returns-map
        (Returns-Ensures (map_page-Returns f ruh l h new hl)
          (map_page-Remapped pq f ruh l v hl (HasPage-InDevice f user_io ruh h)))
        λ r e. e.1

  -- Garbage collection moves the logical page that the reverse map names for a page of the device, with
  -- the GC pointer at a free page before the last of its line and room in the counts: no assertion is
  -- tripped, the page written is the GC pointer's, was free and becomes valid, the tables still agree, the logical page is mapped to that page, and every other one keeps its entry.
  pub move_page-moves :
      (f : Ftl pq.Q) (old : Ppa)
      → IsMapping (view f)
      → HasPage f gc_io 0
      → InDevice f.sp old
      → f.rmap (pgidx f.sp old) < f.sp.tt_pgs
      → Returns
          (λ (r : Ppa × Ftl pq.Q). (r.0 ≡ page_at f.gc_wp) × Moved (view f) old (view r.1) r.0)
          (move_page pq f old)
  move_page-moves f old v h ho hl =
      Returns-map
        (Returns-Ensures (move_page-Returns f old h ho hl)
          (move_page-Moved pq f old v (HasPage-InDevice f gc_io 0 h)))
        λ r e. e.1
