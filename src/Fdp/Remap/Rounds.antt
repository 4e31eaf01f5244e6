-- ===== src/Fdp/Remap/Rounds.antt =====
-- fdp_ftl.c: the mapping part of a round of `fdp_write`'s loop, and `gc_write_page`, on the mapping.
use nvmevirt_fdp.Prelude.{
  ℕ, ◌≡◌, refl, sym, ap, ◌∙◌, subst, some, Ensures, ends, Ensures-bind, Ensures-assert, Ensures-map,
  ◌>>=◌,
}
use nvmevirt_fdp.Ssd.Address.{Ppa}
use nvmevirt_fdp.Ssd.Geometry.{valid_lpn, pgidx}
use nvmevirt_fdp.Ssd.Media.{pg_valid}
use nvmevirt_fdp.Fdp.Lines.{PQueue}
use nvmevirt_fdp.Fdp.State.{Ftl, IoType, user_io, gc_io}
use nvmevirt_fdp.Fdp.Mapping.{set_maptbl_ent, set_rmap_ent}
use nvmevirt_fdp.Fdp.Pointers.{get_wp, advance_write_pointer}
use nvmevirt_fdp.Fdp.Pages.{mark_page_valid}
use nvmevirt_fdp.Fdp.Namespace.Write.{map_page}
use nvmevirt_fdp.Fdp.Gc.{move_page}
use nvmevirt_fdp.Fdp.Remap.{view, released}
use nvmevirt_fdp.Fdp.Remap.Stores.{
  marked, traced, page_at, Installs, advance_write_pointer-Leaves, mark_page_valid-view,
  set_maptbl_ent-view, set_rmap_ent-view, get_rmap_ent-view, unmap_page-view, get_new_page-pointer,
}

module _ (pq : PQueue) where
  -- The end of both: the logical page gets the page.
  install :
      (f : Ftl pq.Q) (io : IoType) (ruh l : ℕ) (p : Ppa)
      → Ensures
          (λ (r : Ppa × Ftl pq.Q). (r.0 ≡ p) × Installs (view f) l (view r.1) r.0)
          (do
            f1 ← set_maptbl_ent f l p
            f2 ← set_rmap_ent f1 l p
            f3 ← mark_page_valid f2 p
            f4 ← advance_write_pointer pq f3 io ruh
            some (p, f4))
  install f io ruh l p = Ensures-bind (set_maptbl_ent-view pq f l p) λ f1 e1.
      Ensures-bind (set_rmap_ent-view pq f1 l p) λ f2 e2.
        Ensures-bind (mark_page_valid-view pq f2 p) λ f3 e3.
          Ensures-bind (advance_write_pointer-Leaves pq f3 io ruh) λ g e4.
            let e = e2.0 ∙ ap (λ v. traced v l p) e1.0 in
            ends (
              refl,
              (
                e4 ∙ e3.0 ∙ ap (λ v. marked v p pg_valid) e,
                e1.1,
                sym (ap (λ v. v.get_pg p) e) ∙ e3.1,
              ),
            )

  -- What a round of the loop of `fdp_write` does to the mapping, whichever branches it takes.
  pub map_page-view :
      (f : Ftl pq.Q) (ruh l : ℕ)
      → Ensures
          (λ (r : Ppa × Ftl pq.Q).
            (r.0 ≡ page_at (f.wp_ruh ruh))
            × Installs (released (view f) (f.maptbl l)) l (view r.1) r.0)
          (map_page pq f ruh l)
  unfolding map_page get_wp
  map_page-view f ruh l = Ensures-bind (unmap_page-view pq f (f.maptbl l)) λ f1 e1.
      Ensures-bind (get_new_page-pointer pq f1 user_io ruh) λ p at.
        Ensures-map (install f1 user_io ruh l p) λ r e.
          let v = released (view f) (f.maptbl l) in
          (
            e.0 ∙ at ∙ ap (λ w. page_at (w ruh)) e1.1,
            subst (λ u. Installs u l (view r.1) r.0) e1.0 e.1,
          )

  -- What `gc_write_page` does to the mapping.
  pub move_page-view :
      (f : Ftl pq.Q) (old : Ppa)
      → Ensures
          (λ (r : Ppa × Ftl pq.Q).
            (r.0 ≡ page_at f.gc_wp) × Installs (view f) (f.rmap (pgidx f.sp old)) (view r.1) r.0)
          (move_page pq f old)
  unfolding move_page get_wp
  move_page-view f old = Ensures-bind (get_rmap_ent-view pq f old) λ l e1.
      Ensures-assert (valid_lpn f.sp l) λ _.
        Ensures-bind (get_new_page-pointer pq f gc_io 0) λ p at.
          Ensures-map (install f gc_io 0 l p)
            λ r e. (e.0 ∙ at, subst (λ k. Installs (view f) k (view r.1) r.0) e1 e.1)
