-- ===== src/Fdp/Remap/Inverse.antt =====
-- fdp_ftl.c: the mapping table and the reverse map after the mapping part of a host write, and after
-- garbage collection has moved a page.
use nvmevirt_fdp.Prelude.{
  ℕ, false, ◌<◌, ◌≡◌, ◌≢◌, true, refl, sym, ap, ◌∙◌, subst, arith, ◌==◌, Ensures, Ensures-map,
  if-rule,
}
use nvmevirt_fdp.Ssd.Address.{Ppa, mapped_ppa, same_pg}
use nvmevirt_fdp.Ssd.Geometry.{InDevice, pgidx}
use nvmevirt_fdp.Ssd.Media.{is_free, pg_free, pg_valid, pg_invalid}
use nvmevirt_fdp.Fdp.Lines.{PQueue}
use nvmevirt_fdp.Fdp.State.{Ftl}
use nvmevirt_fdp.Fdp.Gc.{move_page}
use nvmevirt_fdp.Fdp.Namespace.Write.{map_page}
use nvmevirt_fdp.Fdp.Remap.{
  View, view, released, installed, IsMapping, IsMappingBut, released-IsMappingBut,
  installed-IsMapping,
}
use nvmevirt_fdp.Fdp.Remap.Stores.{page_at, Installs}
use nvmevirt_fdp.Fdp.Remap.Rounds.{map_page-view, move_page-view}

-- The logical page `l` moved to `p`, and every other one stayed.
pub record Remapped (v : View) (l : ℕ) (w : View) (p : Ppa) : Type 0 where
  pub mapping : IsMapping w
  pub entry : w.maptbl l ≡ p
  pub others : (k : ℕ) → k ≢ l → w.maptbl k ≡ v.maptbl k
  pub old_invalid : mapped_ppa (v.maptbl l) ≡ true → w.get_pg (v.maptbl l) ≡ pg_invalid

released-sp : (v : View) (p : Ppa) → (released v p).sp ≡ v.sp
released-sp v p = if-rule (λ (u : View). u.sp ≡ v.sp) (mapped_ppa p) _ v refl refl

released-maptbl : (v : View) (p : Ppa) → (released v p).maptbl ≡ v.maptbl
released-maptbl v p = if-rule (λ (u : View). u.maptbl ≡ v.maptbl) (mapped_ppa p) _ v refl refl

old_page :
    (v : View) (l : ℕ) (p : Ppa)
    → mapped_ppa (v.maptbl l) ≡ true
    → (released v (v.maptbl l)).get_pg p ≡ pg_free
    → (installed (released v (v.maptbl l)) l p).get_pg (v.maptbl l) ≡ pg_invalid
old_page v l p m free = let free' = rw m at free in rw m (ground (arith, free'))

-- The page that is given up is not free, so it is not the free page that is written.
pub Installs-Remapped :
    (v : View) (l : ℕ) (w : View) (p : Ppa)
    → IsMapping v
    → InDevice v.sp p
    → l < v.sp.tt_pgs
    → Installs (released v (v.maptbl l)) l w p
    → Remapped v l w p
Installs-Remapped v l w p h hp hl e =
    let old = v.maptbl l in
    let hp' = subst (λ s. InDevice s p) (sym (released-sp v old)) hp in
    let done = installed-IsMapping (released v old) l p (released-IsMappingBut v l h hl) hp' e.2 in
    record {
      mapping = subst IsMapping (sym e.0) done;
      entry = ap (λ u. u.maptbl l) e.0 ∙ ground arith;
      others =
          λ k ne. ap (λ u. u.maptbl k) e.0 ∙ ground (arith, ap (λ m. m k) (released-maptbl v old));
      old_invalid = λ m. ap (λ u. u.get_pg old) e.0 ∙ old_page v l p m e.2;
    }

-- The mapping part of a round of the loop of `fdp_write` (up to `advance_write_pointer`, before the
-- NAND command and the write credits, whose garbage collection may move other pages), whether the
-- logical page was mapped or not: if the tables agree before (the page of every entry is a valid page of
-- the device, and its reverse entry leads back), the logical page is in range and the handle's write
-- pointer is at a page of the device, then, where no assertion stops `map_page`, the page that it
-- returns is the pointer's; the tables agree after; the logical page is mapped to that page and every
-- other one keeps its entry; and the page that it was mapped to before is invalid.
pub map_page-Remapped :
    (pq : PQueue) (f : Ftl pq.Q) (ruh l : ℕ)
    → IsMapping (view f)
    → l < f.sp.tt_pgs
    → InDevice f.sp (page_at (f.wp_ruh ruh))
    → Ensures
        (λ (r : Ppa × Ftl pq.Q).
          (r.0 ≡ page_at (f.wp_ruh ruh)) × Remapped (view f) l (view r.1) r.0)
        (map_page pq f ruh l)
map_page-Remapped pq f ruh l h hl hp = Ensures-map (map_page-view pq f ruh l) λ r e.
    (e.0, Installs-Remapped (view f) l (view r.1) r.0 h (subst (InDevice f.sp) (sym e.0) hp) hl e.1)

-- In garbage collection the old page is left as it is, to be erased with its block.
pub record Moved (v : View) (old : Ppa) (w : View) (p : Ppa) : Type 0 where
  pub mapping : IsMapping w
  pub entry : w.maptbl (v.rmap (pgidx v.sp old)) ≡ p
  pub others : (k : ℕ) → k ≢ v.rmap (pgidx v.sp old) → w.maptbl k ≡ v.maptbl k
  pub was_free : v.get_pg p ≡ pg_free
  pub now_valid : w.get_pg p ≡ pg_valid
  pub same_sp : w.sp ≡ v.sp
  pub others_back : (i : ℕ) → i ≢ pgidx v.sp p → w.rmap i ≡ v.rmap i
  pub none_freed : (q : Ppa) → is_free (v.get_pg q) ≡ false → is_free (w.get_pg q) ≡ false

Installs-Moved :
    (v : View) (old : Ppa) (w : View) (p : Ppa)
    → IsMapping v
    → InDevice v.sp p
    → Installs v (v.rmap (pgidx v.sp old)) w p
    → Moved v old w p
Installs-Moved v old w p h hp e =
    let l = v.rmap (pgidx v.sp old) in
    let but : IsMappingBut (◌==◌ l) v = record {
      geometry = h.geometry;
      pages = h.pages;
      held = λ k hk out m. h.held k hk refl m;
    } in
    record {
      mapping = subst IsMapping (sym e.0) (installed-IsMapping v l p but hp e.2);
      entry = ap (λ u. u.maptbl l) e.0 ∙ ground arith;
      others = λ k ne. ap (λ u. u.maptbl k) e.0 ∙ ground arith;
      was_free = e.2;
      now_valid = ap (λ u. u.get_pg p) e.0 ∙ ground arith;
      same_sp = ap (λ u. u.sp) e.0;
      others_back = λ i ne. ap (λ u. u.rmap i) e.0 ∙ ground arith;
      none_freed = λ q h'.
          ap (λ u. is_free (u.get_pg q)) e.0
          ∙ if-rule (λ s. is_free s ≡ false) (same_pg p q) pg_valid (v.get_pg q) refl h';
    }

-- `gc_write_page`, whichever branches it takes: if the tables agree before and the GC pointer is at
-- a page of the device, then, where no assertion stops it, the page written is the pointer's, was free
-- and is valid after; the tables agree after; and the logical page that the reverse map names for
-- the old page is mapped to the new one, while every other one keeps its entry; no page becomes free,
-- and the reverse map changes at the new page alone.
pub move_page-Moved :
    (pq : PQueue) (f : Ftl pq.Q) (old : Ppa)
    → IsMapping (view f)
    → InDevice f.sp (page_at f.gc_wp)
    → Ensures
        (λ (r : Ppa × Ftl pq.Q). (r.0 ≡ page_at f.gc_wp) × Moved (view f) old (view r.1) r.0)
        (move_page pq f old)
move_page-Moved pq f old h hp = Ensures-map (move_page-view pq f old) λ r e.
    (e.0, Installs-Moved (view f) old (view r.1) r.0 h (subst (InDevice f.sp) (sym e.0) hp) e.1)
