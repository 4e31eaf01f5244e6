-- ===== src/Fdp/Remap/Stores.antt =====
-- fdp_ftl.c: what the steps of a host write and of garbage collection do to the mapping.
use nvmevirt_fdp.Prelude.{
  ℕ, ◌<◌, ◌≡◌, ◌^◌, ◌%◌, [], ◌∷◌, true, refl, ap, ◌∙◌, arith, ltb, leb, not, ◌&&◌, ◌||◌, if-rule,
  ◌==◌, Option, none, some, Ensures, stops, ends, Ensures-bind, Ensures-assert, Ensures-if,
  Ensures-map, if◌then◌else◌, Bool-cases, inl, inr,
}
use nvmevirt_fdp.Ssd.Config.{SsdParams, fdp_nr_ruh}
use nvmevirt_fdp.Ssd.Address.{Ppa, mapped_ppa, invalid_lpn}
use nvmevirt_fdp.Ssd.Geometry.{pgidx, ppa2pgidx}
use nvmevirt_fdp.Ssd.Media.{pg_free, pg_valid, pg_invalid, is_free, is_valid, PageStatus, Media}
use nvmevirt_fdp.Fdp.Lines.{PQueue, Line}
use nvmevirt_fdp.Fdp.State.{Ftl, WritePointer, IoType, dec32, user_io, gc_io}
use nvmevirt_fdp.Fdp.Mapping.{set_maptbl_ent, set_rmap_ent, get_rmap_ent}
use nvmevirt_fdp.Fdp.Pointers.{
  get_wp, set_wp, close_line, get_next_free_line, label_line, next_line, advance_position,
  advance_write_pointer, get_new_page, Position,
}
use nvmevirt_fdp.Fdp.Pages.{
  invalidate_media, validate_media, invalidate_line, full_to_victim, mark_page_invalid,
  mark_page_valid,
}
use nvmevirt_fdp.Fdp.Namespace.Write.{unmap_page}
use nvmevirt_fdp.Fdp.Remap.{View, view, put_pg, released, installed}

-- The tables after one store.
abbrev pub marked : View → Ppa → PageStatus → View
marked v p st = record v { get_pg = put_pg v.get_pg p st }

abbrev pub entered : View → ℕ → Ppa → View
entered v l p = record v { maptbl = λ k. if l == k then p else v.maptbl k }

abbrev pub traced : View → ℕ → Ppa → View
traced v l p = record v { rmap = λ i. if pgidx v.sp p == i then l else v.rmap i }

-- The pointer that `__get_wp` leads to.
abbrev pub pointer : {Q : Type 0} → Ftl Q → IoType → ℕ → WritePointer
pointer f user_io ruh = f.wp_ruh ruh
pointer f gc_io ruh = f.gc_wp

-- The page that a write pointer is at.
abbrev pub page_at : WritePointer → Ppa
page_at w = record {
  pg = w.pg % 2 ^ 16;
  blk = w.blk % 2 ^ 16;
  pl = w.pl % 2 ^ 8;
  lun = w.lun % 2 ^ 8;
  ch = w.ch % 2 ^ 8;
  rsv = 0;
}

pub is_free_lem : (s : PageStatus) → is_free s ≡ true → s ≡ pg_free
is_free_lem PageStatus.pg_free e = refl
is_free_lem PageStatus.pg_invalid e = cc
is_free_lem PageStatus.pg_valid e = cc

-- The page `p` was free and got the logical page `l`, in a state that otherwise was `v`.
abbrev pub Installs : View → ℕ → View → Ppa → Type 0
Installs v l w p = (w ≡ installed v l p) × (l < v.sp.tt_pgs) × (v.get_pg p ≡ pg_free)

module _ (pq : PQueue) where
  -- The operation leaves the mapping as it is.
  abbrev pub Leaves : Ftl pq.Q → Ftl pq.Q → Type 0
  Leaves f g = view g ≡ view f

  pub set_wp-Leaves :
      (f : Ftl pq.Q) (io : IoType) (ruh : ℕ) (w : WritePointer) → Leaves f (set_wp f io ruh w)
  unfolding set_wp
  set_wp-Leaves f user_io ruh w = refl
  set_wp-Leaves f gc_io ruh w = refl

  pub Ensures-any : {A : Type 0} (m : Option A) → Ensures (λ _. Unit {0}) m
  Ensures-any none = stops
  Ensures-any (some a) = ends tt

  pub close_line-Leaves : (f : Ftl pq.Q) (i : ℕ) → Ensures (Leaves f) (close_line pq f i)
  unfolding close_line
  close_line-Leaves f i =
      Ensures-if ((f.lm.lines i).vpc == f.sp.pgs_per_line)
        (λ _. Ensures-assert ((f.lm.lines i).ipc == 0) (λ _. ends refl))
        (λ _.
          Ensures-assert (ltb (f.lm.lines i).vpc f.sp.pgs_per_line)
            (λ _. Ensures-assert (ltb 0 (f.lm.lines i).ipc) (λ _. ends refl)))

  pub get_next_free_line-Leaves :
      (f : Ftl pq.Q) → Ensures (λ r. Leaves f r.1) (get_next_free_line f)
  unfolding get_next_free_line
  get_next_free_line-Leaves f =
      elim f.lm.free_line_list
        as (λ l.
          Ensures (λ r. Leaves f r.1)
            (elim l [
              | [] ↦ none
              | i ∷ rest ↦ some (
                i,
                record f {
                  lm = record (f.lm) {
                    free_line_list = rest;
                    free_line_cnt = dec32 f.lm.free_line_cnt;
                  };
                },
              )
            ])) [ [] ↦ stops | i ∷ rest ↦ ends refl ]

  pub next_line-Leaves :
      (f : Ftl pq.Q) (io : IoType) (ruh : ℕ) (w : WritePointer)
      → Ensures (Leaves f) (next_line pq f io ruh w)
  unfolding next_line label_line
  next_line-Leaves f io ruh w = Ensures-bind (close_line-Leaves f w.curline) λ f1 e1.
      Ensures-assert (ltb w.blk f.sp.blks_per_pl) λ _.
        Ensures-bind (get_next_free_line-Leaves f1) λ r e2.
          Ensures-assert (ltb ((label_line r.1 r.0 io ruh).lm.lines r.0).id f.sp.blks_per_pl) λ _.
            Ensures-assert (w.pg == 0) λ _. Ensures-assert (w.lun == 0) λ _.
              Ensures-assert (w.ch == 0)
                λ _. Ensures-assert (w.pl == 0) λ _. ends (set_wp-Leaves _ io ruh _ ∙ e2 ∙ e1)

  pub advance_write_pointer-Leaves :
      (f : Ftl pq.Q) (io : IoType) (ruh : ℕ)
      → Ensures (Leaves f) (advance_write_pointer pq f io ruh)
  unfolding advance_write_pointer
  advance_write_pointer-Leaves f io ruh = Ensures-bind (Ensures-any (get_wp f io ruh)) λ w _.
      Ensures-bind (Ensures-any (advance_position f.sp w)) λ p _.
        elim p
          as (λ q. Ensures (Leaves f) (elim q [
            | Position.next_page w' ↦ some (set_wp f io ruh w')
            | Position.line_end w' ↦ next_line pq f io ruh w'
          ])) [
            | Position.next_page w' ↦ ends (set_wp-Leaves f io ruh w')
            | Position.line_end w' ↦ next_line-Leaves f io ruh w'
          ]

  -- The write pointers stay too.
  abbrev pub Keeps : View → Ftl pq.Q → Ftl pq.Q → Type 0
  Keeps v f g = (view g ≡ v) × (g.wp_ruh ≡ f.wp_ruh) × (g.gc_wp ≡ f.gc_wp)

  pub invalidate_media-get_pg :
      (sp : SsdParams) (m : Media) (p : Ppa)
      → Ensures (λ n. n.get_pg ≡ put_pg m.get_pg p pg_invalid) (invalidate_media sp m p)
  unfolding invalidate_media
  invalidate_media-get_pg sp m p = Ensures-assert (is_valid (m.get_pg p)) λ _.
      Ensures-assert (ltb (m.get_blk p).ipc sp.pgs_per_blk) λ _.
        Ensures-assert (ltb 0 (m.get_blk p).vpc && leb (m.get_blk p).vpc sp.pgs_per_blk)
          λ _. ends refl

  pub invalidate_line-Keeps :
      (f : Ftl pq.Q) (i : ℕ) → Ensures (Keeps (view f) f) (invalidate_line pq f i)
  unfolding invalidate_line
  invalidate_line-Keeps f i = Ensures-assert (ltb line.ipc f.sp.pgs_per_line) λ _.
      Ensures-assert (not (line.vpc == f.sp.pgs_per_line) || line.ipc == 0) λ _.
        Ensures-assert (ltb 0 line.vpc && leb line.vpc f.sp.pgs_per_line) λ _.
          ends
            (if-rule (Keeps (view f) f) (line.pos == 0) _ _ (refl, refl, refl) (refl, refl, refl))
    where
      line : Line
      line = f.lm.lines i

  pub mark_page_invalid-view :
      (f : Ftl pq.Q) (p : Ppa)
      → Ensures (Keeps (marked (view f) p pg_invalid) f) (mark_page_invalid pq f p)
  unfolding mark_page_invalid full_to_victim
  mark_page_invalid-view f p = Ensures-bind (invalidate_media-get_pg f.sp f.media p) λ m e1.
      Ensures-bind (invalidate_line-Keeps (record f { media = m }) p.blk) λ f' e2.
        let e = e2.0 ∙ ap (λ s. record (view f) { get_pg = s }) e1 in
        ends (
          if-rule (Keeps (marked (view f) p pg_invalid) f)
            ((f.lm.lines p.blk).vpc == f.sp.pgs_per_line) (full_to_victim pq f' p.blk) f'
            (e, e2.1, e2.2) (e, e2.1, e2.2))

  pub validate_media-get_pg :
      (sp : SsdParams) (m : Media) (p : Ppa)
      → Ensures
          (λ n. (n.get_pg ≡ put_pg m.get_pg p pg_valid) × (m.get_pg p ≡ pg_free))
          (validate_media sp m p)
  unfolding validate_media
  validate_media-get_pg sp m p =
      Ensures-assert (is_free (m.get_pg p))
        λ e. Ensures-assert (ltb (m.get_blk p).vpc sp.pgs_per_blk) λ _. ends (refl, is_free_lem _ e)

  pub mark_page_valid-view :
      (f : Ftl pq.Q) (p : Ppa)
      → Ensures
          (λ g. (view g ≡ marked (view f) p pg_valid) × (f.media.get_pg p ≡ pg_free))
          (mark_page_valid f p)
  unfolding mark_page_valid
  mark_page_valid-view f p = Ensures-bind (validate_media-get_pg f.sp f.media p) λ m e.
      Ensures-assert (ltb (f.lm.lines p.blk).vpc f.sp.pgs_per_line)
        λ _. ends (ap (λ s. record (view f) { get_pg = s }) e.0, e.1)

  pub set_maptbl_ent-view :
      (f : Ftl pq.Q) (l : ℕ) (p : Ppa)
      → Ensures (λ g. (view g ≡ entered (view f) l p) × (l < f.sp.tt_pgs)) (set_maptbl_ent f l p)
  unfolding set_maptbl_ent
  set_maptbl_ent-view f l p = Ensures-assert (ltb l f.sp.tt_pgs) λ e. ends (refl, ground arith)

  ppa2pgidx-pgidx : (sp : SsdParams) (p : Ppa) → Ensures (λ i. i ≡ pgidx sp p) (ppa2pgidx sp p)
  unfolding ppa2pgidx
  ppa2pgidx-pgidx sp p = Ensures-assert (ltb (pgidx sp p) sp.tt_pgs) λ _. ends refl

  pub set_rmap_ent-view :
      (f : Ftl pq.Q) (l : ℕ) (p : Ppa)
      → Ensures (Keeps (traced (view f) l p) f) (set_rmap_ent f l p)
  unfolding set_rmap_ent
  set_rmap_ent-view f l p = Ensures-bind (ppa2pgidx-pgidx f.sp p) λ i e.
      ends (ap (λ k. record (view f) { rmap = λ j. if k == j then l else f.rmap j }) e, refl, refl)

  pub get_rmap_ent-view :
      (f : Ftl pq.Q) (p : Ppa) → Ensures (λ l. l ≡ f.rmap (pgidx f.sp p)) (get_rmap_ent f p)
  unfolding get_rmap_ent
  get_rmap_ent-view f p = Ensures-bind (ppa2pgidx-pgidx f.sp p) λ i e. ends (ap f.rmap e)

  pub unmap_page-view :
      (f : Ftl pq.Q) (p : Ppa) → Ensures (Keeps (released (view f) p) f) (unmap_page pq f p)
  unfolding unmap_page
  unmap_page-view f p = elim (Bool-cases (mapped_ppa p)) [
    | inl m ↦ rw m (
        Ensures-bind (mark_page_invalid-view f p) λ g e1.
          Ensures-map (set_rmap_ent-view g invalid_lpn p)
            λ h e2. (e2.0 ∙ ap (λ v. traced v invalid_lpn p) e1.0, e2.1 ∙ e1.1, e2.2 ∙ e1.2))
    | inr m ↦ rw m (ends (refl, refl, refl))
  ]

  pub get_wp-pointer :
      (f : Ftl pq.Q) (io : IoType) (ruh : ℕ) → Ensures (λ w. w ≡ pointer f io ruh) (get_wp f io ruh)
  unfolding get_wp
  get_wp-pointer f user_io ruh = Ensures-assert (ltb ruh fdp_nr_ruh) λ _. ends refl
  get_wp-pointer f gc_io ruh = ends refl

  pub get_new_page-pointer :
      (f : Ftl pq.Q) (io : IoType) (ruh : ℕ)
      → Ensures (λ p. p ≡ page_at (pointer f io ruh)) (get_new_page f io ruh)
  unfolding get_new_page
  get_new_page-pointer f io ruh =
      Ensures-bind (get_wp-pointer f io ruh)
        λ w e. Ensures-assert (w.pl % 2 ^ 8 == 0) λ _. ends (ap page_at e)
