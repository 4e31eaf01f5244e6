-- ===== src/Fdp/Remap/Cleaning.antt =====
-- fdp_ftl.c: what `clean_one_flashpg` does to the mapping: where the logical pages of the flash page go.
use nvmevirt_fdp.Prelude.{
  ℕ, ◌+◌, ◌<◌, ◌≡◌, ◌≢◌, ◌&&◌, true, false, not, refl, sym, ap, ◌∙◌, subst, arith, inl, inr,
  Bool-cases, ℕ_discrete, ◌==◌, for_range-Ensures, Ensures, ends, Ensures-bind, Ensures-map,
  Ensures-assert, Ensures-if, Ensures-both,
}
use nvmevirt_fdp.Ssd.Config.{SsdParams}
use nvmevirt_fdp.Ssd.Address.{Ppa, same_pg, mapped_ppa, word}
use nvmevirt_fdp.Ssd.Geometry.{IsGeometry, InDevice, pgidx}
use nvmevirt_fdp.Ssd.Geometry.Index.{pgidx-injective}
use nvmevirt_fdp.Ssd.Media.{is_free, is_valid}
use nvmevirt_fdp.Fdp.Lines.{PQueue}
use nvmevirt_fdp.Fdp.State.{Ftl, Dev, WritePointer}
use nvmevirt_fdp.Fdp.Gc.{page_after, gcw, count_valid, gc_write_page, move_valid, clean_one_flashpg}
use nvmevirt_fdp.Fdp.Remap.{pgidx-same, view, IsMapping}
use nvmevirt_fdp.Fdp.Remap.Stores.{page_at}
use nvmevirt_fdp.Fdp.Remap.Inverse.{Moved, move_page-Moved}
use nvmevirt_fdp.Fdp.Remap.GcPointer.{
  InLine, InLine-InDevice, AtPage, move_page-AtPage, gc_delay-ftl,
}

-- The page of a write pointer has no bit set among the reserved ones, so it is not UNMAPPED_PPA.
mapped_ppa-page_at : (w : WritePointer) → mapped_ppa (page_at w) ≡ true
unfolding mapped_ppa word
mapped_ppa-page_at w = ground arith

module _ (pq : PQueue) where
  -- The flash page is of the device, and the reverse map names a logical page for a page of it only
  -- if the entry of that logical page leads there.
  pub record IsOwned (f : Ftl pq.Q) (p : Ppa) (n : ℕ) : Type 0 where
    pub inside : (j : ℕ) → j < n → InDevice f.sp (page_after p j)
    pub owner :
        (j : ℕ)
        → j < n
        → f.rmap (pgidx f.sp (page_after p j)) < f.sp.tt_pgs
        → (mapped_ppa (f.maptbl (f.rmap (pgidx f.sp (page_after p j)))) ≡ true)
          × (same_pg (f.maptbl (f.rmap (pgidx f.sp (page_after p j)))) (page_after p j) ≡ true)

  -- The entry of the logical page leads to none of the pages.
  abbrev pub IsElsewhere : Ftl pq.Q → Ppa → ℕ → ℕ → Type 0
  IsElsewhere f p n l =
      (j : ℕ) → j < n → (mapped_ppa (f.maptbl l) && same_pg (f.maptbl l) (page_after p j)) ≡ false

  -- What moving one page leaves: the GC pointer, the tables, and nothing on the old page.
  record Cleared (f : Ftl pq.Q) (old : Ppa) (g : Ftl pq.Q) : Type 0 where
    at : AtPage pq g
    new : Ppa
    moved : Moved (view f) old (view g) new
    new_mapped : mapped_ppa new ≡ true
    new_inside : InDevice f.sp new

  gc_write_page-Cleared :
      (d : Dev pq.Q) (old : Ppa)
      → IsMapping (view d.ftl)
      → AtPage pq d.ftl
      → Ensures (λ d'. Cleared d.ftl old d'.ftl) (gc_write_page pq d old)
  unfolding gc_write_page
  gc_write_page-Cleared d old h k =
      Ensures-bind
        (Ensures-both (move_page-AtPage pq d.ftl old k)
          (move_page-Moved pq d.ftl old h (InLine-InDevice d.ftl.sp d.ftl.gc_wp k.0 k.1)))
        λ r e. Ensures-map (gc_delay-ftl pq _ (gcw r.1.sp r.0)) λ d' e'. rw e' (record {
          at = e.0;
          new = r.0;
          moved = e.1.1;
          new_mapped = rw e.1.0 (mapped_ppa-page_at d.ftl.gc_wp);
          new_inside =
              subst (InDevice d.ftl.sp) (sym e.1.0) (InLine-InDevice d.ftl.sp d.ftl.gc_wp k.0 k.1);
        })

  -- The loop, begun in `f0`, has cleaned the first `i` of the `n` pages from `p` on.
  pub record Cleaning (f0 : Ftl pq.Q) (p : Ppa) (n i : ℕ) (f : Ftl pq.Q) : Type 0 where
    pub mapping : IsMapping (view f)
    pub at : AtPage pq f
    pub written : (j : ℕ) → j < n → is_free (f.media.get_pg (page_after p j)) ≡ false
    pub gone :
        (j : ℕ)
        → j < i
        → (l : ℕ) → l < f.sp.tt_pgs
        → mapped_ppa (f.maptbl l) ≡ true
        → same_pg (f.maptbl l) (page_after p j) ≡ false
    pub same_sp : f.sp ≡ f0.sp
    pub same_back :
        (j : ℕ)
        → j < n
        → f.rmap (pgidx f0.sp (page_after p j)) ≡ f0.rmap (pgidx f0.sp (page_after p j))
    pub still_mapped :
        (l : ℕ)
        → l < f0.sp.tt_pgs
        → mapped_ppa (f0.maptbl l) ≡ true
        → mapped_ppa (f.maptbl l) ≡ true
    pub kept : (l : ℕ) → l < f0.sp.tt_pgs → IsElsewhere f0 p n l → f.maptbl l ≡ f0.maptbl l

  -- A page that is not valid holds nothing.
  gone-invalid :
      (f : Ftl pq.Q) (q : Ppa) (l : ℕ)
      → IsMapping (view f)
      → is_valid (f.media.get_pg q) ≡ false
      → l < f.sp.tt_pgs
      → mapped_ppa (f.maptbl l) ≡ true
      → same_pg (f.maptbl l) q ≡ false
  gone-invalid f q l h iv hl m =
      let hold = h.held l hl refl m in ground (arith, hold.valid, h.pages (f.maptbl l) q)

  -- After a page was moved, nothing is left on it or on a page that was written before.
  gone-moved :
      (f g : Ftl pq.Q) (old new q : Ppa) (l : ℕ)
      → IsMapping (view f)
      → Moved (view f) old (view g) new
      → is_free (f.media.get_pg q) ≡ false
      → (l ≢ f.rmap (pgidx f.sp old)
          → mapped_ppa (f.maptbl l) ≡ true
          → same_pg (f.maptbl l) q ≡ false)
      → mapped_ppa (g.maptbl l) ≡ true
      → same_pg (g.maptbl l) q ≡ false
  gone-moved f g old new q l h k wr rest m = elim (ℕ_discrete l (f.rmap (pgidx f.sp old))) [
    | yes e ↦
        let there : g.maptbl l ≡ new = ap g.maptbl e ∙ k.entry in
        rw there (ground (arith, k.was_free, h.pages new q))
    | no ne ↦ let same = k.others l ne in let m' = rw same at m in rw same (rest ne m')
  ]

  -- The page of another logical page is another page.
  gone-old :
      (f : Ftl pq.Q) (q : Ppa) (l : ℕ)
      → IsMapping (view f)
      → l < f.sp.tt_pgs
      → l ≢ f.rmap (pgidx f.sp q)
      → mapped_ppa (f.maptbl l) ≡ true
      → same_pg (f.maptbl l) q ≡ false
  gone-old f q l h hl ne m = elim (Bool-cases (same_pg (f.maptbl l) q)) [
    | inl e ↦
        absurd (ne (sym (h.held l hl refl m).back ∙ ap f.rmap (pgidx-same f.sp (f.maptbl l) q e)))
    | inr e ↦ e
  ]

  -- A logical page that lies elsewhere is not the one that is moved.
  elsewhere-ne :
      (f0 f : Ftl pq.Q) (p : Ppa) (n i l : ℕ)
      → IsOwned f0 p n
      → i < n
      → Cleaning f0 p n i f
      → l < f0.sp.tt_pgs
      → IsElsewhere f0 p n l
      → l ≢ f.rmap (pgidx f.sp (page_after p i))
  elsewhere-ne f0 f p n i l o hi h hl away e =
      let e0 : l ≡ f0.rmap (pgidx f0.sp (page_after p i)) =
        e ∙ ap (λ sp. f.rmap (pgidx sp (page_after p i))) h.same_sp ∙ h.same_back i hi in
      let own = o.owner i hi (subst (λ k. k < f0.sp.tt_pgs) e0 hl) in
      let a : (mapped_ppa (f0.maptbl (f0.rmap (pgidx f0.sp (page_after p i))))
            && same_pg (f0.maptbl (f0.rmap (pgidx f0.sp (page_after p i)))) (page_after p i))
          ≡ false =
        subst (λ k. (mapped_ppa (f0.maptbl k) && same_pg (f0.maptbl k) (page_after p i)) ≡ false) e0
          (away i hi) in
      ground (arith, own.0, own.1, a)

  -- The page that is written is none of the flash page, whose pages are not free.
  back-moved :
      (f0 f g : Ftl pq.Q) (p old new : Ppa) (n i j : ℕ)
      → IsOwned f0 p n
      → Cleaning f0 p n i f
      → Moved (view f) old (view g) new
      → InDevice f.sp new
      → j < n
      → g.rmap (pgidx f0.sp (page_after p j)) ≡ f.rmap (pgidx f0.sp (page_after p j))
  back-moved f0 f g p old new n i j o h k inside hj =
      k.others_back (pgidx f0.sp (page_after p j)) λ e.
        let one =
          pgidx-injective f0.sp (page_after p j) new (subst IsGeometry h.same_sp h.mapping.geometry)
            (o.inside j hj) (subst (λ sp. InDevice sp new) h.same_sp inside)
            (e ∙ ap (λ sp. pgidx sp new) h.same_sp) in
        let same = h.mapping.pages (page_after p j) new one in
        ground (arith, same, k.was_free, h.written j hj)

  still-moved :
      (f g : Ftl pq.Q) (old new : Ppa) (l : ℕ)
      → Moved (view f) old (view g) new
      → mapped_ppa new ≡ true
      → mapped_ppa (f.maptbl l) ≡ true
      → mapped_ppa (g.maptbl l) ≡ true
  still-moved f g old new l k m h = elim (ℕ_discrete l (f.rmap (pgidx f.sp old))) [
    | yes e ↦ subst (λ q. mapped_ppa q ≡ true) (sym (ap g.maptbl e ∙ k.entry)) m
    | no ne ↦ subst (λ q. mapped_ppa q ≡ true) (sym (k.others l ne)) h
  ]

  move_valid-Cleaning :
      (f0 : Ftl pq.Q) (p : Ppa) (n i : ℕ) (d : Dev pq.Q)
      → IsOwned f0 p n
      → i < n
      → Cleaning f0 p n i d.ftl
      → Ensures (λ d'. Cleaning f0 p n (i + 1) d'.ftl) (move_valid pq p i d)
  unfolding move_valid
  move_valid-Cleaning f0 p n i d o hi h =
      let q = page_after p i in
      Ensures-if (is_valid (d.ftl.media.get_pg q))
        (λ v. Ensures-map (gc_write_page-Cleared d q h.mapping h.at) λ d' c. record {
          mapping = c.moved.mapping;
          at = c.at;
          written = λ j hj. c.moved.none_freed (page_after p j) (h.written j hj);
          gone = λ j hj l hl m.
              gone-moved d.ftl d'.ftl q c.new (page_after p j) l h.mapping c.moved
                (h.written j (omega arith))
                (λ ne m'.
                  let hl' = subst (λ (s : SsdParams). l < s.tt_pgs) c.moved.same_sp hl in
                  elim (ℕ_discrete j i) [
                    | yes e ↦ rw e (gone-old d.ftl q l h.mapping hl' ne m')
                    | no nji ↦ h.gone j (omega arith) l hl' m'
                  ])
                m;
          same_sp = c.moved.same_sp ∙ h.same_sp;
          same_back = λ j hj.
              back-moved f0 d.ftl d'.ftl p q c.new n i j o h c.moved c.new_inside hj
              ∙ h.same_back j hj;
          still_mapped = λ l hl m.
              still-moved d.ftl d'.ftl q c.new l c.moved c.new_mapped (h.still_mapped l hl m);
          kept = λ l hl away.
              c.moved.others l (elsewhere-ne f0 d.ftl p n i l o hi h hl away) ∙ h.kept l hl away;
        })
        (λ v. ends (record {
          mapping = h.mapping;
          at = h.at;
          written = h.written;
          gone = λ j hj l hl m. elim (ℕ_discrete j i) [
            | yes e ↦ rw e (gone-invalid d.ftl q l h.mapping v hl m)
            | no ne ↦ h.gone j (omega arith) l hl m
          ];
          same_sp = h.same_sp;
          same_back = h.same_back;
          still_mapped = h.still_mapped;
          kept = h.kept;
        }))

  -- The first loop of `clean_one_flashpg`: no page is free, and if it counts 0 none is valid.
  abbrev Counted : Ftl pq.Q → Ppa → ℕ → ℕ → Type 0
  Counted f p i cnt =
      (j : ℕ)
      → j < i
      → (is_free (f.media.get_pg (page_after p j)) ≡ false)
        × (cnt ≡ 0 → is_valid (f.media.get_pg (page_after p j)) ≡ false)

  count_valid-Counted :
      (f : Ftl pq.Q) (p : Ppa) → Ensures (Counted f p f.sp.pgs_per_flashpg) (count_valid f p)
  unfolding count_valid
  count_valid-Counted f p =
      for_range-Ensures (Counted f p) _ f.sp.pgs_per_flashpg
        (λ i cnt hi h. Ensures-assert (not (is_free (f.media.get_pg (page_after p i)))) λ wr.
          ends λ j hj. elim (ℕ_discrete j i) [
            | yes e ↦ rw e (ground arith, λ z. ground arith)
            | no ne ↦ ((h j (omega arith)).0, λ z. (h j (omega arith)).1 (ground arith))
          ])
        f.sp.pgs_per_flashpg 0 0 (omega arith) (λ j hj. absurd (omega arith))

  -- Before the loop nothing has moved.
  start-Cleaning :
      (f : Ftl pq.Q) (p : Ppa) (n : ℕ)
      → IsMapping (view f)
      → InLine f.sp f.gc_wp
      → ((j : ℕ) → j < n → is_free (f.media.get_pg (page_after p j)) ≡ false)
      → Cleaning f p n 0 f
  start-Cleaning f p n h k c = record {
    mapping = h;
    at = (h.geometry, k);
    written = c;
    gone = λ j hj. absurd (omega arith);
    same_sp = refl;
    same_back = λ j hj. refl;
    still_mapped = λ l hl m. m;
    kept = λ l hl away. refl;
  }

  -- `clean_one_flashpg`, if the tables agree, the GC pointer is at a page of the device, and the flash
  -- page is of the device and the reverse map names a logical page for a page of it only if the entry
  -- of that one leads there: where no assertion stops it, the tables agree after (so a page that is
  -- mapped lies on a valid page of its own), the GC pointer is at a page of the device, no page of
  -- the flash page is free, and no entry leads to the flash page; every logical page that was mapped
  -- still is, every one whose entry did not lead to the flash page keeps its entry, and the
  -- geometry and the reverse map at the flash page stay.
  pub clean_one_flashpg-Cleaning :
      (d : Dev pq.Q) (p : Ppa)
      → IsMapping (view d.ftl)
      → InLine d.ftl.sp d.ftl.gc_wp
      → IsOwned d.ftl p d.ftl.sp.pgs_per_flashpg
      → Ensures
          (λ d'. Cleaning d.ftl p d.ftl.sp.pgs_per_flashpg d.ftl.sp.pgs_per_flashpg d'.ftl)
          (clean_one_flashpg pq d p)
  unfolding clean_one_flashpg
  clean_one_flashpg-Cleaning d p h k o =
      let n = d.ftl.sp.pgs_per_flashpg in
      Ensures-bind (count_valid-Counted d.ftl p) λ cnt c.
        let start = start-Cleaning d.ftl p n h k (λ j hj. (c j hj).0) in
        Ensures-if (cnt == 0)
          (λ z. ends (record {
            mapping = h;
            at = start.at;
            written = start.written;
            same_sp = refl;
            same_back = start.same_back;
            still_mapped = start.still_mapped;
            kept = start.kept;
            gone = λ j hj l hl m.
                gone-invalid d.ftl (page_after p j) l h ((c j hj).1 (ground arith)) hl m;
          }))
          (λ _. Ensures-bind (gc_delay-ftl pq d _) λ d1 e.
            for_range-Ensures (λ i (s : Dev pq.Q). Cleaning d.ftl p n i s.ftl) (move_valid pq p) n
              (λ i s hi v. move_valid-Cleaning d.ftl p n i s o hi v) n 0 d1 (omega arith)
              (rw e start))
