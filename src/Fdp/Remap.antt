-- ===== src/Fdp/Remap.antt =====
-- fdp_ftl.c: the mapping table and the reverse map beside the status of the pages, and what giving a
-- logical page a new page does to them.
pub mod Stores
pub mod Rounds
pub mod Inverse
pub mod Within
pub mod GcPointer
pub mod Cleaning
use nvmevirt_fdp.Prelude.{
  ℕ, ◌+◌, ◌*◌, ◌^◌, ◌<◌, ◌≡◌, ◌≢◌, Bool, true, false, refl, sym, ap, subst, inl, inr, Bool-cases,
  ◌∙◌, arith, ◌==◌, ◌&&◌, not, if◌then◌else◌,
}
use nvmevirt_fdp.Ssd.Config.{SsdParams}
use nvmevirt_fdp.Ssd.Address.{Ppa, same_pg, same_blk, mapped_ppa, word, invalid_lpn}
use nvmevirt_fdp.Ssd.Geometry.{IsGeometry, InDevice, pgidx}
use nvmevirt_fdp.Ssd.Geometry.Index.{pgidx-injective}
use nvmevirt_fdp.Ssd.Media.{PageStatus, pg_free, pg_valid, pg_invalid}
use nvmevirt_fdp.Fdp.State.{Ftl}

-- What the mapping is made of.
pub record View : Type 0 where
  pub sp : SsdParams
  pub get_pg : Ppa → PageStatus
  pub maptbl : ℕ → Ppa
  pub rmap : ℕ → ℕ

abbrev pub view : {Q : Type 0} → Ftl Q → View
view f = record { sp = f.sp; get_pg = f.media.get_pg; maptbl = f.maptbl; rmap = f.rmap }

abbrev pub put_pg : (Ppa → PageStatus) → Ppa → PageStatus → Ppa → PageStatus
put_pg get p st q = if same_pg p q then st else get q

-- The page of a logical page that is mapped is given up.
abbrev pub released : View → Ppa → View
released v p =
    if mapped_ppa p
    then record v {
      get_pg = put_pg v.get_pg p pg_invalid;
      rmap = λ i. if pgidx v.sp p == i then invalid_lpn else v.rmap i;
    }
    else v

-- A logical page is written to a page.
abbrev pub installed : View → ℕ → Ppa → View
installed v l p = record v {
  get_pg = put_pg v.get_pg p pg_valid;
  maptbl = λ k. if l == k then p else v.maptbl k;
  rmap = λ i. if pgidx v.sp p == i then l else v.rmap i;
}

-- The page `p` holds the logical page `l`: it is valid, and the reverse map leads back.
pub record Holds (v : View) (l : ℕ) (p : Ppa) : Type 0 where
  pub inside : InDevice v.sp p
  pub valid : v.get_pg p ≡ pg_valid
  pub back : v.rmap (pgidx v.sp p) ≡ l

-- The status of a page is read from its channel, LUN, plane, block and page alone.
abbrev pub IsPageArray : (Ppa → PageStatus) → Type 0
IsPageArray get = (p q : Ppa) → same_pg p q ≡ true → get p ≡ get q

-- Every logical page with an entry, but those that are left out, is held by the page of its entry.
pub record IsMappingBut (out : ℕ → Bool) (v : View) : Type 0 where
  pub geometry : IsGeometry v.sp
  pub pages : IsPageArray v.get_pg
  pub held :
      (l : ℕ)
      → l < v.sp.tt_pgs
      → out l ≡ false
      → mapped_ppa (v.maptbl l) ≡ true
      → Holds v l (v.maptbl l)

abbrev pub IsMapping : View → Type 0
IsMapping v = IsMappingBut (λ _. false) v

put_pg-IsPageArray :
    (get : Ppa → PageStatus) (p : Ppa) (st : PageStatus)
    → IsPageArray get
    → IsPageArray (put_pg get p st)
put_pg-IsPageArray get p st k = λ q r e. ground (arith, k q r)

pub pgidx-same : (sp : SsdParams) (p q : Ppa) → same_pg p q ≡ true → pgidx sp p ≡ pgidx sp q
pgidx-same sp p q e = ground arith

-- A page holds one logical page at most.
Holds-one :
    (v : View) (k l : ℕ) (p q : Ppa) → Holds v k p → Holds v l q → same_pg p q ≡ true → k ≡ l
Holds-one v k l p q hk hl e = sym hk.back ∙ ap v.rmap (pgidx-same v.sp p q e) ∙ hl.back

-- Logical pages that are held keep their pages when another page is changed.
Holds-put :
    (v : View) (l n : ℕ) (p q : Ppa) (st : PageStatus) (m : ℕ → Ppa)
    → IsGeometry v.sp
    → Holds v l q
    → InDevice v.sp p
    → same_pg p q ≡ false
    → Holds
        (record v {
          get_pg = put_pg v.get_pg p st;
          maptbl = m;
          rmap = λ i. if pgidx v.sp p == i then n else v.rmap i;
        })
        l
        q
Holds-put v l n p q st m g h hp e = record {
  inside = h.inside;
  valid = ground (arith, h.valid);
  back = ground (arith, h.back, pgidx-injective v.sp p q g hp h.inside);
}

abbrev dropped : View → Ppa → View
dropped v p = record v {
  get_pg = put_pg v.get_pg p pg_invalid;
  rmap = λ i. if pgidx v.sp p == i then invalid_lpn else v.rmap i;
}

dropped-IsMappingBut :
    (v : View) (l : ℕ)
    → IsMapping v
    → Holds v l (v.maptbl l)
    → IsMappingBut (◌==◌ l) (dropped v (v.maptbl l))
dropped-IsMappingBut v l h hl = record {
  geometry = h.geometry;
  pages = put_pg-IsPageArray v.get_pg (v.maptbl l) pg_invalid h.pages;
  held = λ k hk out m.
      let hold = h.held k hk refl m in
      let ne : same_pg (v.maptbl l) (v.maptbl k) ≡ false =
        ground (arith, Holds-one v l k (v.maptbl l) (v.maptbl k) hl hold) in
      Holds-put v k invalid_lpn (v.maptbl l) (v.maptbl k) pg_invalid v.maptbl h.geometry hold
        hl.inside ne;
}

pub released-IsMappingBut :
    (v : View) (l : ℕ)
    → IsMapping v
    → l < v.sp.tt_pgs
    → IsMappingBut (◌==◌ l) (released v (v.maptbl l))
released-IsMappingBut v l h hl = elim (Bool-cases (mapped_ppa (v.maptbl l))) [
  | inl m ↦ rw m (dropped-IsMappingBut v l h (h.held l hl refl m))
  | inr m ↦
      rw m (record {
        geometry = h.geometry;
        pages = h.pages;
        held = λ k hk out m'. h.held k hk refl m';
      })
]

Holds-installed : (v : View) (l : ℕ) (p : Ppa) → InDevice v.sp p → Holds (installed v l p) l p
Holds-installed v l p hp = record { inside = hp; valid = ground arith; back = ground arith }

pub installed-IsMapping :
    (v : View) (l : ℕ) (p : Ppa)
    → IsMappingBut (◌==◌ l) v
    → InDevice v.sp p
    → v.get_pg p ≡ pg_free
    → IsMapping (installed v l p)
installed-IsMapping v l p h hp free = record {
  geometry = h.geometry;
  pages = put_pg-IsPageArray v.get_pg p pg_valid h.pages;
  held = λ k hk out m. elim (Bool-cases (l == k)) [
    | inl e ↦
        let same : l ≡ k = ground arith in
        rw e (subst (λ j. Holds (installed v l p) j p) same (Holds-installed v l p hp))
    | inr e ↦
        let m' = rw e at m in
        let hold = h.held k hk e m' in
        let ne : same_pg p (v.maptbl k) ≡ false =
          ground (arith, hold.valid, h.pages p (v.maptbl k)) in
        rw e
          (Holds-put v k l p (v.maptbl k) pg_valid (installed v l p).maptbl h.geometry hold hp ne)
  ];
}
