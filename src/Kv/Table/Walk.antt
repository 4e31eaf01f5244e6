-- ===== src/Kv/Table/Walk.antt =====
-- kv_ftl.c: what the walk along a chain finds when an entry is added to its end.
use nvmevirt_fdp.Prelude.{
  ℕ, suc, ◌-◌, ◌^◌, ◌<◌, ◌≡◌, ◌⊎◌, refl, sym, subst, ap, ◌∙◌, inl, inr, true, false, arith, ◌==◌,
  Bool-cases, some,
}
use nvmevirt_fdp.Kv.Table.{
  no_offset, no_slot, Entry, Table, set_entry, chain_mapping, is_used, same_bytes, find_slot,
  find_tail,
}

-- The slots are numbers of 32 bits, and links stay in the table.
pub record IsTable (t : Table) : Type 0 where
  pub some_slot : 0 < t.hash_slots
  pub slots_fit : t.hash_slots < 2 ^ 32 - 1
  pub links :
      (i : ℕ)
      → is_used t i ≡ true
      → ((t.slots i).next_slot ≡ no_slot) ⊎ ((t.slots i).next_slot < t.hash_slots)

pub find_slot_here :
    (fuel : ℕ) (t : Table) (key : ℕ → ℕ) (key_len slot : ℕ) (e : Entry)
    → t.slots slot ≡ e
    → (e.mem_offset == no_offset) ≡ false
    → same_bytes key e.key key_len ≡ true
    → find_slot (suc fuel) t key key_len slot ≡ some slot
unfolding find_slot
find_slot_here fuel t key key_len slot e s u m =
    let u' = subst (λ (x : Entry). (x.mem_offset == no_offset) ≡ false) (sym s) u in
    let m' = subst (λ (x : Entry). same_bytes key x.key key_len ≡ true) (sym s) m in
    rw (find_slot, u', m') refl

pub find_slot_next :
    (fuel : ℕ) (t : Table) (key : ℕ → ℕ) (key_len slot : ℕ) (e : Entry)
    → t.slots slot ≡ e
    → (e.mem_offset == no_offset) ≡ false
    → same_bytes key e.key key_len ≡ false
    → (e.next_slot == no_slot) ≡ false
    → find_slot (suc fuel) t key key_len slot ≡ find_slot fuel t key key_len e.next_slot
unfolding find_slot
find_slot_next fuel t key key_len slot e s u m n =
    let u' = subst (λ (x : Entry). (x.mem_offset == no_offset) ≡ false) (sym s) u in
    let m' = subst (λ (x : Entry). same_bytes key x.key key_len ≡ false) (sym s) m in
    let n' = subst (λ (x : Entry). (x.next_slot == no_slot) ≡ false) (sym s) n in
    rw (find_slot, u', m', n') (ap (λ (x : Entry). find_slot fuel t key key_len x.next_slot) s)

-- A table with an entry added behind `tail`.
abbrev pub added : Table → ℕ → ℕ → Entry → Table
added t tail slot e = chain_mapping (set_entry t slot e) tail slot

module _ (t : Table) (tail slot : ℕ) (e : Entry) (u : is_used t tail ≡ true)
    (n : is_used t slot ≡ false) where
  apart : (slot == tail) ≡ false
  apart = elim (Bool-cases (slot == tail)) [
    | inl x ↦ let same : slot ≡ tail = ground arith in absurd (cc (ap (is_used t) same, u, n))
    | inr x ↦ x
  ]

  added-tail : (added t tail slot e).slots tail ≡ record (t.slots tail) { next_slot = slot }
  added-tail = let same : (tail == tail) ≡ true = ground arith in rw (same, apart) refl

  pub added-slot : (added t tail slot e).slots slot ≡ e
  added-slot =
      let same : (slot == slot) ≡ true = ground arith in
      let other : (tail == slot) ≡ false = ground (arith, apart) in rw (other, same) refl

  added-other :
      (i : ℕ) → (tail == i) ≡ false → is_used t i ≡ true → (added t tail slot e).slots i ≡ t.slots i
  added-other i a v =
      let other : (slot == i) ≡ false = elim (Bool-cases (slot == i)) [
        | inl x ↦ let same : slot ≡ i = ground arith in absurd (cc (ap (is_used t) same, v, n))
        | inr x ↦ x
      ] in
      rw (a, other) refl

pub used_offset :
    (t : Table) (slot : ℕ)
    → is_used t slot ≡ true
    → ((t.slots slot).mem_offset == no_offset) ≡ false
used_offset t slot u = ground arith

-- A slot in the table is not -1.
pub in_table : (t : Table) (slot : ℕ) → IsTable t → slot < t.hash_slots → (slot == no_slot) ≡ false
in_table t slot v h = ground (arith, v.slots_fit)

-- The end of the chain from `slot`, where the key was not found, and the walk once an entry is added there.
pub record Chain (fuel : ℕ) (t : Table) (key : ℕ → ℕ) (key_len slot : ℕ) : Type 0 where
  pub tail : ℕ
  pub tail_used : is_used t tail ≡ true
  pub tail_in : tail < t.hash_slots
  pub ends : (prevs : ℕ) → find_tail (suc fuel) t slot prevs ≡ some tail
  pub finds :
      (new : ℕ) (e : Entry)
      → is_used t new ≡ false
      → new < t.hash_slots
      → (e.mem_offset == no_offset) ≡ false
      → same_bytes key e.key key_len ≡ true
      → find_slot (suc fuel) (added t tail new e) key key_len slot ≡ some new

-- From the last entry of a chain, the walk goes to the new one.
finds_next :
    (fuel : ℕ) (t : Table) (key : ℕ → ℕ) (key_len tail new : ℕ) (e : Entry)
    → IsTable t
    → is_used t tail ≡ true
    → same_bytes key (t.slots tail).key key_len ≡ false
    → is_used t new ≡ false
    → new < t.hash_slots
    → (e.mem_offset == no_offset) ≡ false
    → same_bytes key e.key key_len ≡ true
    → find_slot (suc (suc fuel)) (added t tail new e) key key_len tail ≡ some new
finds_next fuel t key key_len tail new e v u m n h o k =
    find_slot_next (suc fuel) (added t tail new e) key key_len tail
      (record (t.slots tail) { next_slot = new }) (added-tail t tail new e u n)
      (used_offset t tail u) m (in_table t new v h)
    ∙ find_slot_here fuel (added t tail new e) key key_len new e (added-slot t tail new e u n) o k

-- The chain ends at `slot`.
pub ends_here :
    (fuel : ℕ) (t : Table) (key : ℕ → ℕ) (key_len slot : ℕ)
    → IsTable t
    → is_used t slot ≡ true
    → slot < t.hash_slots
    → same_bytes key (t.slots slot).key key_len ≡ false
    → ((prevs : ℕ) → find_tail (suc (suc fuel)) t slot prevs ≡ some slot)
    → Chain (suc fuel) t key key_len slot
ends_here fuel t key key_len slot v u h m e = record {
  tail = slot;
  tail_used = u;
  tail_in = h;
  ends = e;
  finds = λ new x n i o k. finds_next fuel t key key_len slot new x v u m n i o k;
}

-- The chain goes on.
pub goes_on :
    (fuel : ℕ) (t : Table) (key : ℕ → ℕ) (key_len slot : ℕ)
    → IsTable t
    → is_used t slot ≡ true
    → same_bytes key (t.slots slot).key key_len ≡ false
    → ((t.slots slot).next_slot == no_slot) ≡ false
    → Chain fuel t key key_len (t.slots slot).next_slot
    → Chain (suc fuel) t key key_len slot
unfolding find_tail
goes_on fuel t key key_len slot v u m n c = record {
  tail = c.tail;
  tail_used = c.tail_used;
  tail_in = c.tail_in;
  ends = λ prevs. rw (find_tail, used_offset t slot u, n) (c.ends slot);
  finds = λ new x f i o k. elim (Bool-cases (c.tail == slot)) [
    | inl y ↦
        let same : c.tail ≡ slot = ground arith in
        subst (λ w. find_slot (suc (suc fuel)) (added t w new x) key key_len slot ≡ some new)
          (sym same) (finds_next fuel t key key_len slot new x v u m f i o k)
    | inr y ↦
        find_slot_next (suc fuel) (added t c.tail new x) key key_len slot (t.slots slot)
          (added-other t c.tail new x c.tail_used f slot y u) (used_offset t slot u) m n
        ∙ c.finds new x f i o k
  ];
}
