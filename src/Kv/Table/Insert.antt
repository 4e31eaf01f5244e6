-- ===== src/Kv/Table/Insert.antt =====
-- kv_ftl.c: lookups after an entry was added.
use nvmevirt_fdp.Prelude.{
  ℕ, zero, suc, ◌+◌, ◌-◌, ◌^◌, ◌≤◌, ◌<◌, ◌≡◌, ◌≢◌, ◌⊎◌, refl, sym, subst, ap, ◌∙◌, inl, inr, true,
  false, arith, dec_lt, ltb, leb, ◌==◌, Bool-cases, if◌then◌else◌, some, Returns, returns,
  Returns-bind, Returns-assert,
}
use nvmevirt_fdp.Ssd.Config.{u32}
use nvmevirt_fdp.Kv.Table.{
  no_offset, no_slot, Entry, Table, set_entry, is_used, same_bytes, find_slot, find_tail, find_free,
  get_hash_slot, find_key, get_mapping_entry, new_mapping_entry, written_entry, find_next_slot,
}
use nvmevirt_fdp.Kv.Table.Walk.{
  IsTable, added-slot, find_slot_here, find_slot_next, used_offset, in_table, added, Chain,
  ends_here, goes_on,
}

some_eq : (a b : ℕ) → some a ≡ some b → a ≡ b
some_eq a b e = cc

-- A walk of a used slot that did not find the key.
walked :
    (fuel : ℕ) (t : Table) (key : ℕ → ℕ) (key_len slot : ℕ)
    → IsTable t
    → is_used t slot ≡ true
    → slot < t.hash_slots
    → find_slot fuel t key key_len slot ≡ some no_slot
    → Chain fuel t key key_len slot
unfolding find_slot find_tail
walked zero t key key_len slot v u h e = cc
walked (suc fuel) t key key_len slot v u h e =
    let used = used_offset t slot u in
    elim (Bool-cases (same_bytes key (t.slots slot).key key_len)) [
      | inl m ↦
          let here = find_slot_here fuel t key key_len slot (t.slots slot) refl used m in
          let same = some_eq slot no_slot (sym here ∙ e) in absurd (ground (arith, v.slots_fit))
      | inr m ↦ elim (Bool-cases ((t.slots slot).next_slot == no_slot)) [
        | inl n ↦ ends_here fuel t key key_len slot v u h m (λ prevs. rw (find_tail, used, n) refl)
        | inr n ↦ elim (Bool-cases (is_used t (t.slots slot).next_slot)) [
          | inl w ↦ goes_on fuel t key key_len slot v u m n (
              walked fuel t key key_len (t.slots slot).next_slot v w (link t slot v u n)
                (sym (find_slot_next fuel t key key_len slot (t.slots slot) refl used m n) ∙ e))
          | inr w ↦
              let free : ((t.slots (t.slots slot).next_slot).mem_offset == no_offset) ≡ true =
                ground arith in
              ends_here fuel t key key_len slot v u h m
                (λ prevs. rw (find_tail, used, n, free) refl)
        ]
      ]
    ]
  where
    link :
        (t : Table) (slot : ℕ)
        → IsTable t
        → is_used t slot ≡ true
        → ((t.slots slot).next_slot == no_slot) ≡ false
        → (t.slots slot).next_slot < t.hash_slots
    link t slot v u n = elim (v.links slot u) [ inl x ↦ absurd (ground arith) | inr x ↦ x ]

-- The distance to a free slot, going round the table.
abbrev IsNear : ℕ → ℕ → ℕ → ℕ → Type 0
IsNear slots slot free fuel =
    ((slot ≤ free) × (free - slot < fuel)) ⊎ ((free < slot) × (slots - slot + free < fuel))

abbrev pub IsFree : Table → ℕ → Type 0
IsFree t r = (is_used t r ≡ false) × (r < t.hash_slots)

next_in :
    (slots slot next : ℕ)
    → next ≡ slot + 1
    → 0 < slots
    → slot < slots
    → (if leb slots next then 0 else next) < slots
next_in slots slot next e p h = ground arith

nearer :
    (slots slot free next fuel : ℕ)
    → next ≡ slot + 1
    → slot < slots
    → free < slots
    → slot ≢ free
    → IsNear slots slot free (suc fuel)
    → IsNear slots (if leb slots next then 0 else next) free fuel
nearer slots slot free next fuel e h f o (inl n) =
    let on : leb slots next ≡ false = ground arith in rw on (inl (omega arith))
nearer slots slot free next fuel e h f o (inr n) = elim (Bool-cases (leb slots next)) [
  | inl x ↦ let last : next ≡ slots = ground arith in rw x (inl (omega arith))
  | inr x ↦ rw x (inr (omega arith))
]

find_free-IsFree :
    (t : Table) (free : ℕ)
    → IsTable t
    → IsFree t free
    → (fuel slot : ℕ) → slot < t.hash_slots
    → IsNear t.hash_slots slot free fuel
    → Returns (IsFree t) (find_free fuel t slot)
unfolding find_free
find_free-IsFree t free v f zero slot h n = absurd (omega arith)
find_free-IsFree t free v f (suc fuel) slot h n = elim (Bool-cases (is_used t slot)) [
  | inr u ↦
      let open_slot : ((t.slots slot).mem_offset == no_offset) ≡ true = ground arith in
      rw (find_free, open_slot) (returns (u, h))
  | inl u ↦
      let used = used_offset t slot u in
      let other : slot ≢ free = λ x. cc (ap (is_used t) x, u, f.0) in
      let next = u32 (slot + 1) in
      let same : next ≡ slot + 1 = omega (arith, v.slots_fit) in
      rw (find_free, used)
        (find_free-IsFree t free v f fuel (if leb t.hash_slots next then 0 else next)
          (next_in t.hash_slots slot next same v.some_slot h)
          (nearer t.hash_slots slot free next fuel same h f.1 other n))
]

same_bytes-prefix :
    (a old : ℕ → ℕ) (len n : ℕ)
    → n ≤ len
    → same_bytes a (λ i. if ltb i len then a i else old i) n ≡ true
unfolding same_bytes
same_bytes-prefix a old len zero h = refl
same_bytes-prefix a old len (suc n) h =
    let inside : ltb n len ≡ true = ground arith in
    let same : (a n == a n) ≡ true = ground arith in
    rw (same_bytes-prefix a old len n (omega arith), inside, same) refl

-- The entry that is found.
abbrev pub Finds : ℕ → ℕ → Entry → Type 0
Finds value_len val_offset e = (e.mem_offset ≡ val_offset) × (e.len ≡ value_len)

gets :
    (t : Table) (key : ℕ → ℕ) (key_len slot : ℕ) (e : Entry)
    → leb key_len 18 ≡ true
    → find_slot (t.hash_slots + 1) t key key_len (get_hash_slot t key key_len) ≡ some slot
    → (slot == no_slot) ≡ false
    → t.slots slot ≡ e
    → Returns (Finds e.len e.mem_offset) (get_mapping_entry t key key_len)
unfolding get_mapping_entry find_key
gets t key key_len slot e l f n s =
    rw (l, f, n) (returns (ap (λ (x : Entry). x.mem_offset) s, ap (λ (x : Entry). x.len) s))

one_more : (n : ℕ) → suc n ≡ n + 1
one_more n = omega arith

-- The entry that is written matches its key and is used.
written_lem :
    (old : Entry) (key : ℕ → ℕ) (key_len value_len val_offset storage_size : ℕ)
    → val_offset < storage_size
    → storage_size < 2 ^ 64
    → ((written_entry old key key_len value_len val_offset).mem_offset == no_offset) ≡ false
      × (same_bytes key (written_entry old key key_len value_len val_offset).key key_len ≡ true)
written_lem old key key_len value_len val_offset storage_size h s =
    (ground arith, same_bytes-prefix key old.key key_len key_len (omega arith))

hash_in :
    (t : Table) (key : ℕ → ℕ) (key_len : ℕ) → IsTable t → get_hash_slot t key key_len < t.hash_slots
unfolding get_hash_slot
hash_in t key key_len v = omega (arith, v.some_slot)

round_trip :
    (slots slot free : ℕ) → slot < slots → free < slots → IsNear slots slot free (slots + 1)
round_trip slots slot free h f = elim (dec_lt free slot) [
  | yes x ↦ inr (x, omega arith)
  | no x ↦ inl (omega arith, omega arith)
]

-- The search for a slot, for a key whose hash is taken.
next_slot_found :
    (t : Table) (hash free tail : ℕ)
    → IsTable t
    → IsFree t free
    → tail < t.hash_slots
    → find_tail (t.hash_slots + 1) t hash no_slot ≡ some tail
    → Returns (λ r. IsFree t r.0 × (r.1 ≡ tail)) (find_next_slot t hash)
unfolding find_next_slot
next_slot_found t hash free tail v f h e = rw e (
    Returns-bind
      (find_free-IsFree t free v f (t.hash_slots + 1) tail h
        (round_trip t.hash_slots tail free h f.1))
      λ r i. returns (i, refl))

-- In a table with a free slot, whose links stay in it, an entry for a key of 18 bytes at most that is not
-- in its chain is added, and a lookup of the key then finds its offset and its length.
pub new_mapping_entry-Finds :
    (t : Table) (storage_size : ℕ) (key : ℕ → ℕ) (key_len value_len val_offset free : ℕ)
    → IsTable t
    → val_offset < storage_size
    → storage_size < 2 ^ 64
    → key_len ≤ 18
    → IsFree t free
    → find_slot t.hash_slots t key key_len (get_hash_slot t key key_len) ≡ some no_slot
    → Returns
        (λ t'. Returns (Finds value_len val_offset) (get_mapping_entry t' key key_len))
        (new_mapping_entry t storage_size key key_len value_len val_offset)
unfolding new_mapping_entry get_hash_slot
new_mapping_entry-Finds t storage_size key key_len value_len val_offset free v o s k f a =
    let hash = get_hash_slot t key key_len in
    let h = hash_in t key key_len v in
    let fits : leb key_len 18 ≡ true = ground arith in
    Returns-assert {b = ltb val_offset storage_size} (ground arith) (
      Returns-assert {b = leb key_len 18} fits (elim (Bool-cases (is_used t hash)) [
        | inr u ↦
            let same : (hash == hash) ≡ true = ground arith in
            let w = written_lem (t.slots hash) key key_len value_len val_offset storage_size o s in
            let e = written_entry (t.slots hash) key key_len value_len val_offset in
            let t' = set_entry t hash e in
            let at : t'.slots hash ≡ e = rw same refl in
            rw u (
              returns (
                gets t' key key_len hash e fits
                  (subst (λ n. find_slot n t' key key_len hash ≡ some hash) (one_more t.hash_slots)
                    (find_slot_here t.hash_slots t' key key_len hash e at w.0 w.1))
                  (in_table t hash v h) at))
        | inl u ↦
            let c = walked t.hash_slots t key key_len hash v u h a in
            let ends =
              subst (λ n. find_tail n t hash no_slot ≡ some c.tail) (one_more t.hash_slots)
                (c.ends no_slot) in
            rw u (
              Returns-bind (next_slot_found t hash free c.tail v f c.tail_in ends) λ r i.
                let w =
                  written_lem (t.slots r.0) key key_len value_len val_offset storage_size o s in
                let e = written_entry (t.slots r.0) key key_len value_len val_offset in
                let linked : (r.1 == no_slot) ≡ false =
                  subst (λ p. (p == no_slot) ≡ false) (sym i.1) (in_table t c.tail v c.tail_in) in
                rw linked (
                  returns (
                    subst
                      (λ p.
                        Returns (Finds value_len val_offset)
                          (get_mapping_entry (added t p r.0 e) key key_len))
                      (sym i.1)
                      (gets (added t c.tail r.0 e) key key_len r.0 e fits
                        (subst (λ n. find_slot n (added t c.tail r.0 e) key key_len hash ≡ some r.0)
                          (one_more t.hash_slots) (c.finds r.0 e i.0.0 i.0.1 w.0 w.1))
                        (in_table t r.0 v i.0.1) (added-slot t c.tail r.0 e c.tail_used i.0.0)))))
      ]))
