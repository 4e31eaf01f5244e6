-- ===== src/Kv/Iter.antt =====
-- kv_ftl.c: iterators over the keys of the mapping table: the handles, and the scan of `kv_iter_read`. Its
-- copy to the host is that of the other commands.
pub mod Scans
use Prim.Native.Nat.{bit_and}
use nvmevirt_fdp.Prelude.{
  ℕ, zero, suc, ◌+◌, ◌-◌, ◌*◌, ◌^◌, Bool, true, false, ◌&&◌, Option, none, some, List, [], ◌∷◌, ltb,
  ◌==◌, if◌then◌else◌,
}
use nvmevirt_fdp.Kv.Table.{Table, is_used}

-- `struct kv_iter_context`: the fields that are read.
pub record IterContext : Type 0 where
  pub prefix : ℕ
  pub bitmask : ℕ
  pub current_pos : ℕ

-- `iter_handle`: a handle that is not open is NULL.
abbrev pub Handles : Type 0
Handles = ℕ → Option IterContext

abbrev pub set_handle : Handles → ℕ → Option IterContext → Handles
set_handle hs iter h i = if iter == i then h else hs i

-- The loop of `kv_iter_open`: the first free handle from `iter` on.
unfoldable pub free_handle : ℕ → Handles → ℕ → Option ℕ
free_handle zero hs iter = none
free_handle (suc n) hs iter = elim (hs iter) [
  | none ↦ some iter
  | some h ↦ free_handle n hs (iter + 1)
]

-- `kv_iter_open`: the handle, or 1 if all are open, and the status if it is set.
unfoldable pub kv_iter_open : Handles → ℕ → ℕ → ℕ × Option ℕ × Handles
unfolding free_handle
kv_iter_open hs iter_bitmask iter_val = elim (free_handle 16 hs 1) [
  | none ↦ (1, none, hs)
  | some iter ↦ (
    iter,
    some 0,
    set_handle hs iter
        (some (record { prefix = iter_val; bitmask = iter_bitmask; current_pos = 0 })),
  )
]

-- `kv_iter_close`: the result, the status, and the handles.
unfoldable pub kv_iter_close : Handles → ℕ → ℕ × Option ℕ × Handles
kv_iter_close hs iter = (0, some 0, set_handle hs iter none)

-- The first four bytes of a key, as a number.
abbrev pub key_word : (ℕ → ℕ) → ℕ
key_word key = key 0 + key 1 * 2 ^ 8 + key 2 * 2 ^ 16 + key 3 * 2 ^ 24

-- Whether a slot holds a key that the iterator asks for.
unfoldable pub matches : Table → IterContext → ℕ → Bool
matches t h pos =
    is_used t pos && bit_and (key_word (t.slots pos).key) h.bitmask == bit_and h.prefix h.bitmask

-- What the loop leaves: the position, the bytes of the buffer, and the slots whose keys are in it.
pub record Scan : Type 0 where
  pub pos : ℕ
  pub buf_offset : ℕ
  pub found : List ℕ
  pub end : Bool

abbrev add_found : ℕ → Scan → Scan
add_found pos s = record s { found = pos ∷ s.found }

-- The loop; the fuel counts the slots that are left. A key takes 4 bytes for its length, and 16.
unfoldable pub iter_scan : ℕ → Table → IterContext → ℕ → ℕ → Scan
unfolding matches
iter_scan zero t h pos buf_offset = record {
  pos = pos;
  buf_offset = buf_offset;
  found = [];
  end = false;
}
iter_scan (suc n) t h pos buf_offset =
    let last = pos + 1 == t.hash_slots in
    let taken = iter_scan n t h (pos + 1) (buf_offset + 20) in
    let passed = iter_scan n t h (pos + 1) buf_offset in
    if matches t h pos
    then (if ltb 1024 (buf_offset + 20)
        then record { pos = pos; buf_offset = buf_offset; found = []; end = false }
        else add_found pos (
            if last
            then record { pos = pos + 1; buf_offset = buf_offset + 20; found = []; end = true }
            else taken))
    else if last
    then record { pos = pos + 1; buf_offset = buf_offset; found = []; end = true }
    else passed

-- `kv_iter_read` up to the copy: what is in the buffer, and the handles; none for a handle that is not open.
unfoldable pub kv_iter_scan : Table → Handles → ℕ → Option (Scan × Handles)
unfolding iter_scan
kv_iter_scan t hs iter = elim (hs iter) [
  | none ↦ none
  | some h ↦
      let s = iter_scan (t.hash_slots - h.current_pos) t h h.current_pos 4 in
      some (s, set_handle hs iter (some (record h { current_pos = s.pos })))
]
