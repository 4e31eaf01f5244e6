-- ===== src/Kv/Iter/Scans.antt =====
-- kv_ftl.c: a scan beside a list of the table's slots.
use nvmevirt_fdp.Prelude.{
  ℕ, zero, suc, ◌+◌, ◌*◌, ◌≤◌, ◌<◌, ◌≡◌, ◌⊎◌, refl, ap, inl, inr, Bool, true, false, arith, List,
  [], ◌∷◌, length, ltb, ◌==◌, if◌then◌else◌, Bool-cases,
}
use nvmevirt_fdp.Kv.Table.{Table}
use nvmevirt_fdp.Kv.Iter.{IterContext, matches, Scan, iter_scan}

-- The slots, of `n` from `pos` on, whose keys are asked for.
unfoldable pub matching : Table → IterContext → ℕ → ℕ → List ℕ
unfolding matches
matching t h pos zero = []
matching t h pos (suc n) =
    if matches t h pos then pos ∷ matching t h (pos + 1) n else matching t h (pos + 1) n

-- What a scan from `pos` on leaves.
pub record Scanned (t : Table) (h : IterContext) (pos buf_offset : ℕ) (s : Scan) : Type 0 where
  pub count : ℕ
  pub position : s.pos ≡ pos + count
  pub found : s.found ≡ matching t h pos count
  pub bytes : s.buf_offset ≡ buf_offset + 20 * length s.found
  pub fits : s.buf_offset ≤ 1024
  pub stopped : (t.hash_slots ≤ s.pos) ⊎ ((matches t h s.pos ≡ true) × (1024 < s.buf_offset + 20))
  pub ended : s.end ≡ true → s.pos ≡ t.hash_slots

taken_lem :
    (t : Table) (h : IterContext) (pos buf_offset : ℕ) (s : Scan)
    → matches t h pos ≡ true
    → Scanned t h (pos + 1) (buf_offset + 20) s
    → Scanned t h pos buf_offset (record s { found = pos ∷ s.found })
unfolding matching
taken_lem t h pos buf_offset s m r = record {
  count = suc r.count;
  position = omega (arith, r.position);
  found = rw m (ap (λ xs. pos ∷ xs) r.found);
  bytes = omega (arith, r.bytes);
  fits = r.fits;
  stopped = r.stopped;
  ended = r.ended;
}

passed_lem :
    (t : Table) (h : IterContext) (pos buf_offset : ℕ) (s : Scan)
    → matches t h pos ≡ false
    → Scanned t h (pos + 1) buf_offset s
    → Scanned t h pos buf_offset s
unfolding matching
passed_lem t h pos buf_offset s m r = record {
  count = suc r.count;
  position = omega (arith, r.position);
  found = rw m r.found;
  bytes = r.bytes;
  fits = r.fits;
  stopped = r.stopped;
  ended = r.ended;
}

-- The scan that begins behind the last slot, or at a key for which there is no room.
ended_scan :
    (t : Table) (h : IterContext) (pos buf_offset : ℕ) (end : Bool)
    → pos ≡ t.hash_slots
    → buf_offset ≤ 1024
    → Scanned t h pos buf_offset
        (record { pos = pos; buf_offset = buf_offset; found = []; end = end })
unfolding matching
ended_scan t h pos buf_offset end e b = record {
  count = 0;
  position = omega arith;
  found = refl;
  bytes = omega arith;
  fits = b;
  stopped = inl (omega arith);
  ended = λ _. e;
}

full_scan :
    (t : Table) (h : IterContext) (pos buf_offset : ℕ)
    → matches t h pos ≡ true
    → 1024 < buf_offset + 20
    → buf_offset ≤ 1024
    → Scanned t h pos buf_offset
        (record { pos = pos; buf_offset = buf_offset; found = []; end = false })
unfolding matching
full_scan t h pos buf_offset m f b = record {
  count = 0;
  position = omega arith;
  found = refl;
  bytes = omega arith;
  fits = b;
  stopped = inr (m, f);
  ended = λ e. cc;
}

-- A scan from a slot of the table on finds the keys asked for of the slots that it passes, in their order
-- and all of them, at 20 bytes each and 1024 in all; it stops behind the last slot, or at a key for which
-- there is no room; and it reports the end only behind the last slot.
pub iter_scan-Scanned :
    (t : Table) (h : IterContext) (n pos buf_offset : ℕ)
    → pos + n ≡ t.hash_slots
    → buf_offset ≤ 1024
    → Scanned t h pos buf_offset (iter_scan n t h pos buf_offset)
unfolding iter_scan
iter_scan-Scanned t h zero pos buf_offset e b = ended_scan t h pos buf_offset false (omega arith) b
iter_scan-Scanned t h (suc n) pos buf_offset e b = elim (Bool-cases (matches t h pos)) [
  | inr m ↦ elim (Bool-cases (pos + 1 == t.hash_slots)) [
    | inl l ↦
        rw (iter_scan, m, l)
          (passed_lem t h pos buf_offset _ m
            (ended_scan t h (pos + 1) buf_offset true (ground arith) b))
    | inr l ↦
        rw (iter_scan, m, l)
          (passed_lem t h pos buf_offset _ m
            (iter_scan-Scanned t h n (pos + 1) buf_offset (omega arith) b))
  ]
  | inl m ↦ elim (Bool-cases (ltb 1024 (buf_offset + 20))) [
    | inl f ↦ rw (iter_scan, m, f) (full_scan t h pos buf_offset m (ground arith) b)
    | inr f ↦ elim (Bool-cases (pos + 1 == t.hash_slots)) [
      | inl l ↦
          rw (iter_scan, m, f, l)
            (taken_lem t h pos buf_offset _ m
              (ended_scan t h (pos + 1) (buf_offset + 20) true (ground arith) (ground arith)))
      | inr l ↦
          rw (iter_scan, m, f, l)
            (taken_lem t h pos buf_offset _ m
              (iter_scan-Scanned t h n (pos + 1) (buf_offset + 20) (omega arith) (ground arith)))
    ]
  ]
]
