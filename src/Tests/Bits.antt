-- ===== src/Tests/Bits.antt =====
-- The bitmap allocator on bitmaps that are functions, searched from bit to bit.
use nvmevirt_fdp.Prelude.{
  ℕ, zero, suc, ◌+◌, ◌-◌, ◌<◌, ◌≡◌, refl, Bool, true, false, arith, ◌==◌, if◌then◌else◌, Bool-cases,
  inl, inr,
}
use nvmevirt_fdp.Kv.Bitmap.{KernelBitmap, Bitmaps, bitmap_allocator_init, bitmap_allocate}
use nvmevirt_fdp.Kv.Bitmap.Fresh.{IsBitmap, Fresh, bitmap_allocate-Fresh}

search : ℕ → (ℕ → Bool) → ℕ → ℕ
search zero m s = s
search (suc n) m s = elim (m s) [ true ↦ search n m (s + 1) | false ↦ s ]

search_clear : (n : ℕ) (m : ℕ → Bool) (s : ℕ) → search n m s < s + n → m (search n m s) ≡ false
unfolding search
search_clear zero m s h = absurd (omega arith)
search_clear (suc n) m s h = elim (Bool-cases (m s)) [
  | inr e ↦ rw (search, e) e
  | inl e ↦
      let step : search (suc n) m s ≡ search n m (s + 1) = rw (search, e) refl in
      rw (search, e) (search_clear n m (s + 1) (omega (arith, h, step)))
]

abbrev bits : KernelBitmap
bits = record {
  M = ℕ → Bool;
  bitmap_zero = λ i. false;
  bitmap_set = λ m i j. if i == j then true else m j;
  find_next_zero = λ m size start. search (size - start) m start;
  test_bit = λ m i. m i;
}

set_keeps : (m : ℕ → Bool) (i j : ℕ) → m j ≡ true → (if i == j then true else m j) ≡ true
set_keeps m i j h = elim (Bool-cases (i == j)) [ inl e ↦ rw e refl | inr e ↦ rw e h ]

bits-IsBitmap : IsBitmap bits
bits-IsBitmap = record {
  set_same = λ m i. let same : (i == i) ≡ true = ground arith in rw same refl;
  set_keeps = set_keeps;
  find_clear = λ m size start h. search_clear (size - start) m start (omega (arith, h));
}

-- A device of 64 KB: 32 small bits and 8 large ones, of which the first is given.
abbrev used : Bitmaps bits
unfolding bitmap_allocator_init bitmap_allocate search
used = (bitmap_allocate bits 3000 (bitmap_allocator_init bits 65536)).1

bitmap_allocate-Fresh_example : Fresh bits used 2000 (bitmap_allocate bits 2000 used)
unfolding used bitmap_allocator_init bitmap_allocate search
bitmap_allocate-Fresh_example =
    bitmap_allocate-Fresh bits bits-IsBitmap used 2000 (omega arith) (omega arith)
