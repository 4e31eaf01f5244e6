-- ===== src/Kv/Bitmap/Fresh.antt =====
-- bitmap.c: an allocation beside the pieces that were given before.
use nvmevirt_fdp.Prelude.{
  ℕ, ◌+◌, ◌*◌, ◌/◌, ◌^◌, ◌≤◌, ◌<◌, ◌≡◌, ◌≢◌, ◌⊎◌, inl, inr, subst, ap, true, false, arith, ltb,
  if◌then◌else◌, Bool-cases,
}
use nvmevirt_fdp.Ssd.Config.{u64}
use nvmevirt_fdp.Kv.Io.{small_length}
use nvmevirt_fdp.Kv.Bitmap.{
  KernelBitmap, large_length, Bitmaps, bitmap_allocate, small_off, large_off, last_pos,
}

-- Setting a bit sets it and clears none; a position that is found in the map is of a clear bit.
pub record IsBitmap (k : KernelBitmap) : Type 0 where
  pub set_same : (m : k.M) (i : ℕ) → k.test_bit (k.bitmap_set m i) i ≡ true
  pub set_keeps :
      (m : k.M) (i j : ℕ) → k.test_bit m j ≡ true → k.test_bit (k.bitmap_set m i) j ≡ true
  pub find_clear :
      (m : k.M) (size start : ℕ)
      → k.find_next_zero m size start < size
      → k.test_bit m (k.find_next_zero m size start) ≡ false

module _ (k : KernelBitmap) where
  -- The memory of a bit that is set: its offset and its size.
  pub data Given (b : Bitmaps k) : ℕ → ℕ → Type 0 where
    small :
        (i : ℕ)
        → i < b.small_nbits
        → k.test_bit b.small_bitmap i ≡ true
        → Given b (i * small_length) small_length
    large :
        (i : ℕ)
        → i < b.large_nbits
        → k.test_bit b.large_bitmap i ≡ true
        → Given b (b.dev_size / 2 + i * large_length) large_length

  -- The sizes of the maps, of a device whose offsets are of 64 bits.
  pub record IsSized (b : Bitmaps k) : Type 0 where
    pub small_fit : b.small_nbits ≡ b.dev_size / 2 / small_length
    pub large_fit : b.large_nbits ≡ b.dev_size / 2 / large_length
    pub dev_fits : b.dev_size < 2 ^ 64

  -- Whether an allocation finds a bit.
  abbrev pub HasBit : ℕ → Bitmaps k → Type 0
  HasBit length b =
      if ltb small_length length
      then large_off k b < b.large_nbits
      else small_off k b < b.small_nbits

  -- The size of the piece that an allocation gets.
  abbrev pub piece_size : ℕ → ℕ
  piece_size length = if ltb small_length length then large_length else small_length

  -- What an allocation gets lies apart from all that was given, and is given with it.
  pub record Fresh (b : Bitmaps k) (length : ℕ) (r : ℕ × Bitmaps k) : Type 0 where
    pub given : Given r.1 r.0 (piece_size length)
    pub apart : (o s : ℕ) → Given b o s → (o + s ≤ r.0) ⊎ (r.0 + piece_size length ≤ o)
    pub kept : (o s : ℕ) → Given b o s → Given r.1 o s
    pub in_device : r.0 + piece_size length ≤ b.dev_size

  module _ (laws : IsBitmap k) where
    small_apart :
        (b : Bitmaps k) (i : ℕ)
        → IsSized b
        → i < b.small_nbits
        → k.test_bit b.small_bitmap i ≡ false
        → (o s : ℕ) → Given b o s
        → (o + s ≤ i * small_length) ⊎ (i * small_length + small_length ≤ o)
    small_apart b i z h c o s (small j l t) =
        let other : j ≢ i = λ e. cc (ap (k.test_bit b.small_bitmap) e, t, c) in ground arith
    small_apart b i z h c o s (large j l t) = inr (omega (arith, z.small_fit))

    large_apart :
        (b : Bitmaps k) (i : ℕ)
        → IsSized b
        → i < b.large_nbits
        → k.test_bit b.large_bitmap i ≡ false
        → (o s : ℕ) → Given b o s
        → (o + s ≤ b.dev_size / 2 + i * large_length)
          ⊎ (b.dev_size / 2 + i * large_length + large_length ≤ o)
    large_apart b i z h c o s (large j l t) =
        let other : j ≢ i = λ e. cc (ap (k.test_bit b.large_bitmap) e, t, c) in ground arith
    large_apart b i z h c o s (small j l t) = inl (omega (arith, z.small_fit))

    abbrev take_large : ℕ → Bitmaps k → Bitmaps k
    take_large length b = record b {
      large_bitmap = k.bitmap_set b.large_bitmap (large_off k b);
      large_last_pos = last_pos k b.large_nbits (large_off k b);
      large_capacity = b.large_capacity + 1;
      total_written = u64 (b.total_written + length);
    }

    kept_large :
        (length : ℕ) (b : Bitmaps k) (o s : ℕ) → Given b o s → Given (take_large length b) o s
    kept_large length b o s (small j l t) = small j l t
    kept_large length b o s (large j l t) = large j l (laws.set_keeps b.large_bitmap _ j t)

    large-Fresh :
        (b : Bitmaps k) (length : ℕ)
        → IsSized b
        → ltb small_length length ≡ true
        → large_off k b < b.large_nbits
        → Fresh b length (u64 (b.dev_size / 2 + large_off k b * large_length), take_large length b)
    large-Fresh b length z e h =
        let same : u64 (b.dev_size / 2 + large_off k b * large_length)
            ≡ b.dev_size / 2 + large_off k b * large_length =
          omega (arith, z.large_fit, z.dev_fits) in
        record {
          given =
              rw (same, e) (large (large_off k b) h (laws.set_same b.large_bitmap (large_off k b)));
          apart = λ o s g.
              rw (same, e)
                (large_apart b (large_off k b) z h
                  (laws.find_clear b.large_bitmap b.large_nbits b.large_last_pos h) o s g);
          kept = λ o s g. kept_large length b o s g;
          in_device = rw (same, e) (omega (arith, z.large_fit));
        }

    abbrev take_small : ℕ → Bitmaps k → Bitmaps k
    take_small length b = record b {
      small_bitmap = k.bitmap_set b.small_bitmap (small_off k b);
      small_last_pos = last_pos k b.small_nbits (small_off k b);
      small_capacity = b.small_capacity + 1;
      total_written = u64 (b.total_written + length);
    }

    kept_small :
        (length : ℕ) (b : Bitmaps k) (o s : ℕ) → Given b o s → Given (take_small length b) o s
    kept_small length b o s (small j l t) = small j l (laws.set_keeps b.small_bitmap _ j t)
    kept_small length b o s (large j l t) = large j l t

    small-Fresh :
        (b : Bitmaps k) (length : ℕ)
        → IsSized b
        → ltb small_length length ≡ false
        → small_off k b < b.small_nbits
        → Fresh b length (u64 (small_off k b * small_length), take_small length b)
    small-Fresh b length z e h =
        let same : u64 (small_off k b * small_length) ≡ small_off k b * small_length =
          omega (arith, z.small_fit, z.dev_fits) in
        record {
          given =
              rw (same, e) (small (small_off k b) h (laws.set_same b.small_bitmap (small_off k b)));
          apart = λ o s g.
              rw (same, e)
                (small_apart b (small_off k b) z h
                  (laws.find_clear b.small_bitmap b.small_nbits b.small_last_pos h) o s g);
          kept = λ o s g. kept_small length b o s g;
          in_device = rw (same, e) (omega (arith, z.small_fit));
        }

    -- An allocation of a piece that finds a bit in its map gets memory of the device that no piece given before
    -- overlaps; the pieces given before stay given, and the new one is one of them.
    pub bitmap_allocate-Fresh :
        (b : Bitmaps k) (length : ℕ)
        → IsSized b
        → HasBit length b
        → Fresh b length (bitmap_allocate k length b)
    unfolding bitmap_allocate
    bitmap_allocate-Fresh b length z h = elim (Bool-cases (ltb small_length length)) [
      | inl e ↦ rw e (
          large-Fresh b length z e (
            subst (λ c. if c then large_off k b < b.large_nbits else small_off k b < b.small_nbits)
              e h))
      | inr e ↦ rw e (
          small-Fresh b length z e (
            subst (λ c. if c then large_off k b < b.large_nbits else small_off k b < b.small_nbits)
              e h))
    ]
