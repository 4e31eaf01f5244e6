-- ===== src/Kv/Bitmap.antt =====
-- bitmap.c: the allocator of small and large pieces. The bitmaps are those of the kernel, which is not code
-- of the repository: a parameter, with the behaviour that its documentation gives.
pub mod Fresh
use nvmevirt_fdp.Prelude.{
  ℕ, ◌+◌, ◌*◌, ◌/◌, ◌%◌, ◌^◌, ◌≤◌, ◌<◌, ◌≡◌, ◌≢◌, ◌⊎◌, inl, inr, refl, subst, ap, Bool, true, false,
  arith, ltb, if◌then◌else◌, Bool-cases, List, [], ◌∷◌,
}
use nvmevirt_fdp.Ssd.Config.{u64}
use nvmevirt_fdp.Kv.Io.{small_length}

-- `bitmap_zero`, `bitmap_set` of one bit, `bitmap_find_next_zero_area` of one bit, and what a bit is.
pub record KernelBitmap : Type 1 where
  pub M : Type 0
  pub bitmap_zero : M
  pub bitmap_set : M → ℕ → M
  pub find_next_zero : M → ℕ → ℕ → ℕ
  pub test_bit : M → ℕ → Bool

abbrev pub large_length : ℕ
large_length = 4096

module _ (k : KernelBitmap) where
  -- The variables of bitmap.c.
  pub record Bitmaps : Type 0 where
    pub small_nbits : ℕ
    pub large_nbits : ℕ
    pub small_bitmap : k.M
    pub large_bitmap : k.M
    pub small_capacity : ℕ
    pub large_capacity : ℕ
    pub small_last_pos : ℕ
    pub large_last_pos : ℕ
    pub dev_size : ℕ
    pub total_written : ℕ

  -- `bitmap_allocator_init`. The other variables are as the module was loaded.
  unfoldable pub bitmap_allocator_init : ℕ → Bitmaps
  bitmap_allocator_init size = record {
    small_nbits = size / 2 / small_length;
    large_nbits = size / 2 / large_length;
    small_bitmap = k.bitmap_zero;
    large_bitmap = k.bitmap_zero;
    small_capacity = 0;
    large_capacity = 0;
    small_last_pos = 0;
    large_last_pos = 0;
    dev_size = size;
    total_written = 0;
  }

  abbrev pub last_pos : ℕ → ℕ → ℕ
  last_pos nbits off = if ltb nbits (off + 1) then 0 else off + 1

  abbrev pub small_off : Bitmaps → ℕ
  small_off b = k.find_next_zero b.small_bitmap b.small_nbits b.small_last_pos

  abbrev pub large_off : Bitmaps → ℕ
  large_off b = k.find_next_zero b.large_bitmap b.large_nbits b.large_last_pos

  -- `bitmap_allocate`, whose messages in the kernel log are left out.
  unfoldable pub bitmap_allocate : ℕ → Bitmaps → ℕ × Bitmaps
  bitmap_allocate length b =
      let c = record b { total_written = u64 (b.total_written + length) } in
      if ltb small_length length
      then (
        u64 (b.dev_size / 2 + large_off b * large_length),
        record c {
          large_bitmap = k.bitmap_set b.large_bitmap (large_off b);
          large_last_pos = last_pos b.large_nbits (large_off b);
          large_capacity = b.large_capacity + 1;
        },
      )
      else (
        u64 (small_off b * small_length),
        record c {
          small_bitmap = k.bitmap_set b.small_bitmap (small_off b);
          small_last_pos = last_pos b.small_nbits (small_off b);
          small_capacity = b.small_capacity + 1;
        },
      )
