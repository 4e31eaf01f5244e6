-- ===== src/Kv/Memory.antt =====
-- kv_ftl.h: `struct allocator_ops`; append_only.c: the allocator that never reuses memory. bitmap.c is the
-- other allocator: it searches a bitmap with functions of the kernel.
use nvmevirt_fdp.Prelude.{ℕ, ◌+◌, ◌^◌, ◌<◌, ◌≡◌, refl, subst, List, [], ◌∷◌, arith}
use nvmevirt_fdp.Ssd.Config.{u64}

-- The operations that the key-value FTL calls, on a state of the allocator.
pub record Allocator : Type 1 where
  pub A : Type 0
  pub init : ℕ → A
  pub allocate : ℕ → A → ℕ × A

-- The variables of append_only.c.
pub record AppendOnly : Type 0 where
  pub latest : ℕ
  pub dev_size : ℕ
  pub total_written : ℕ

unfoldable pub append_only_allocator_init : ℕ → AppendOnly
append_only_allocator_init size = record { latest = 0; dev_size = size; total_written = 0 }

-- `append_only_allocate`. A pool that is nearly full is only reported in the kernel log.
unfoldable pub append_only_allocate : ℕ → AppendOnly → ℕ × AppendOnly
append_only_allocate length a = (
  a.latest,
  record a { latest = u64 (a.latest + length); total_written = u64 (a.total_written + length) },
)

unfoldable pub append_only_ops : Allocator
unfolding append_only_allocate append_only_allocator_init
append_only_ops = record {
  A = AppendOnly;
  init = append_only_allocator_init;
  allocate = append_only_allocate;
}

-- A run of allocations: what each got, newest first, and the state.
pub record Piece : Type 0 where
  pub offset : ℕ
  pub size : ℕ

unfoldable pub allocate_all : List ℕ → AppendOnly → List Piece × AppendOnly
unfolding append_only_allocate
allocate_all [] a = ([], a)
allocate_all (n ∷ ns) a =
    let (offset, b) = append_only_allocate n a in
    let (pieces, c) = allocate_all ns b in (record { offset = offset; size = n } ∷ pieces, c)

-- The pieces lie one behind the other from `start` on, up to `stop`.
pub data IsPacked (stop : ℕ) : ℕ → List Piece → Type 0 where
  packed : IsPacked stop stop []
  next_piece :
      {start : ℕ} (p : Piece) {rest : List Piece}
      → p.offset ≡ start
      → IsPacked stop (start + p.size) rest
      → IsPacked stop start (p ∷ rest)

unfoldable pub sum : List ℕ → ℕ
sum [] = 0
sum (n ∷ ns) = n + sum ns

-- Allocations whose sizes do not add up beyond 64 bits are given memory one behind the other, so no two
-- overlap, and the next one will begin behind the last.
pub allocate_all-IsPacked :
    (ns : List ℕ) (a : AppendOnly)
    → a.latest + sum ns < 2 ^ 64
    → IsPacked (allocate_all ns a).1.latest a.latest (allocate_all ns a).0
unfolding allocate_all append_only_allocate sum
allocate_all-IsPacked [] a h = packed
allocate_all-IsPacked (n ∷ ns) a h =
    let next : u64 (a.latest + n) ≡ a.latest + n = omega arith in
    next_piece _ refl (
      subst
        (λ s.
          IsPacked (allocate_all (n ∷ ns) a).1.latest s
            (allocate_all ns (append_only_allocate n a).1).0)
        next (allocate_all-IsPacked ns (append_only_allocate n a).1 (omega (arith, next))))
