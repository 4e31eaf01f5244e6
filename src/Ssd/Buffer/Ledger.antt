-- ===== src/Ssd/Buffer/Ledger.antt =====
-- The write buffer of ssd.c under allocations and releases in any order and of any size.
use nvmevirt_fdp.Prelude.{
  ℕ, ◌+◌, ◌^◌, ◌≤◌, ◌<◌, ◌≡◌, ◌⊎◌, refl, inl, inr, arith, some, ltb, leb, Bool-cases, Returns,
  returns, Returns-assert,
}
use nvmevirt_fdp.Ssd.Buffer.{Buffer, buffer_init, buffer_allocate, buffer_release}

-- The buffer, and how many bytes were granted and released since it was set up.
pub record Ledger : Type 0 where
  pub buffer : Buffer
  pub granted : ℕ
  pub released : ℕ

-- An allocation, granted or not, and a release, of bytes that were allocated or not.
pub data Step : Ledger → Ledger → Type 0 where
  allocates :
      (l : Ledger) (size granted : ℕ) (b : Buffer)
      → buffer_allocate l.buffer size ≡ some (granted, b)
      → Step l (record l { buffer = b; granted = l.granted + granted })
  releases :
      (l : Ledger) (size : ℕ)
      → Step l (record l { buffer = buffer_release l.buffer size; released = l.released + size })

pub data Reach (s : Ledger) : Ledger → Type 0 where
  here : Reach s s
  next : {t u : Ledger} → Reach s t → Step t u → Reach s u

-- An allocation of `n` bytes is granted in full, or refused with the buffer left as it is: by whether
-- they fit beside the bytes granted and not released.
abbrev Decided : ℕ → Ledger → ℕ → ℕ × Buffer → Type 0
Decided size l n r =
    ((r.0 ≡ n) × (l.granted + n ≤ size + l.released))
    ⊎ ((r.0 ≡ 0) × (r.1 ≡ l.buffer) × (size + l.released < l.granted + n))

-- The bytes that remain and those granted are the bytes of the buffer and those released.
pub record IsBalanced (size : ℕ) (l : Ledger) : Type 0 where
  pub same_size : l.buffer.size ≡ size
  pub balanced : l.buffer.remaining + l.granted ≡ size + l.released

-- What the balance says of the next allocation.
pub record IsLedger (size : ℕ) (l : Ledger) : Type 0 where
  pub balance : IsBalanced size l
  pub decides : (n : ℕ) → n ≤ size → Returns (Decided size l n) (buffer_allocate l.buffer n)

allocate-balance :
    (b : Buffer) (size granted : ℕ) (b' : Buffer)
    → b.size < 2 ^ 32
    → buffer_allocate b size ≡ some (granted, b')
    → (b'.size ≡ b.size) × (b'.remaining + granted ≡ b.remaining)
unfolding buffer_allocate
allocate-balance b size granted b' h e = ground arith

Step-IsBalanced :
    {size : ℕ} {l m : Ledger}
    → size < 2 ^ 32
    → size + m.released < 2 ^ 64
    → Step l m
    → (size + l.released < 2 ^ 64 → IsBalanced size l)
    → IsBalanced size m
unfolding buffer_release
Step-IsBalanced h k (allocates l size granted b e) before =
    let v = before k in
    let kept = allocate-balance l.buffer size granted b (omega (arith, v.same_size)) e in
    omega (arith, kept.0, kept.1, v.same_size, v.balanced)
Step-IsBalanced h k (releases l size) before =
    let v = before (omega arith) in omega (arith, v.same_size, v.balanced)

Reach-balance :
    (size : ℕ) {l : Ledger}
    → size < 2 ^ 32
    → size + l.released < 2 ^ 64
    → Reach (record { buffer = buffer_init size; granted = 0; released = 0 }) l
    → IsBalanced size l
unfolding buffer_init
Reach-balance size h k here = omega arith
Reach-balance size h k (next r s) = Step-IsBalanced h k s (λ k'. Reach-balance size h k' r)

balanced-decides :
    (size : ℕ) (l : Ledger) (n : ℕ)
    → size < 2 ^ 32
    → IsBalanced size l
    → n ≤ size
    → Returns (Decided size l n) (buffer_allocate l.buffer n)
unfolding buffer_allocate
balanced-decides size l n h v le =
    Returns-assert {b = leb n l.buffer.size} (ground (arith, v.same_size))
      (elim (Bool-cases (ltb l.buffer.remaining n)) [
        | inl few ↦ rw few (returns (inr (refl, ground arith, ground (arith, v.balanced))))
        | inr room ↦ rw room (returns (inl (omega arith, ground (arith, v.balanced))))
      ])

-- From a new buffer of less than 2^32 bytes, under any order of allocations, granted or refused, and
-- of releases of any size, as long as the size and the releases in all do not reach 2^64: what remains and what
-- was granted are together the size and what was released (so more remains than the size exactly
-- if more was released than granted); and the next allocation of at most the size is granted in full if it fits
-- beside what is granted and not released, and else refused with the buffer left as it is.
pub Reach-IsLedger :
    (size : ℕ) {l : Ledger}
    → size < 2 ^ 32
    → size + l.released < 2 ^ 64
    → Reach (record { buffer = buffer_init size; granted = 0; released = 0 }) l
    → IsLedger size l
Reach-IsLedger size {l} h k r =
    let v = Reach-balance size h k r in
    record { balance = v; decides = λ n le. balanced-decides size l n h v le }
