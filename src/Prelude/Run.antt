-- ===== src/Prelude/Run.antt =====
-- Code that may stop the kernel: `none` is a BUG_ON that fires or an access through NULL.
use Prim.Native.Nat.{ℕ, zero, suc, ◌+◌, ◌<◌}
use mathlib.Core.Path.{◌≡◌, refl, subst}
use mathlib.Core.Bool.{Bool, true, false}
use mathlib.Core.Option.{Option, none, some}
use native.Mathlib.Omega.{arith}
use nvmevirt_fdp.Prelude.Tests.{if◌then◌else◌}

infixl 5 ◌>>=◌ ◌>>◌
abbrev pub ◌>>=◌ {ℓ κ} : {A : Type ℓ} {B : Type κ} → Option A → (A → Option B) → Option B
none >>= f = none
some a >>= f = f a

abbrev pub ◌>>◌ {ℓ} : {B : Type ℓ} → Option (Unit {0}) → Option B → Option B
m >> k = m >>= λ _. k

-- `NVMEV_ASSERT(x)`, which is `BUG_ON(!x)`.
abbrev pub nvmev_assert : Bool → Option (Unit {0})
nvmev_assert true = some tt
nvmev_assert false = none

-- The run ends normally, in a value that satisfies `P`.
pub data Returns {ℓ κ} {A : Type ℓ} (P : A → Type κ) : Option A → Type (ℓ ⊔ κ) where
  returns : {a : A} → P a → Returns P (some a)

pub Returns-bind {ℓ κ μ ν} :
    {A : Type ℓ} {B : Type μ} {P : A → Type κ} {Q : B → Type ν} {m : Option A} {f : A → Option B}
    → Returns P m
    → ((a : A) → P a → Returns Q (f a))
    → Returns Q (m >>= f)
Returns-bind (returns p) k = k _ p

pub Returns-map {ℓ κ μ} :
    {A : Type ℓ} {P : A → Type κ} {Q : A → Type μ} {m : Option A}
    → Returns P m
    → ((a : A) → P a → Q a)
    → Returns Q m
Returns-map (returns p) k = returns (k _ p)

pub Returns-if {ℓ κ} :
    {A : Type ℓ} {P : A → Type κ} (b : Bool) {m n : Option A}
    → (b ≡ true → Returns P m)
    → (b ≡ false → Returns P n)
    → Returns P (if b then m else n)
Returns-if true t e = t refl
Returns-if false t e = e refl

pub Returns-assert {ℓ κ} :
    {A : Type ℓ} {P : A → Type κ} {b : Bool} {m : Option A}
    → b ≡ true
    → Returns P m
    → Returns P (nvmev_assert b >> m)
Returns-assert {b = true} h r = r
Returns-assert {b = false} h r = cc

-- If the run ends normally, its value satisfies `P`.
pub data Ensures {ℓ κ} {A : Type ℓ} (P : A → Type κ) : Option A → Type (ℓ ⊔ κ) where
  stops : Ensures P none
  ends : {a : A} → P a → Ensures P (some a)

pub Ensures-bind {ℓ κ μ ν} :
    {A : Type ℓ} {B : Type μ} {P : A → Type κ} {Q : B → Type ν} {m : Option A} {f : A → Option B}
    → Ensures P m
    → ((a : A) → P a → Ensures Q (f a))
    → Ensures Q (m >>= f)
Ensures-bind stops k = stops
Ensures-bind (ends p) k = k _ p

pub Ensures-assert {ℓ κ} :
    {A : Type ℓ} {P : A → Type κ} (b : Bool) {m : Option A}
    → (b ≡ true → Ensures P m)
    → Ensures P (nvmev_assert b >> m)
Ensures-assert true k = k refl
Ensures-assert false k = stops

pub Ensures-if {ℓ κ} :
    {A : Type ℓ} {P : A → Type κ} (b : Bool) {m n : Option A}
    → (b ≡ true → Ensures P m)
    → (b ≡ false → Ensures P n)
    → Ensures P (if b then m else n)
Ensures-if true t e = t refl
Ensures-if false t e = e refl

pub Ensures-map {ℓ κ μ} :
    {A : Type ℓ} {P : A → Type κ} {Q : A → Type μ} {m : Option A}
    → Ensures P m
    → ((a : A) → P a → Q a)
    → Ensures Q m
Ensures-map stops k = stops
Ensures-map (ends p) k = ends (k _ p)

-- A run that ends normally and ensures `Q` returns it.
pub Returns-Ensures {ℓ κ μ} :
    {A : Type ℓ} {P : A → Type κ} {Q : A → Type μ} {m : Option A}
    → Returns P m
    → Ensures Q m
    → Returns (λ a. P a × Q a) m
Returns-Ensures (returns p) (ends q) = returns (p, q)

-- What the run ended in, with its equation.
pub Returns-inv {ℓ κ} :
    {A : Type ℓ} {P : A → Type κ} {m : Option A} → Returns P m → (a : A) × (m ≡ some a) × P a
Returns-inv (returns {a} p) = (a, refl, p)

-- `for (k = i; k < i + n; k++) s = body(k, s)`, by the rounds left. The next rounds wait.
unfoldable pub for_range {ℓ} : {S : Type ℓ} → ℕ → ℕ → (ℕ → S → Option S) → S → Option S
for_range zero i body s = some s
for_range (suc n) i body s = body i s >>= λ s'. for_range n (i + 1) body s'

-- The invariant rule of the loop.
pub for_range-Returns {ℓ κ} :
    {S : Type ℓ} (P : ℕ → S → Type κ) (body : ℕ → S → Option S) (stop : ℕ)
    → ((i : ℕ) (s : S) → i < stop → P i s → Returns (P (i + 1)) (body i s))
    → (n i : ℕ) (s : S) → i + n ≡ stop
    → P i s
    → Returns (P stop) (for_range n i body s)
unfolding for_range
for_range-Returns P body stop keep zero i s e h =
    let e' : i ≡ stop = omega arith in returns (subst (λ k. P k s) e' h)
for_range-Returns P body stop keep (suc n) i s e h =
    Returns-bind (keep i s (omega arith) h)
      λ t q. for_range-Returns P body stop keep n (i + 1) t (omega arith) q

pub Ensures-both {ℓ κ μ} :
    {A : Type ℓ} {P : A → Type κ} {Q : A → Type μ} {m : Option A}
    → Ensures P m
    → Ensures Q m
    → Ensures (λ a. P a × Q a) m
Ensures-both stops e = stops
Ensures-both (ends p) (ends q) = ends (p, q)

pub Ensures-Returns {ℓ κ} : {A : Type ℓ} {P : A → Type κ} {m : Option A} → Returns P m → Ensures P m
Ensures-Returns (returns p) = ends p

-- The invariant rule of a loop that may stop.
pub for_range-Ensures {ℓ κ} :
    {S : Type ℓ} (P : ℕ → S → Type κ) (body : ℕ → S → Option S) (stop : ℕ)
    → ((i : ℕ) (s : S) → i < stop → P i s → Ensures (P (i + 1)) (body i s))
    → (n i : ℕ) (s : S) → i + n ≡ stop
    → P i s
    → Ensures (P stop) (for_range n i body s)
unfolding for_range
for_range-Ensures P body stop keep zero i s e h =
    let e' : i ≡ stop = omega arith in ends (subst (λ k. P k s) e' h)
for_range-Ensures P body stop keep (suc n) i s e h =
    Ensures-bind (keep i s (omega arith) h)
      λ t q. for_range-Ensures P body stop keep n (i + 1) t (omega arith) q
