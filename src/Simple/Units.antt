-- ===== src/Simple/Units.antt =====
-- simple_ftl.c: the completion time of a command, and of a flush.
use nvmevirt_fdp.Prelude.{
  ℕ, zero, suc, ◌+◌, ◌-◌, ◌*◌, ◌/◌, ◌%◌, ◌^◌, ◌≤◌, ◌<◌, ◌≡◌, ◌≢◌, ◌⊎◌, refl, subst, dec_lt, ◌∙◌,
  inl, inr, arith, min, max, ◌==◌, Bool-cases, Returns, returns, Returns-bind, Returns-map,
}
use nvmevirt_fdp.Ssd.Config.{u32, u64}
use nvmevirt_fdp.Simple.{
  IoConfig, Latencies, IoUnits, use_io_unit, use_io_units, io_unit_size, schedule_io_units,
  schedule_flush,
}

-- `k` rounds of `size` bytes cover `length` bytes, and fewer do not; there is one at least.
pub record IsRounds (size length k : ℕ) : Type 0 where
  pub some_round : 1 ≤ k
  pub cover : length ≤ k * size
  pub needed : (k ≡ 1) ⊎ (k * size < length + size)

last_round : (size length : ℕ) → length - min length size ≡ 0 → IsRounds size length 1
last_round size length h = record {
  some_round = omega arith;
  cover = omega arith;
  needed = inl refl;
}

next_round :
    (size length k : ℕ)
    → 0 < size
    → length - min length size ≢ 0
    → IsRounds size (length - min length size) k
    → IsRounds size length (k + 1)
next_round size length k p h r =
    let e : (k + 1) * size ≡ k * size + size = grind arith in
    record {
      some_round = omega arith;
      cover = omega (arith, e, r.cover);
      needed = inr (elim r.needed [
        | inl x ↦ let one : k * size ≡ size = rw x (omega arith) in omega (arith, e, one)
        | inr y ↦ omega (arith, e, y)
      ]);
    }

-- The latest time after the rounds.
pub record Used (l : Latencies) (size length : ℕ) (before : IoUnits) (after : IoUnits)
    : Type 0 where
  pub rounds : ℕ
  pub is_rounds : IsRounds size length rounds
  pub time : after.latest ≡ u64 (before.latest + l.latency * rounds)

add_round : (t l k : ℕ) → u64 (u64 (t + l) + l * k) ≡ u64 (t + l * (k + 1))
add_round t l k = let e : l * (k + 1) ≡ l * k + l = grind arith in omega (arith, e)

use_io_units-Used :
    (c : IoConfig) (size : ℕ) (l : Latencies)
    → 0 < size
    → (fuel length : ℕ) (s : IoUnits) → length < fuel
    → Returns (Used l size length s) (use_io_units fuel c size l length s)
unfolding use_io_units use_io_unit
use_io_units-Used c size l p zero length s h = absurd (omega arith)
use_io_units-Used c size l p (suc fuel) length s h =
    elim (Bool-cases (length - min length size == 0)) [
      | inl e ↦
          let stop : length - min length size ≡ 0 = ground arith in
          let one : l.latency * 1 ≡ l.latency = grind arith in
          rw (e, use_io_units)
            (returns
              (record { rounds = 1; is_rounds = last_round size length stop; time = rw one refl }))
      | inr e ↦
          let on : length - min length size ≢ 0 = ground arith in
          rw (e, use_io_units)
            (Returns-map
              (use_io_units-Used c size l p fuel (length - min length size) (use_io_unit c l s)
                (omega arith))
              λ t u. record {
                rounds = u.rounds + 1;
                is_rounds = next_round size length u.rounds p on u.is_rounds;
                time = u.time ∙ add_round s.latest l.latency u.rounds;
              })
    ]

wrap_once : (a b : ℕ) → u64 (u64 a + b) ≡ u64 (a + b)
wrap_once a b = omega arith

-- The reply to a command: how often its latency is taken.
pub record Scheduled (c : IoConfig) (l : Latencies) (lba length nsecs_start : ℕ) (stat : ℕ → ℕ)
    (r : ℕ × (ℕ → ℕ)) : Type 0 where
  pub rounds : ℕ
  pub is_rounds : IsRounds (io_unit_size c) length rounds
  pub time :
      r.0
      ≡ u64 (
          max nsecs_start (stat (u32 (lba / 2 ^ (c.io_unit_shift - 9) % c.nr_io_units)))
          + l.delay
          + l.latency * rounds)

-- A command completes: each started I/O unit size of its data, and one for a command with none, takes the
-- latency once, after the delay and after its first unit is free; the time wraps at 64 bits.
pub schedule_io_units-Scheduled :
    (c : IoConfig) (l : Latencies) (lba length nsecs_start : ℕ) (stat : ℕ → ℕ)
    → 0 < io_unit_size c
    → Returns
        (Scheduled c l lba length nsecs_start stat)
        (schedule_io_units c l lba length nsecs_start stat)
unfolding schedule_io_units
schedule_io_units-Scheduled c l lba length nsecs_start stat p =
    Returns-bind (use_io_units-Used c (io_unit_size c) l p (length + 1) length _ (omega arith))
      λ s u. returns (record {
        rounds = u.rounds;
        is_rounds = u.is_rounds;
        time = u.time ∙ wrap_once _ (l.latency * u.rounds);
      })

-- What the latest time of the first units is.
abbrev pub IsLatest : ℕ → (ℕ → ℕ) → ℕ → Type 0
IsLatest n stat time = (time ≡ 0) ⊎ ((i : ℕ) × (i < n) × (time ≡ stat i))

later_of_two :
    (n : ℕ) (stat : ℕ → ℕ)
    → IsLatest n stat (schedule_flush n stat)
    → IsLatest (suc n) stat (max (schedule_flush n stat) (stat n))
later_of_two n stat h = elim (dec_lt (stat n) (schedule_flush n stat)) [
  | no x ↦ inr (n, omega arith, omega arith)
  | yes x ↦ elim h [
    | inl z ↦ inl (omega arith)
    | inr y ↦ inr (y.0, omega (arith, y.1), omega (arith, y.2))
  ]
]

-- A flush completes when every unit is free, and no later: at the time of one of them, or at 0.
pub schedule_flush_lem :
    (n : ℕ) (stat : ℕ → ℕ)
    → ((i : ℕ) → i < n → stat i ≤ schedule_flush n stat) × IsLatest n stat (schedule_flush n stat)
unfolding schedule_flush
schedule_flush_lem zero stat = (λ i h. absurd (omega arith), inl refl)
schedule_flush_lem (suc n) stat =
    let ih = schedule_flush_lem n stat in
    (
      λ i h. elim (dec_lt i n) [
        | yes x ↦ omega (arith, ih.0 i x)
        | no x ↦
            let last : n ≡ i = omega arith in
            subst (λ j. stat j ≤ schedule_flush (suc n) stat) last (omega arith)
      ],
      later_of_two n stat ih.1,
    )
