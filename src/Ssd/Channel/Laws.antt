-- ===== src/Ssd/Channel/Laws.antt =====
-- `chmodel_request` as a whole: the invariant of the ring, its assertion, and the time it answers.
use nvmevirt_fdp.Prelude.{
  ℕ, ◌+◌, ◌*◌, ◌-◌, ◌/◌, ◌%◌, ◌^◌, ◌≤◌, ◌<◌, ◌≡◌, refl, arith, ltb, leb, if◌then◌else◌, Returns,
  returns, Returns-if, Returns-bind, Returns-assert,
}
use nvmevirt_fdp.Ssd.Config.{u32, u64, div_round_up}
use nvmevirt_fdp.Ssd.Channel.{
  Channel, Taking, chmodel_init, bandwidth_to_max_credits, move_head, settle, take_from,
  chmodel_request, nr_credit_entries, unit_xfer_size, unit_time_interval,
}
use nvmevirt_fdp.Ssd.Channel.Loop.{Took, take_credits-Took}

pub record IsChannel (ch : Channel) : Type 0 where
  pub head_in : ch.head < nr_credit_entries
  pub valid_in : ch.valid_len ≤ nr_credit_entries
  pub credits_pos : 0 < ch.max_credits
  pub credits_in : (i : ℕ) → ch.avail_credits i ≤ ch.max_credits % 256

pub chmodel_init-IsChannel :
    (bandwidth : ℕ)
    → 0 < u32 (bandwidth_to_max_credits bandwidth)
    → IsChannel (chmodel_init bandwidth)
unfolding chmodel_init
chmodel_init-IsChannel bandwidth h = record {
  head_in = omega arith;
  valid_in = omega arith;
  credits_pos = h;
  credits_in = λ i. ground arith;
}

pub move_head-IsChannel : (ch : Channel) (now : ℕ) → IsChannel ch → IsChannel (move_head ch now)
unfolding move_head
move_head-IsChannel ch now v = record {
  head_in = omega arith;
  valid_in = ground arith;
  credits_pos = v.credits_pos;
  credits_in = λ i. ground (arith, v.credits_in i);
}

settle-IsChannel :
    (ch : Channel) (request_time units default_delay : ℕ) (s t : Taking)
    → IsChannel ch
    → ((i : ℕ) → s.avail i ≤ ch.max_credits % 256)
    → Took ch.head s t
    → IsChannel (settle ch request_time units default_delay t).1
unfolding settle
settle-IsChannel ch request_time units default_delay s t v hs k = record {
  head_in = v.head_in;
  valid_in = ground (arith, k.pos_in);
  credits_pos = v.credits_pos;
  credits_in = λ i. omega (arith, hs i, k.only_taken i);
}

-- The invariant rule of `take_from`: what every settled state has, the run ends in.
take_from-rule {ℓ} :
    (P : ℕ × Channel → Type ℓ) (ch : Channel) (request_time offs units : ℕ)
    → IsChannel ch
    → ((m : ℕ) (s t : Taking)
        → ((i : ℕ) → s.avail i ≤ ch.max_credits % 256)
        → s.delay ≡ 0
        → Took ch.head s t
        → P (settle ch request_time units m t))
    → Returns P (take_from ch request_time offs units)
unfolding take_from
take_from-rule P ch request_time offs units v k = Returns-assert (ground (arith, v.credits_pos)) (
    Returns-bind
      (take_credits-Took nr_credit_entries ch.head _ v.head_in (omega arith)
        (ground (arith, v.head_in)) (ground (arith, v.head_in)))
      λ t took. returns (k _ _ t v.credits_in refl took))

-- The same of `chmodel_request`, whose early returns leave the moved head.
chmodel_request-rule {ℓ} :
    (P : ℕ × Channel → Type ℓ) (ch : Channel) (now request_time length : ℕ)
    → IsChannel ch
    → P (request_time, move_head ch now)
    → ((offs : ℕ)
        → Returns P (
            take_from
              (move_head ch now)
              request_time
              offs
              (u32 (div_round_up length unit_xfer_size))))
    → Returns P (chmodel_request ch now request_time length)
unfolding chmodel_request
chmodel_request-rule P ch now request_time length v early late =
    let m = move_head-IsChannel ch now v in
    let offs = u32 (request_time / unit_time_interval + 2 ^ 64 - now / unit_time_interval) in
    Returns-assert (ground (arith, m.valid_in)) (
      Returns-if (ltb request_time now) (λ _. returns early)
        λ _. Returns-if (leb nr_credit_entries offs) (λ _. returns early) λ _. late offs)

-- On a valid channel `chmodel_request` returns at every clock reading and request time: its
-- assertion holds, its loop ends within its array, and the channel is valid again.
pub chmodel_request-IsChannel :
    (ch : Channel) (now request_time length : ℕ)
    → IsChannel ch
    → Returns (λ r. IsChannel r.1) (chmodel_request ch now request_time length)
chmodel_request-IsChannel ch now request_time length v =
    let m = move_head-IsChannel ch now v in
    chmodel_request-rule _ ch now request_time length v m λ offs.
      take_from-rule _ (move_head ch now) request_time offs _ m
        λ d s t hs hd k. settle-IsChannel (move_head ch now) request_time _ d s t m hs k

delay-le :
    (head : ℕ) (s t : Taking)
    → head < nr_credit_entries
    → s.delay ≡ 0
    → Took head s t
    → t.delay ≤ nr_credit_entries
delay-le head s t h e k = ground (arith, k.delay_bound)

excess-le : (d m : ℕ) → d ≤ nr_credit_entries → (if ltb m d then d - m else 0) ≤ nr_credit_entries
excess-le d m h = ground arith

no_wrap :
    (r x e : ℕ)
    → r < 2 ^ 63
    → e ≤ nr_credit_entries
    → u64 (r + u64 (u32 x + e * unit_time_interval)) ≡ r + u32 x + e * unit_time_interval
no_wrap r x e h he = omega arith

-- The time answered is not before the request, and not after its transfer time and one turn of
-- the ring.
abbrev pub IsTimely : Channel → ℕ → ℕ → ℕ → Type 0
IsTimely ch request_time length time =
    (request_time ≤ time)
    × (time
        ≤ request_time
          + u32 (ch.xfer_lat * u32 (div_round_up length unit_xfer_size))
          + nr_credit_entries * unit_time_interval)

settle-IsTimely :
    (ch : Channel) (request_time length m : ℕ) (s t : Taking)
    → IsChannel ch
    → request_time < 2 ^ 63
    → s.delay ≡ 0
    → Took ch.head s t
    → IsTimely ch request_time length
        (settle ch request_time (u32 (div_round_up length unit_xfer_size)) m t).0
unfolding settle
settle-IsTimely ch request_time length m s t v h hd k =
    let late = excess-le t.delay m (delay-le ch.head s t v.head_in hd k) in
    rw (no_wrap request_time (ch.xfer_lat * u32 (div_round_up length unit_xfer_size)) _ h late)
      (omega arith, omega (arith, late))

-- On a valid channel and a request time below 2^63 the time that `chmodel_request` answers is not
-- before the request, and at most the transfer time and one turn of the ring of slots after it.
pub chmodel_request-IsTimely :
    (ch : Channel) (now request_time length : ℕ)
    → IsChannel ch
    → request_time < 2 ^ 63
    → Returns
        (λ r. IsTimely ch request_time length r.0)
        (chmodel_request ch now request_time length)
unfolding move_head
chmodel_request-IsTimely ch now request_time length v h =
    let m = move_head-IsChannel ch now v in
    chmodel_request-rule _ ch now request_time length v (omega arith, omega arith)
      λ offs.
        take_from-rule _ (move_head ch now) request_time offs _ m
          λ d s t hs hd k. settle-IsTimely (move_head ch now) request_time length d s t m h hd k
