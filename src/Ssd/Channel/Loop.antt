-- ===== src/Ssd/Channel/Loop.antt =====
-- The loop of `chmodel_request` that takes credits: its rounds, and what it counts as taken.
use nvmevirt_fdp.Prelude.{
  total, total-set, ℕ, zero, suc, ◌+◌, ◌-◌, ◌≤◌, ◌<◌, ◌≡◌, ◌≢◌, ◌⊎◌, inl, inr, refl, arith, ltb,
  ◌==◌, if◌then◌else◌, Returns, returns, Returns-if, Returns-map,
}
use nvmevirt_fdp.Ssd.Config.{u32}
use nvmevirt_fdp.Ssd.Channel.{Taking, next_slot, take_slot, take_credits, nr_credit_entries}

-- Rounds until the next slot is the head.
abbrev pub rounds_left : ℕ → ℕ → ℕ
rounds_left head pos = if ltb pos head then head - pos else nr_credit_entries + head - pos

-- The facts about one run of the loop, from `s` to `t`.
pub record Took (head : ℕ) (s t : Taking) : Type 0 where
  pub pos_in : t.pos < nr_credit_entries
  pub no_more : t.remaining ≤ s.remaining
  pub taken :
      total t.avail nr_credit_entries + s.remaining ≡ total s.avail nr_credit_entries + t.remaining
  pub only_taken : (i : ℕ) → t.avail i ≤ s.avail i
  pub delay_bound : t.delay + rounds_left head t.pos ≡ s.delay + rounds_left head s.pos
  pub complete : (t.remaining ≡ 0) ⊎ (next_slot t.pos ≡ head)

take_slot_lem :
    (s : Taking)
    → s.pos < nr_credit_entries
    → ((take_slot s).remaining ≤ s.remaining)
      × (total (take_slot s).avail nr_credit_entries + s.remaining
          ≡ total s.avail nr_credit_entries + (take_slot s).remaining)
      × ((i : ℕ) → (take_slot s).avail i ≤ s.avail i)
unfolding take_slot
take_slot_lem s h = (
  ground arith,
  ground (
    arith,
    total-set (λ (x : ℕ). x) s.avail s.pos (s.avail s.pos - s.remaining) nr_credit_entries,
    total-set (λ (x : ℕ). x) s.avail s.pos (s.avail s.pos - s.avail s.pos) nr_credit_entries,
  ),
  λ i. ground arith,
)

abbrev moved : Taking → Taking
moved t = record t { pos = next_slot t.pos; delay = u32 (t.delay + 1) }

rounds_left-moved :
    (head pos : ℕ)
    → head < nr_credit_entries
    → pos < nr_credit_entries
    → next_slot pos ≢ head
    → (rounds_left head (next_slot pos) + 1 ≡ rounds_left head pos)
      × (next_slot pos < nr_credit_entries)
rounds_left-moved head pos hh hp ne = ground arith

rounds_left_pos : (head pos : ℕ) → pos < nr_credit_entries → 0 < rounds_left head pos
rounds_left_pos head pos h = ground arith

take_slot_place : (s : Taking) → ((take_slot s).pos ≡ s.pos) × ((take_slot s).delay ≡ s.delay)
unfolding take_slot
take_slot_place s = (refl, refl)

Took-slot :
    (head : ℕ) (s : Taking)
    → s.pos < nr_credit_entries
    → ((take_slot s).remaining ≡ 0) ⊎ (next_slot (take_slot s).pos ≡ head)
    → Took head s (take_slot s)
Took-slot head s h c =
    let slot = take_slot_lem s h in
    let place = take_slot_place s in
    record {
      pos_in = rw place.0 h;
      no_more = slot.0;
      taken = slot.1;
      only_taken = slot.2;
      delay_bound = rw (place.0, place.1);
      complete = c;
    }

Took-moved :
    (head : ℕ) (s t : Taking)
    → head < nr_credit_entries
    → s.pos < nr_credit_entries
    → s.delay + rounds_left head s.pos ≤ nr_credit_entries
    → next_slot s.pos ≢ head
    → Took head (moved (take_slot s)) t
    → Took head s t
Took-moved head s t hh h hd ne k =
    let slot = take_slot_lem s h in
    let place = take_slot_place s in
    let round = rounds_left-moved head s.pos hh h ne in
    let bound = rw (place.0, place.1) at k.delay_bound in
    record {
      pos_in = k.pos_in;
      no_more = omega (arith, slot.0, k.no_more);
      taken = omega (arith, slot.1, k.taken);
      only_taken = λ i. omega (arith, slot.2 i, k.only_taken i);
      delay_bound = omega (arith, bound, round.0);
      complete = k.complete;
    }

-- The loops of chmodel_request that take credits, started at a slot of the table with at most one
-- round of slots left before the oldest, and with fuel for that many rounds, return with no assert
-- failing: the last slot is in the table, the credits taken are those of the slots, a slot only loses
-- credits, the delay grew by one for each move to another slot and stays at most NR_CREDIT_ENTRIES,
-- and either everything asked for was taken or the table has been gone round up to the oldest slot.
pub take_credits-Took :
    (fuel head : ℕ) (s : Taking)
    → head < nr_credit_entries
    → s.pos < nr_credit_entries
    → rounds_left head s.pos ≤ fuel
    → s.delay + rounds_left head s.pos ≤ nr_credit_entries
    → Returns (Took head s) (take_credits fuel head s)
unfolding take_credits
take_credits-Took zero head s hh hp hf hd = absurd (omega (arith, rounds_left_pos head s.pos hp))
take_credits-Took (suc fuel) head s hh hp hf hd =
    Returns-if ((take_slot s).remaining == 0)
      (λ done. returns (Took-slot head s hp (inl (ground arith))))
      (λ more.
        Returns-if (next_slot (take_slot s).pos == head)
          (λ full. returns (Took-slot head s hp (inr (ground arith))))
          (λ go.
            let ne : next_slot s.pos ≢ head = ground (arith, take_slot_place s) in
            let round = rounds_left-moved head s.pos hh hp ne in
            Returns-map
              (take_credits-Took fuel head (moved (take_slot s)) hh
                (rw (take_slot_place s).0 round.1)
                (rw (take_slot_place s).0 (omega (arith, round.0)))
                (rw ((take_slot_place s).0, (take_slot_place s).1) (omega (arith, round.0))))
              λ t. Took-moved head s t hh hp hd ne))
