-- ===== src/Ssd/Channel.antt =====
-- channel_model.c: the bandwidth of a NAND channel or of the PCIe link, as credits in slots of
-- 4 us. `avail_credits` is a ring of slots; the first `valid_len` from `head` on may be used in part.
-- The clock is not code of the repository: each call takes its reading as `cur_time`.
pub mod Loop
pub mod Laws
use nvmevirt_fdp.Prelude.{
  ℕ, zero, suc, ◌+◌, ◌-◌, ◌*◌, ◌/◌, ◌%◌, ◌^◌, Bool, not, ◌&&◌, Option, none, some, min, ltb, leb,
  ◌==◌, if◌then◌else◌, ◌>>=◌, ◌>>◌, nvmev_assert,
}
use nvmevirt_fdp.Ssd.Config.{u32, u64, mb, div_round_up}

abbrev pub nr_credit_entries : ℕ
nr_credit_entries = 1024 * 96

abbrev pub unit_time_interval : ℕ
unit_time_interval = 4000

abbrev pub unit_xfer_size : ℕ
unit_xfer_size = 128

abbrev pub unit_xfer_credits : ℕ
unit_xfer_credits = 1

abbrev pub ns_per_sec : ℕ
ns_per_sec = 1_000_000_000

-- `BANDWIDTH_TO_TX_TIME` and `BANDWIDTH_TO_MAX_CREDITS`, of a bandwidth in MB/s.
abbrev pub bandwidth_to_tx_time : ℕ → ℕ
bandwidth_to_tx_time mb_s = u64 (unit_xfer_size * ns_per_sec) / mb mb_s

abbrev pub bandwidth_to_max_credits : ℕ → ℕ
bandwidth_to_max_credits mb_s =
    u64 (mb mb_s * unit_time_interval) / ns_per_sec / unit_xfer_size * unit_xfer_credits

-- `struct channel_model`. An entry of `avail_credits` is a byte (`credit_t`).
pub record Channel : Type 0 where
  pub cur_time : ℕ
  pub head : ℕ
  pub valid_len : ℕ
  pub max_credits : ℕ
  pub command_credits : ℕ
  pub xfer_lat : ℕ
  pub avail_credits : ℕ → ℕ

-- `MEMSET(&a[from], value, count)`: `memset` stores the low byte.
abbrev pub memset : (ℕ → ℕ) → ℕ → ℕ → ℕ → ℕ → ℕ
memset a from value count i = if leb from i && ltb i (from + count) then value % 256 else a i

abbrev pub update : (ℕ → ℕ) → ℕ → ℕ → ℕ → ℕ
update a i v j = if i == j then v else a j

-- `chmodel_init`. The array is allocated with the structure; `memset` covers all of it.
unfoldable pub chmodel_init : ℕ → Channel
chmodel_init bandwidth = record {
  cur_time = 0;
  head = 0;
  valid_len = 0;
  max_credits = u32 (bandwidth_to_max_credits bandwidth);
  command_credits = 0;
  xfer_lat = u32 (bandwidth_to_tx_time bandwidth);
  avail_credits = memset (λ _. 0) 0 (u32 (bandwidth_to_max_credits bandwidth)) nr_credit_entries;
}

-- The search of the current time: `head` moves past the slots that are over, and they are refilled.
-- The subtraction of the two slot numbers wraps; `offs` is at most `valid_len`.
unfoldable pub move_head : Channel → ℕ → Channel
move_head ch cur_time = record ch {
  avail_credits =
      if leb nr_credit_entries (u32 (ch.head + offs))
      then memset (memset ch.avail_credits ch.head ch.max_credits (nr_credit_entries - ch.head)) 0
          ch.max_credits (offs - (nr_credit_entries - ch.head))
      else memset ch.avail_credits ch.head ch.max_credits offs;
  head = u32 (ch.head + offs) % nr_credit_entries;
  cur_time = cur_time;
  valid_len = ch.valid_len - offs;
}
  where
    elapsed : ℕ
    elapsed = u32 (cur_time / unit_time_interval + 2 ^ 64 - ch.cur_time / unit_time_interval)

    offs : ℕ
    offs = if ltb elapsed ch.valid_len then elapsed else ch.valid_len

-- The variables of the loop that takes credits.
pub record Taking : Type 0 where
  pub avail : ℕ → ℕ
  pub pos : ℕ
  pub remaining : ℕ
  pub delay : ℕ

abbrev pub next_slot : ℕ → ℕ
next_slot pos = (pos + 1) % nr_credit_entries

-- One round: take what the slot has.
unfoldable pub take_slot : Taking → Taking
take_slot t = record t {
  avail = update t.avail t.pos (t.avail t.pos - taken);
  remaining = t.remaining - taken;
}
  where
    taken : ℕ
    taken = if leb t.remaining (t.avail t.pos) then t.remaining else t.avail t.pos

-- `while (1)`: the fuel counts the rounds.
unfoldable pub take_credits : ℕ → ℕ → Taking → Option Taking
take_credits zero head t = none
take_credits (suc fuel) head t =
    let t' = take_slot t in
    let rest =
      take_credits fuel head (record t' { pos = next_slot t'.pos; delay = u32 (t'.delay + 1) }) in
    if t'.remaining == 0 then some t' else if next_slot t'.pos == head then some t' else rest

-- What follows the loop: `valid_len` grows to cover the last slot used, and the delay that exceeds
-- the default one is added to the transfer time.
unfoldable pub settle : Channel → ℕ → ℕ → ℕ → Taking → ℕ × Channel
settle ch request_time units_to_xfer default_delay t = (
  u64 (request_time + u64 (u32 (ch.xfer_lat * units_to_xfer) + delay * unit_time_interval)),
  record ch {
    avail_credits = t.avail;
    valid_len = if ltb ch.valid_len valid_length then valid_length else ch.valid_len;
  },
)
  where
    valid_length : ℕ
    valid_length =
        if leb ch.head t.pos then t.pos - ch.head + 1 else nr_credit_entries - (ch.head - t.pos - 1)

    delay : ℕ
    delay = if ltb default_delay t.delay then t.delay - default_delay else 0

-- The part of `chmodel_request` that takes credits, from the slot of the request time on. Its
-- division by `max_credits` faults at 0.
unfoldable pub take_from : Channel → ℕ → ℕ → ℕ → Option (ℕ × Channel)
unfolding settle
take_from ch request_time request_time_offs units_to_xfer = do
  let remaining = u32 (u32 (units_to_xfer * unit_xfer_credits) + ch.command_credits)
  nvmev_assert (not (ch.max_credits == 0))
  t ← take_credits nr_credit_entries ch.head (record {
    avail = ch.avail_credits;
    pos = u32 (ch.head + request_time_offs) % nr_credit_entries;
    remaining = remaining;
    delay = 0;
  })
  some (settle ch request_time units_to_xfer (remaining / ch.max_credits) t)

-- `chmodel_request`: the time at which the transfer ends.
unfoldable pub chmodel_request : Channel → ℕ → ℕ → ℕ → Option (ℕ × Channel)
unfolding move_head take_from
chmodel_request ch0 cur_time request_time length = do
  let ch = move_head ch0 cur_time
  let offs = u32 (request_time / unit_time_interval + 2 ^ 64 - cur_time / unit_time_interval)
  nvmev_assert (leb ch.valid_len nr_credit_entries)
  if ltb request_time cur_time
      then some (request_time, ch)
      else if leb nr_credit_entries offs
      then some (request_time, ch)
      else take_from ch request_time offs (u32 (div_round_up length unit_xfer_size))
