-- ===== src/Fdp/Context/Ring.antt =====
-- The event ring of fdp_ftl.c beside the list of all events, newest first.
use nvmevirt_fdp.Prelude.{
  ℕ, zero, suc, ◌+◌, ◌-◌, ◌%◌, ◌^◌, ◌≤◌, ◌<◌, ◌≡◌, refl, ap, ◌∙◌, arith, List, [], ◌∷◌, take,
  length, length-set, get_or-set_self, get_or-set_ne, take-take_le, ltb, if◌then◌else◌, if-rule,
  Bool-cases, inl, inr, dec_lt, take-all,
}
use nvmevirt_fdp.Ssd.Config.{u32, u64, fdp_nr_events}
use nvmevirt_fdp.Fdp.Context.{
  FdpCtx, FdpEvent, EventSetting, is_enabled, fdp_emit_event, no_event, push_event, fdp_init_ctx,
  newest, newest_from, log_events,
}

pub record IsRing (c : FdpCtx) : Type 0 where
  pub ring_full : length c.ring ≡ fdp_nr_events
  pub head_in : c.ring_head < fdp_nr_events
  pub count_in : c.nr_events ≤ fdp_nr_events

pub push_event-IsRing : (c : FdpCtx) (e : FdpEvent) → IsRing c → IsRing (push_event c e)
unfolding push_event
push_event-IsRing c e v = record {
  ring_full = length-set c.ring c.ring_head e ∙ v.ring_full;
  head_in = omega arith;
  count_in = ground arith;
}

newest-push_zero : (c : FdpCtx) (e : FdpEvent) → IsRing c → newest (push_event c e) 0 ≡ e
unfolding newest push_event
newest-push_zero c e v =
    let slot : u32 (u32 (c.ring_head + 1) % fdp_nr_events + fdp_nr_events - 1 - 0) % fdp_nr_events
        ≡ c.ring_head =
      omega arith in
    rw slot (get_or-set_self c.ring c.ring_head e no_event (omega arith))

newest-push_suc :
    (c : FdpCtx) (e : FdpEvent) (i : ℕ)
    → IsRing c
    → i + 1 < fdp_nr_events
    → newest (push_event c e) (i + 1) ≡ newest c i
unfolding newest push_event
newest-push_suc c e i v h =
    let slot : u32 (u32 (c.ring_head + 1) % fdp_nr_events + fdp_nr_events - 1 - (i + 1))
          % fdp_nr_events
        ≡ u32 (c.ring_head + fdp_nr_events - 1 - i) % fdp_nr_events =
      omega arith in
    rw slot (get_or-set_ne c.ring c.ring_head _ e no_event (omega arith))

newest_from-push :
    (c : FdpCtx) (e : FdpEvent) (i n : ℕ)
    → IsRing c
    → i + n < fdp_nr_events
    → newest_from (push_event c e) (i + 1) n ≡ newest_from c i n
unfolding newest_from
newest_from-push c e i zero v h = refl
newest_from-push c e i (suc n) v h =
    rw (newest-push_suc c e i v (omega arith), newest_from-push c e (i + 1) n v (omega arith))

take-newest_from : (c : FdpCtx) (i n m : ℕ) → n ≤ m → take n (newest_from c i m) ≡ newest_from c i n
unfolding newest_from
take-newest_from c i zero m h = refl
take-newest_from c i (suc n) zero h = absurd (omega arith)
take-newest_from c i (suc n) (suc m) h =
    ap (◌∷◌ (newest c i)) (take-newest_from c (i + 1) n m (omega arith))

newest_from-suc :
    (c : FdpCtx) (i n : ℕ) → newest_from c i (n + 1) ≡ newest c i ∷ newest_from c (i + 1) n
unfolding newest_from
newest_from-suc c i n = ground arith

length-newest_from : (c : FdpCtx) (i n : ℕ) → length (newest_from c i n) ≡ n
unfolding newest_from
length-newest_from c i zero = refl
length-newest_from c i (suc n) = ap suc (length-newest_from c (i + 1) n)

-- The records of a log one longer, up to the ring's size, whose last `n` may be old ones.
log-grown :
    (c : FdpCtx) (e : FdpEvent) (n : ℕ)
    → IsRing c
    → n < fdp_nr_events
    → newest_from (push_event c e) 0 (n + 1) ≡ e ∷ newest_from c 0 n
log-grown c e n v h =
    rw (newest_from-suc (push_event c e) 0 n, newest-push_zero c e v)
      (ap (◌∷◌ e) (newest_from-push c e 0 n v (omega arith)))

log-step :
    (c : FdpCtx) (e : FdpEvent) (n k : ℕ)
    → IsRing c
    → n ≤ fdp_nr_events
    → k ≡ (if ltb n fdp_nr_events then n + 1 else n)
    → newest_from (push_event c e) 0 k ≡ take fdp_nr_events (e ∷ newest_from c 0 n)
log-step c e n k v h q = elim (dec_lt n fdp_nr_events) [
  | yes p ↦
      let more : k ≡ n + 1 = ground arith in
      rw (
        more,
        log-grown c e n v p,
        take-all 62 (newest_from c 0 n) (rw length-newest_from (omega arith)),
      )
  | no p ↦
      let same : k ≡ 62 + 1 = ground arith in
      rw (same, log-grown c e 62 v (omega arith), take-newest_from c 0 62 n (omega arith))
]

-- Emitting a record puts it in front of the log, which keeps at most FDP_NR_EVENTS records.
pub log_events-push :
    (c : FdpCtx) (e : FdpEvent)
    → IsRing c
    → log_events (push_event c e) ≡ take fdp_nr_events (e ∷ log_events c)
unfolding log_events push_event
log_events-push c e v = log-step c e c.nr_events _ v v.count_in refl

-- One call of `fdp_emit_event`.
pub record Emission : Type 0 where
  pub clock : ℕ
  pub type : ℕ
  pub flags : ℕ
  pub pid : ℕ
  pub nsid : ℕ

unfoldable pub emit : FdpCtx → Emission → FdpCtx
emit c m = fdp_emit_event c m.clock m.type m.flags m.pid m.nsid

unfoldable pub emit_all : FdpCtx → List Emission → FdpCtx
emit_all c [] = c
emit_all c (m ∷ ms) = emit_all (emit c m) ms

-- The record of a call, as the wire format holds it.
abbrev pub recorded : Emission → FdpEvent
recorded m = record {
  type = m.type % 2 ^ 8;
  flags = m.flags % 2 ^ 8;
  pid = m.pid % 2 ^ 16;
  timestamp = u64 m.clock;
  nsid = u32 m.nsid;
}

-- All events of enabled types, newest first, in front of `past`.
unfoldable pub history : List EventSetting → List Emission → List FdpEvent → List FdpEvent
unfolding is_enabled
history es [] past = past
history es (m ∷ ms) past =
    history es ms (if is_enabled (m.type % 2 ^ 8) es then recorded m ∷ past else past)

emit-IsRing : (c : FdpCtx) (m : Emission) → IsRing c → IsRing (emit c m)
unfolding emit fdp_emit_event
emit-IsRing c m v =
    if-rule IsRing (is_enabled (m.type % 2 ^ 8) c.events) _ _ (push_event-IsRing c (recorded m) v) v

emit-events : (c : FdpCtx) (m : Emission) → (emit c m).events ≡ c.events
unfolding emit fdp_emit_event push_event
emit-events c m = ground arith

log_events-emit :
    (c : FdpCtx) (m : Emission)
    → IsRing c
    → log_events (emit c m) ≡ (
        if is_enabled (m.type % 2 ^ 8) c.events
        then take fdp_nr_events (recorded m ∷ log_events c)
        else log_events c)
unfolding emit fdp_emit_event
log_events-emit c m v = ground (arith, log_events-push c (recorded m) v)

log_events-emit_past :
    (c : FdpCtx) (m : Emission) (past : List FdpEvent)
    → IsRing c
    → log_events c ≡ take fdp_nr_events past
    → log_events (emit c m)
      ≡ take fdp_nr_events
          (if is_enabled (m.type % 2 ^ 8) c.events then recorded m ∷ past else past)
log_events-emit_past c m past v e =
    log_events-emit c m v ∙ elim (Bool-cases (is_enabled (m.type % 2 ^ 8) c.events)) [
      | inl on ↦
          rw (on, e) (ap (◌∷◌ (recorded m)) (take-take_le 62 fdp_nr_events past (omega arith)))
      | inr off ↦ rw off e
    ]

log_events-emit_all :
    (ms : List Emission) (c : FdpCtx) (es : List EventSetting) (past : List FdpEvent)
    → IsRing c
    → c.events ≡ es
    → log_events c ≡ take fdp_nr_events past
    → log_events (emit_all c ms) ≡ take fdp_nr_events (history es ms past)
unfolding emit_all history
log_events-emit_all [] c es past v s e = e
log_events-emit_all (m ∷ ms) c es past v s e =
    log_events-emit_all ms (emit c m) es
      (if is_enabled (m.type % 2 ^ 8) es then recorded m ∷ past else past) (emit-IsRing c m v)
      (emit-events c m ∙ s) (rw (← s) (log_events-emit_past c m past v e))

pub fdp_init_ctx-IsRing : (c : FdpCtx) (runs : ℕ) → IsRing (fdp_init_ctx c runs)
unfolding fdp_init_ctx
fdp_init_ctx-IsRing c runs = record {
  ring_full = refl;
  head_in = omega arith;
  count_in = omega arith;
}

log_events-init : (c : FdpCtx) (runs : ℕ) → log_events (fdp_init_ctx c runs) ≡ []
unfolding fdp_init_ctx log_events
log_events-init c runs = refl

-- After `fdp_init_ctx` and any calls of `fdp_emit_event`, the log shows the events of enabled types,
-- newest first, up to the size of the ring: no event is lost before FDP_NR_EVENTS newer ones.
pub log_events-history :
    (c : FdpCtx) (runs : ℕ) (ms : List Emission)
    → log_events (emit_all (fdp_init_ctx c runs) ms) ≡ take fdp_nr_events (history c.events ms [])
unfolding fdp_init_ctx
log_events-history c runs ms =
    log_events-emit_all ms (fdp_init_ctx c runs) c.events [] (fdp_init_ctx-IsRing c runs) refl
      (log_events-init c runs)
