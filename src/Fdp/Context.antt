-- ===== src/Fdp/Context.antt =====
-- fdp_ftl.c: the endurance-group state `fdp_ctx`, its event ring, the log pages and the feature
-- FDP Events; nvme_fdp.h: their constants and wire formats. The state is touched on the dispatcher
-- thread only, so each function runs by itself. `local_clock()` is an argument of the functions.
pub mod Ring
pub mod Features
use nvmevirt_fdp.Prelude.{
  ℕ, zero, suc, ◌+◌, ◌-◌, ◌*◌, ◌/◌, ◌%◌, ◌^◌, Bool, true, false, Option, some, none, List, [], ◌∷◌,
  map, min, ltb, ◌==◌, if◌then◌else◌, get_or, set, take, replicate,
}
use nvmevirt_fdp.Ssd.Config.{u32, u64, fdp_nr_ruh, fdp_nr_events}

-- NVME_FDP_EVT_*.
abbrev pub evt_ru_not_fully_written : ℕ
evt_ru_not_fully_written = 0x0

abbrev pub evt_invalid_pid : ℕ
evt_invalid_pid = 0x3

abbrev pub evt_implicit_modified_ru : ℕ
evt_implicit_modified_ru = 0x81

-- NVME_FDP_EVENT_F_*.
abbrev pub event_f_piv : ℕ
event_f_piv = 1

abbrev pub event_f_nsidv : ℕ
event_f_nsidv = 2

-- NVME_FDP_RUHA_*.
abbrev pub ruha_unused : ℕ
ruha_unused = 0

abbrev pub ruha_host : ℕ
ruha_host = 1

abbrev pub ruha_ctrl : ℕ
ruha_ctrl = 2

-- `struct nvme_fdp_event`; the bytes that it reserves are 0.
pub record FdpEvent : Type 0 where
  pub type : ℕ
  pub flags : ℕ
  pub pid : ℕ
  pub timestamp : ℕ
  pub nsid : ℕ

abbrev pub no_event : FdpEvent
no_event = record { type = 0; flags = 0; pid = 0; timestamp = 0; nsid = 0 }

-- An element of `fdp_ctx.events`.
pub record EventSetting : Type 0 where
  pub type : ℕ
  pub enabled : Bool

pub record FdpCtx : Type 0 where
  pub hbmw : ℕ
  pub mbmw : ℕ
  pub mbe : ℕ
  pub runs : ℕ
  pub ruh_attr : List ℕ
  pub events : List EventSetting
  pub ring : List FdpEvent
  pub ring_head : ℕ
  pub nr_events : ℕ

-- The static initialiser of `fdp_ctx`.
abbrev pub initial_events : List EventSetting
initial_events =
    record { type = evt_ru_not_fully_written; enabled = false }
    ∷ record { type = evt_invalid_pid; enabled = false }
    ∷ record { type = evt_implicit_modified_ru; enabled = false }
    ∷ []

unfoldable pub fdp_ctx : FdpCtx
fdp_ctx = record {
  hbmw = 0;
  mbmw = 0;
  mbe = 0;
  runs = 0;
  ruh_attr = replicate fdp_nr_ruh 0;
  events = initial_events;
  ring = replicate fdp_nr_events no_event;
  ring_head = 0;
  nr_events = 0;
}

-- `fdp_init_ctx`. The settings in `events` are kept.
unfoldable pub fdp_init_ctx : FdpCtx → ℕ → FdpCtx
fdp_init_ctx c runs = record c {
  hbmw = 0;
  mbmw = 0;
  mbe = 0;
  runs = runs;
  ruh_attr = replicate fdp_nr_ruh ruha_unused;
  ring = replicate fdp_nr_events no_event;
  ring_head = 0;
  nr_events = 0;
}

-- The search of `fdp_emit_event`: the first setting of the type decides.
unfoldable pub is_enabled : ℕ → List EventSetting → Bool
is_enabled type [] = false
is_enabled type (e ∷ es) = if e.type == type then e.enabled else is_enabled type es

-- The record is written at `ring_head`, over the oldest one if the ring is full.
unfoldable pub push_event : FdpCtx → FdpEvent → FdpCtx
push_event c e = record c {
  ring = set c.ring c.ring_head e;
  ring_head = u32 (c.ring_head + 1) % fdp_nr_events;
  nr_events = if ltb c.nr_events fdp_nr_events then c.nr_events + 1 else c.nr_events;
}

-- `fdp_emit_event`, with the parameter widths `uint8_t`, `uint16_t` and `uint32_t`.
unfoldable pub fdp_emit_event : FdpCtx → ℕ → ℕ → ℕ → ℕ → ℕ → FdpCtx
unfolding is_enabled push_event
fdp_emit_event c clock type flags pid nsid =
    if is_enabled (type % 2 ^ 8) c.events
    then push_event c (record {
      type = type % 2 ^ 8;
      flags = flags % 2 ^ 8;
      pid = pid % 2 ^ 16;
      timestamp = u64 clock;
      nsid = u32 nsid;
    })
    else c

-- The loop of the events log: the `i`-th newest record.
unfoldable pub newest : FdpCtx → ℕ → FdpEvent
newest c i = get_or c.ring (u32 (c.ring_head + fdp_nr_events - 1 - i) % fdp_nr_events) no_event

unfoldable pub newest_from : FdpCtx → ℕ → ℕ → List FdpEvent
unfolding newest
newest_from c i zero = []
newest_from c i (suc n) = newest c i ∷ newest_from c (i + 1) n

unfoldable pub log_events : FdpCtx → List FdpEvent
unfolding newest_from
log_events c = newest_from c 0 c.nr_events

-- `struct nvme_fdp_supported_event_desc`.
pub record EventDesc : Type 0 where
  pub evt : ℕ
  pub evta : ℕ

unfoldable pub desc_of : EventSetting → EventDesc
desc_of e = record { evt = e.type; evta = if e.enabled then 1 else 0 }

-- `fdp_get_feature_events`: the result, and what is written to the buffer if there is one.
unfoldable pub fdp_get_feature_events : FdpCtx → Bool → ℕ × List EventDesc
unfolding desc_of
fdp_get_feature_events c has_buf = (3, if has_buf then map desc_of c.events else [])

-- One descriptor of `fdp_set_feature_events`, against every setting: the settings, and how many
-- matched.
unfoldable pub apply_desc : EventDesc → List EventSetting → List EventSetting × ℕ
apply_desc d [] = ([], 0)
apply_desc d (e ∷ es) =
    let (es', n) = apply_desc d es in
    if e.type == d.evt
    then (record { type = e.type; enabled = d.evta % 2 == 1 } ∷ es', n + 1)
    else (e ∷ es', n)

unfoldable pub apply_descs : List EventDesc → List EventSetting → List EventSetting × ℕ
unfolding apply_desc
apply_descs [] es = (es, 0)
apply_descs (d ∷ ds) es =
    let (es', n) = apply_desc d es in let (es'', m) = apply_descs ds es' in (es'', n + m)

-- `fdp_set_feature_events`. The buffer is the list of the descriptors that it holds: the code reads
-- as many as CDW11 says, `(dw11 >> 16) & 0xFF`.
unfoldable pub fdp_set_feature_events : FdpCtx → ℕ → Option (List EventDesc) → FdpCtx × ℕ
unfolding apply_descs
fdp_set_feature_events c dw11 none = (c, 0)
fdp_set_feature_events c dw11 (some buf) =
    let (es, n) = apply_descs (take (dw11 / 2 ^ 16 % 2 ^ 8) buf) c.events in
    (record c { events = es }, u32 n)
