-- ===== src/Fdp/Namespace/Write/Rejects.antt =====
-- fdp_ftl.c: writes to `fdp_write` that name a handle that does not exist.
use nvmevirt_fdp.Prelude.{
  ℕ, ◌+◌, ◌/◌, ◌%◌, ◌^◌, ◌<◌, ◌≡◌, Bool, true, false, refl, ap, arith, leb, ◌==◌, ◌∷◌, take,
  Bool-cases, inl, inr, Returns, returns, if◌then◌else◌,
}
use nvmevirt_fdp.Ssd.Config.{u32, u64, fdp_nr_events}
use nvmevirt_fdp.Ssd.Nand.{read_clock}
use nvmevirt_fdp.Fdp.Context.{
  FdpCtx, FdpEvent, fdp_emit_event, is_enabled, push_event, log_events, evt_invalid_pid,
  event_f_piv, event_f_nsidv,
}
use nvmevirt_fdp.Fdp.Context.Ring.{IsRing, log_events-push}
use nvmevirt_fdp.Fdp.Lines.{PQueue}
use nvmevirt_fdp.Fdp.Gc.{emit_now}
use nvmevirt_fdp.Fdp.Namespace.{NvmeCommand, NvmevRequest, NvmevResult, Ns, nvme_sc_invalid_field}
use nvmevirt_fdp.Fdp.Namespace.Write.{end_lpn, bad_pid, dspec, fdp_write}

if_same : {A : Type 0} (f : ℕ → A) (i j : ℕ) → (if i == j then f i else f j) ≡ f j
if_same f i j = elim (Bool-cases (i == j)) [
  | inl e ↦ let same : i ≡ j = ground arith in rw e (ap f same)
  | inr e ↦ rw e
]

-- The record of the event that a bad placement identifier emits.
abbrev pub invalid_pid : NvmeCommand → ℕ → FdpEvent
invalid_pid cmd now = record {
  type = evt_invalid_pid;
  flags = 3;
  pid = dspec cmd % 2 ^ 16;
  timestamp = u64 now;
  nsid = u32 cmd.nsid;
}

-- What `fdp_emit_event` leaves in the log.
log_events-emit :
    (c : FdpCtx) (cmd : NvmeCommand) (now : ℕ)
    → IsRing c
    → log_events
        (fdp_emit_event c now evt_invalid_pid (event_f_piv + event_f_nsidv) (dspec cmd) cmd.nsid)
      ≡ (if is_enabled evt_invalid_pid c.events
          then take fdp_nr_events (invalid_pid cmd now ∷ log_events c)
          else log_events c)
unfolding fdp_emit_event
log_events-emit c cmd now v = elim (Bool-cases (is_enabled evt_invalid_pid c.events)) [
  | inl e ↦ rw e (log_events-push c (invalid_pid cmd now) v)
  | inr e ↦ rw e
]

module _ (pq : PQueue) where
  -- What a rejected write answers and leaves.
  pub record Rejected (ns : Ns pq.Q) (req : NvmevRequest) (r : Bool × NvmevResult × Ns pq.Q)
      : Type 0 where
    pub taken : r.0 ≡ true
    pub status : r.1.status ≡ nvme_sc_invalid_field
    pub at_start : r.1.nsecs_target ≡ req.nsecs_start
    pub ftls : (i : ℕ) → r.2.ftls i ≡ ns.ftls i
    pub wbuf : r.2.wbuf ≡ ns.wbuf
    pub scheduled : r.2.scheduled ≡ ns.scheduled
    pub counters :
        (r.2.ctx.hbmw ≡ ns.ctx.hbmw) × (r.2.ctx.mbmw ≡ ns.ctx.mbmw) × (r.2.ctx.mbe ≡ ns.ctx.mbe)
    pub usage : r.2.ctx.ruh_attr ≡ ns.ctx.ruh_attr
    pub log : log_events r.2.ctx ≡ (
        if is_enabled evt_invalid_pid ns.ctx.events
        then take fdp_nr_events
            (invalid_pid req.cmd ((ns.times 0).clock ns.reads) ∷ log_events ns.ctx)
        else log_events ns.ctx)

  emit-counters :
      (c : FdpCtx) (now type flags pid nsid : ℕ)
      → let c' = fdp_emit_event c now type flags pid nsid in
        (c'.hbmw ≡ c.hbmw) × (c'.mbmw ≡ c.mbmw) × (c'.mbe ≡ c.mbe) × (c'.ruh_attr ≡ c.ruh_attr)
  unfolding fdp_emit_event push_event
  emit-counters c now type flags pid nsid = elim (Bool-cases (is_enabled (type % 2 ^ 8) c.events)) [
    | inl e ↦ rw e (refl, refl, refl, refl)
    | inr e ↦ rw e (refl, refl, refl, refl)
  ]

  -- A write within the device that names a reclaim unit handle past the last one is answered at its
  -- start with Invalid Field. The FTLs, the write buffer, the scheduled releases, the counts of
  -- written and erased bytes and the usage of the handles stay as they were; the event log gains a
  -- record of the identifier in front, dropping what does not fit, if that event is enabled.
  pub fdp_write-Rejected :
      (ns : Ns pq.Q) (req : NvmevRequest) (ret : NvmevResult)
      → IsRing ns.ctx
      → end_lpn (ns.ftls 0).sp req.cmd / ns.nr_parts < (ns.ftls 0).sp.tt_pgs
      → bad_pid req.cmd ≡ true
      → Returns (Rejected ns req) (fdp_write pq ns req ret)
  unfolding fdp_write emit_now read_clock
  fdp_write-Rejected ns req ret v inside bad =
      let in_range : leb (ns.ftls 0).sp.tt_pgs (end_lpn (ns.ftls 0).sp req.cmd / ns.nr_parts)
          ≡ false =
        ground arith in
      let counts =
        emit-counters ns.ctx ((ns.times 0).clock ns.reads) evt_invalid_pid
          (event_f_piv + event_f_nsidv) (dspec req.cmd) req.cmd.nsid in
      rw (in_range, bad)
        (returns (record {
          taken = refl;
          status = refl;
          at_start = refl;
          ftls = λ i. if_same ns.ftls 0 i;
          wbuf = refl;
          scheduled = refl;
          counters = (counts.0, counts.1, counts.2);
          usage = counts.3;
          log = log_events-emit ns.ctx req.cmd _ v;
        }))
