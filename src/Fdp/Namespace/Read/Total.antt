-- ===== src/Fdp/Namespace/Read/Total.antt =====
-- fdp_ftl.c: `fdp_read` as a whole: its time, its result and the state after it.
use nvmevirt_fdp.Prelude.{
  ℕ, ◌+◌, ◌-◌, ◌/◌, ◌%◌, ◌≤◌, ◌≡◌, Bool, true, false, not, ◌&&◌, ◌||◌, inl, refl, arith, ltb, leb,
  ◌==◌, for_range, for_range-Returns, Returns, returns, Returns-bind, Returns-if, if-rule,
}
use nvmevirt_fdp.Ssd.Config.{SsdParams}
use nvmevirt_fdp.Ssd.Address.{Ppa, mapped_ppa}
use nvmevirt_fdp.Ssd.Geometry.{valid_ppa}
use nvmevirt_fdp.Ssd.Channel.Laws.{IsChannel}
use nvmevirt_fdp.Ssd.Nand.{SsdTime}
use nvmevirt_fdp.Ssd.Nand.Laws.{IsTime, IsTiming, ssd_advance_nand-IsTime}
use nvmevirt_fdp.Fdp.Namespace.{NvmevRequest, NvmevResult, Ns, part_time, set_time, nvme_sc_success}
use nvmevirt_fdp.Fdp.Namespace.Write.{end_lpn}
use nvmevirt_fdp.Fdp.Namespace.Read.{
  Reading, ReadState, is_same_flash_page, issue_read, read_page, read_part, fdp_read,
}

-- The partitions have latency tables and valid time models.
pub record IsReady {Q : Type 0} (ns : Ns Q) : Type 0 where
  pub timing : (i : ℕ) → IsTiming (ns.ftls i).sp
  pub channels : (i c : ℕ) → IsChannel ((ns.times i).channels c)
  pub link : IsChannel ns.pcie

-- All that is stored stays: the partitions' tables, `fdp_ctx`, the write buffer and its releases.
pub record SameData {Q : Type 0} (ns ns' : Ns Q) : Type 0 where
  pub ftls : ns'.ftls ≡ ns.ftls
  pub ctx : ns'.ctx ≡ ns.ctx
  pub wbuf : ns'.wbuf ≡ ns.wbuf
  pub scheduled : ns'.scheduled ≡ ns.scheduled
  pub nr_parts : ns'.nr_parts ≡ ns.nr_parts

SameData-refl : {Q : Type 0} (ns : Ns Q) → SameData ns ns
SameData-refl ns = record {
  ftls = refl;
  ctx = refl;
  wbuf = refl;
  scheduled = refl;
  nr_parts = refl;
}

part_time-IsTime : {Q : Type 0} (ns : Ns Q) (i : ℕ) → IsReady ns → IsTime (part_time ns i)
part_time-IsTime ns i h = record { channels_valid = h.channels i; pcie_valid = h.link }

set_time-IsReady :
    {Q : Type 0} (ns : Ns Q) (i : ℕ) (t : SsdTime)
    → IsReady ns
    → IsTime t
    → IsReady (set_time ns i t)
set_time-IsReady ns i t h k = record {
  timing = h.timing;
  channels = λ j.
      if-rule (λ (u : SsdTime). (c : ℕ) → IsChannel (u.channels c)) (i == j) t (ns.times j)
        k.channels_valid (h.channels j);
  link = k.pcie_valid;
}

-- The invariant of the inner loop, begun at time `since`.
abbrev IsReading : ℕ → Reading → Type 0
IsReading since r = IsTime r.time × (since ≤ r.nsecs_latest)

issue_read-IsReading :
    (sp : SsdParams) (stime since : ℕ) (r : Reading)
    → IsTiming sp
    → IsReading since r
    → Returns (IsReading since) (issue_read sp stime r)
unfolding issue_read
issue_read-IsReading sp stime since r k h =
    Returns-if (ltb 0 r.xfer_size)
      (λ e.
        Returns-bind (ssd_advance_nand-IsTime sp _ r.time k (inl (ground arith)) h.0)
          λ d t. returns (t, omega (arith, h.1)))
      (λ _. returns h)

read_page-IsReading :
    (sp : SsdParams) (stime since : ℕ) (p : Ppa) (r : Reading)
    → IsTiming sp
    → IsReading since r
    → Returns (IsReading since) (read_page sp stime p r)
unfolding read_page
read_page-IsReading sp stime since p r k h =
    Returns-if (not (mapped_ppa p) || not (valid_ppa sp p)) (λ _. returns h)
      λ _.
        Returns-if (mapped_ppa r.prev_ppa && is_same_flash_page sp p r.prev_ppa) (λ _. returns h)
          λ _. Returns-bind (issue_read-IsReading sp stime since r k h) λ r' h'. returns h'

module _ {Q : Type 0} where
  -- The invariant of the outer loop.
  abbrev IsServing : ℕ → Ns Q → ReadState Q → Type 0
  IsServing since ns s = IsReady s.ns × SameData ns s.ns × (since ≤ s.nsecs_latest)

  read_part-IsServing :
      (since stime end start : ℕ) (ns : Ns Q) (s : ReadState Q)
      → IsServing since ns s
      → Returns (IsServing since ns) (read_part stime end start s)
  unfolding read_part
  read_part-IsServing since stime end start ns s h =
      let k = h.0.timing (start % s.ns.nr_parts) in
      Returns-bind
        (for_range-Returns (λ _. IsReading since) _ ((end - start) / s.ns.nr_parts + 1)
          (λ i r _ v. read_page-IsReading _ stime since _ r k v) ((end - start) / s.ns.nr_parts + 1)
          0 _ (omega arith) (part_time-IsTime s.ns (start % s.ns.nr_parts) h.0, h.2))
        λ r1 v1. Returns-bind (issue_read-IsReading _ stime since r1 k v1) λ r2 v2. returns (
          set_time-IsReady s.ns _ r2.time h.0 v2.0,
          record {
            ftls = h.1.ftls;
            ctx = h.1.ctx;
            wbuf = h.1.wbuf;
            scheduled = h.1.scheduled;
            nr_parts = h.1.nr_parts;
          },
          v2.1,
        )

  read_parts-IsServing :
      (since stime end start n : ℕ) (ns : Ns Q) (s : ReadState Q)
      → IsServing since ns s
      → Returns (IsServing since ns) (for_range n start (read_part stime end) s)
  read_parts-IsServing since stime end start n ns s h =
      for_range-Returns (λ _. IsServing since ns) (read_part stime end) (start + n)
        (λ i s' _ v. read_part-IsServing since stime end i ns s' v) n start s refl h

  -- What a read of a ready namespace answers.
  pub record Served (ns : Ns Q) (req : NvmevRequest) (ret : NvmevResult)
      (r : Bool × NvmevResult × Ns Q) : Type 0 where
    pub ready : IsReady r.2
    pub same : SameData ns r.2
    pub taken : r.0 ≡ ltb (end_lpn (ns.ftls 0).sp req.cmd / ns.nr_parts) (ns.ftls 0).sp.tt_pgs
    pub refused : r.0 ≡ false → r.1 ≡ ret
    pub done : r.0 ≡ true → (r.1.status ≡ nvme_sc_success) × (req.nsecs_start ≤ r.1.nsecs_target)

  -- A read of a namespace whose partitions have latency tables and valid time models completes: it is
  -- taken exactly if the last page lies in the device; then it succeeds, at a time not before its start;
  -- otherwise the result is left as it was. Nothing changes but the time models, which stay valid: the
  -- partitions' tables, fdp_ctx, the write buffer and the scheduled releases are the same.
  pub fdp_read-Served :
      (ns : Ns Q) (req : NvmevRequest) (ret : NvmevResult)
      → IsReady ns
      → Returns (Served ns req ret) (fdp_read ns req ret)
  unfolding fdp_read
  fdp_read-Served ns req ret h =
      Returns-if (leb (ns.ftls 0).sp.tt_pgs (end_lpn (ns.ftls 0).sp req.cmd / ns.nr_parts))
        (λ e. returns (record {
          ready = h;
          same = SameData-refl ns;
          taken = ground arith;
          refused = λ _. refl;
          done = λ e'. absurd (cc e');
        }))
        (λ e.
          let in_range : true
              ≡ ltb (end_lpn (ns.ftls 0).sp req.cmd / ns.nr_parts) (ns.ftls 0).sp.tt_pgs =
            ground arith in
          Returns-bind
            (read_parts-IsServing req.nsecs_start _ _ _ _ ns
              (record { nsecs_latest = req.nsecs_start; ns = ns })
              (h, SameData-refl ns, omega arith))
            λ s v.
              returns
                {a = (
                  true,
                  record { status = nvme_sc_success; nsecs_target = s.nsecs_latest },
                  s.ns,
                )}
                (record {
                  ready = v.0;
                  same = v.1;
                  taken = in_range;
                  refused = λ e'. absurd (cc e');
                  done = λ _. (refl, v.2);
                }))
