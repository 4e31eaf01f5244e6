-- ===== src/Zns/Read/Total.antt =====
-- zns_read_write.c: `zns_read` as a whole: its status, its time and the state after it.
use nvmevirt_fdp.Prelude.{
  ℕ, zero, suc, ◌+◌, ◌-◌, ◌*◌, ◌^◌, ◌≤◌, ◌<◌, ◌≡◌, ◌≢◌, refl, inl, inr, true, false, arith, leb,
  Bool-cases, times-le, Returns, returns, Returns-bind,
}
use nvmevirt_fdp.Ssd.Config.{u32, u64}
use nvmevirt_fdp.Ssd.Address.{Ppa}
use nvmevirt_fdp.Ssd.Nand.Laws.{IsTime, IsTiming, ssd_advance_nand-IsTime, ssd_advance_pcie-IsTime}
use nvmevirt_fdp.Fdp.Namespace.{NvmevRequest, nvme_sc_success}
use nvmevirt_fdp.Fdp.Namespace.Write.{nr_lba}
use nvmevirt_fdp.Zns.State.{
  ZoneState, offline, ZoneDesc, ZnsFtl, lba_to_lpn, lba_to_zone, lpn_to_zone,
}
use nvmevirt_fdp.Zns.Send.{err_boundary, err_offline}
use nvmevirt_fdp.Zns.Io.{ZnsResult, ZnsReply, check_boundary_error, lpn_to_ppa, pages_of_group}
use nvmevirt_fdp.Zns.Read.{ZnsReading, is_offline, read_pages, read_latency, read_status, zns_read}

-- A flash page has bytes, and their number fits.
pub record IsReadable (f : ZnsFtl) : Type 0 where
  pub timing : IsTiming f.sp
  pub page : 0 < f.sp.pgsz
  pub flashpg_fits : f.sp.pgs_per_flashpg * f.sp.pgsz < 2 ^ 64
  pub time : IsTime f.time

-- The invariant of the loop, begun at time `since`.
abbrev IsReading : ℕ → ZnsReading → Type 0
IsReading since r = IsTime r.time × (since ≤ r.nsecs_latest)

-- A round is of one page at least and of one flash page at most.
pages_lem :
    (size left : ℕ) (p : Ppa)
    → 0 < size
    → size < 2 ^ 64
    → 0 < left
    → (0 < pages_of_group size p left) × (pages_of_group size p left ≤ size)
pages_lem size left p h k l = omega arith

fits_page : (size pgsz : ℕ) → 0 < pgsz → size * pgsz < 2 ^ 64 → size < 2 ^ 64
fits_page size pgsz h k = grind arith

bytes_pos :
    (pgs size pgsz : ℕ)
    → 0 < pgs
    → pgs ≤ size
    → 0 < pgsz
    → size * pgsz < 2 ^ 64
    → 0 < u64 (pgs * pgsz)
bytes_pos pgs size pgsz h k l m = omega (arith, times-le pgs size pgsz k, times-le 1 pgs pgsz h)

read_pages-IsReading :
    (f : ZnsFtl) (since stime elpn : ℕ)
    → IsReadable f
    → (fuel lpn : ℕ) (r : ZnsReading) → elpn + 1 ≤ lpn + fuel
    → IsReading since r
    → Returns (IsReading since) (read_pages fuel f stime elpn lpn r)
unfolding read_pages
read_pages-IsReading f since stime elpn k zero lpn r e h =
    let stop : leb lpn elpn ≡ false = ground arith in rw (stop, read_pages) (returns h)
read_pages-IsReading f since stime elpn k (suc fuel) lpn r e h =
    let size = f.sp.pgs_per_flashpg in
    let fits = fits_page size f.sp.pgsz k.page k.flashpg_fits in
    elim (Bool-cases (leb lpn elpn)) [
      | inr x ↦ rw (x, read_pages) (returns h)
      | inl x ↦
          let pgs =
            pages_lem size (elpn - lpn + 1) (lpn_to_ppa f lpn) k.timing.flashpg_pos fits
              (omega arith) in
          rw (x, read_pages)
            (Returns-bind
              (ssd_advance_nand-IsTime f.sp _ r.time k.timing
                (inl (bytes_pos _ size f.sp.pgsz pgs.0 pgs.1 k.page k.flashpg_fits)) h.0)
              λ c t.
                read_pages-IsReading f since stime elpn k fuel _ _ (omega (arith, pgs.0))
                  (t, omega (arith, h.1)))
    ]

-- The zone of the first page of a read, and the last block.
abbrev read_zone : ZnsFtl → NvmevRequest → ZoneDesc
read_zone f req = f.zone_descs (lpn_to_zone f (lba_to_lpn f req.cmd.slba))

abbrev last_lba : NvmevRequest → ℕ
last_lba req = u64 (req.cmd.slba + nr_lba req.cmd + 2 ^ 64 - 1)

online : (s : ZoneState) → s ≢ offline → is_offline s ≡ false
online offline n = absurd (n refl)
online _ n = refl

offline-status :
    (f : ZnsFtl) (req : NvmevRequest)
    → (read_zone f req).state ≡ offline
    → read_status f req ≡ err_offline
offline-status f req e = rw (e, read_status) refl

crossing-status :
    (f : ZnsFtl) (req : NvmevRequest)
    → (read_zone f req).state ≢ offline
    → nr_lba req.cmd < 2 ^ 32
    → lba_to_zone f req.cmd.slba ≢ lba_to_zone f (last_lba req)
    → read_status f req ≡ err_boundary
crossing-status f req n fits apart =
    let count : u32 (nr_lba req.cmd) ≡ nr_lba req.cmd = omega arith in
    let e : check_boundary_error f req.cmd.slba (nr_lba req.cmd) ≡ false =
      rw count (ground arith) in
    rw (online (read_zone f req).state n, e) refl

success-status :
    (f : ZnsFtl) (req : NvmevRequest)
    → (read_zone f req).state ≢ offline
    → nr_lba req.cmd < 2 ^ 32
    → lba_to_zone f req.cmd.slba ≡ lba_to_zone f (last_lba req)
    → read_status f req ≡ nvme_sc_success
success-status f req n fits same =
    let count : u32 (nr_lba req.cmd) ≡ nr_lba req.cmd = omega arith in
    let e : check_boundary_error f req.cmd.slba (nr_lba req.cmd) ≡ true = rw count (ground arith) in
    rw (online (read_zone f req).state n, e) refl

-- What a read answers.
pub record ZnsServed (f : ZnsFtl) (req : NvmevRequest) (ret : ZnsResult) (r : ZnsReply)
    : Type 0 where
  pub taken : r.taken ≡ true
  pub offline_fails : (read_zone f req).state ≡ offline → r.ret.status ≡ err_offline
  pub crossing_fails :
      (read_zone f req).state ≢ offline
      → lba_to_zone f req.cmd.slba ≢ lba_to_zone f (last_lba req)
      → r.ret.status ≡ err_boundary
  pub succeeds :
      (read_zone f req).state ≢ offline
      → lba_to_zone f req.cmd.slba ≡ lba_to_zone f (last_lba req)
      → r.ret.status ≡ nvme_sc_success
  pub later : u64 (req.nsecs_start + read_latency f req) ≤ r.ret.nsecs_target
  pub time : IsTime r.ftl.time
  pub same : r.ftl ≡ record f { time = r.ftl.time }
  pub slba : r.slba ≡ req.cmd.slba
  pub result : r.ret.result ≡ ret.result

rounds : (elpn slpn : ℕ) → elpn + 1 ≤ slpn + (elpn + 1 - slpn)
rounds elpn slpn = omega arith

-- A read of a device with latency tables and a valid time model, of a number of blocks of 32 bits, is taken and completes, not before its
-- start and the firmware's time: if the zone of its first page is offline it fails with Zone Is Offline;
-- else, if its first and its last block are not of one zone, with Zone Boundary Error; else it
-- succeeds. It changes nothing but the time model, which stays valid.
pub zns_read-ZnsServed :
    (f : ZnsFtl) (req : NvmevRequest) (ret : ZnsResult)
    → IsReadable f
    → nr_lba req.cmd < 2 ^ 32
    → Returns (ZnsServed f req ret) (zns_read f req ret)
unfolding zns_read
zns_read-ZnsServed f req ret k fits =
    let slpn = lba_to_lpn f req.cmd.slba in
    let elpn = lba_to_lpn f (u64 (req.cmd.slba + nr_lba req.cmd + 2 ^ 64 - 1)) in
    let stime = u64 (req.nsecs_start + read_latency f req) in
    Returns-bind
      (read_pages-IsReading f stime stime elpn k (elpn + 1 - slpn) slpn
        (record { nsecs_latest = stime; time = f.time }) (rounds elpn slpn) (k.time, omega arith))
      λ r v.
        Returns-bind
          (ssd_advance_pcie-IsTime r.time r.nsecs_latest (u64 (nr_lba req.cmd * f.sp.secsz)) v.0)
          λ c t. returns (record {
            taken = refl;
            offline_fails = λ e. offline-status f req e;
            crossing_fails = λ n e. crossing-status f req n fits e;
            succeeds = λ n e. success-status f req n fits e;
            later = omega (arith, v.1);
            time = t;
            same = refl;
            slba = refl;
            result = refl;
          })
