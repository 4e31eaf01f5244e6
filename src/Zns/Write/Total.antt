-- ===== src/Zns/Write/Total.antt =====
-- zns_read_write.c: `__zns_write` as a whole: its rounds, and what it leaves.
use nvmevirt_fdp.Prelude.{
  ℕ, zero, suc, ◌+◌, ◌-◌, ◌^◌, ◌≤◌, ◌<◌, ◌≡◌, refl, sym, ap, subst, inl, inr, false, arith, leb,
  Bool-cases, List, Returns, returns, Returns-bind, Returns-if,
}
use nvmevirt_fdp.Ssd.Config.{u64}
use nvmevirt_fdp.Ssd.Address.{Ppa}
use nvmevirt_fdp.Ssd.Nand.{SsdTime, ssd_advance_write_buffer}
use nvmevirt_fdp.Ssd.Nand.Laws.{IsTime, IsTiming, ssd_advance_nand-IsTime, ssd_advance_pcie-IsTime}
use nvmevirt_fdp.Fdp.Namespace.{NvmevRequest}
use nvmevirt_fdp.Fdp.Namespace.Write.{nr_lba}
use nvmevirt_fdp.Zns.State.{ZnsFtl, ZnsRelease, lba_to_lpn, zone_to_elpn, BufferRef}
use nvmevirt_fdp.Zns.Io.{lpn_to_ppa, pages_of_group}
use nvmevirt_fdp.Zns.Write.{
  Programming, buffer_of_zone, fills_oneshot, program_oneshot, program_pages, write_pages,
  write_data,
}

-- Only the time model and the scheduled releases differ.
abbrev pub SameZones : ZnsFtl → ZnsFtl → Type 0
SameZones f g = g ≡ record f { time = g.time; scheduled = g.scheduled }

-- The state of the loop that begins at `f`, no earlier than `since`.
pub record IsProgramming (f : ZnsFtl) (since : ℕ) (w : Programming) : Type 0 where
  pub same : SameZones f w.ftl
  pub time : IsTime w.ftl.time
  pub later : since ≤ w.nsecs_latest

same_sp : (f : ZnsFtl) (since : ℕ) (w : Programming) → IsProgramming f since w → w.ftl.sp ≡ f.sp
same_sp f since w h = ap (λ (g : ZnsFtl). g.sp) h.same

reset_time :
    (f g : ZnsFtl) (t : SsdTime) (s : List ZnsRelease)
    → SameZones f g
    → SameZones f (record g { time = t; scheduled = s })
reset_time f g t s h = ap (λ (x : ZnsFtl). record x { time = t; scheduled = s }) h

program_oneshot-IsProgramming :
    (f : ZnsFtl) (since : ℕ) (req : NvmevRequest) (b : BufferRef) (buffs stime lpn : ℕ)
    (w : Programming)
    → IsTiming f.sp
    → IsProgramming f since w
    → Returns (IsProgramming f since) (program_oneshot req b buffs stime lpn w)
unfolding program_oneshot
program_oneshot-IsProgramming f since req b buffs stime lpn w k h =
    Returns-bind
      (ssd_advance_nand-IsTime w.ftl.sp _ w.ftl.time (subst IsTiming (sym (same_sp f since w h)) k)
        (inr (ground arith)) h.time)
      λ r t. returns (record {
        same = reset_time f w.ftl r.1 _ h.same;
        time = t;
        later = omega (arith, h.later);
      })

program_pages-IsProgramming :
    (f : ZnsFtl) (since : ℕ) (req : NvmevRequest) (b : BufferRef) (stime zone_elpn lpn pgs : ℕ)
    (w : Programming)
    → IsTiming f.sp
    → IsProgramming f since w
    → Returns (IsProgramming f since) (program_pages req b stime zone_elpn lpn pgs w)
unfolding program_pages
program_pages-IsProgramming f since req b stime zone_elpn lpn pgs w k h =
    Returns-if (fills_oneshot w.ftl zone_elpn lpn pgs)
      (λ _. program_oneshot-IsProgramming f since req b _ stime lpn w k h) (λ _. returns h)

-- A round advances by a page at least.
progress :
    (size left : ℕ) (p : Ppa) → 0 < size → size < 2 ^ 64 → 0 < left → 0 < pages_of_group size p left
progress size left p h k l = omega arith

-- The rounds that are left are no more than the pages.
write_pages-IsProgramming :
    (f : ZnsFtl) (since : ℕ) (req : NvmevRequest) (b : BufferRef) (stime zone_elpn elpn : ℕ)
    → IsTiming f.sp
    → 0 < f.sp.pgs_per_oneshotpg
    → f.sp.pgs_per_oneshotpg < 2 ^ 64
    → (fuel lpn : ℕ) (w : Programming) → elpn + 1 ≤ lpn + fuel
    → IsProgramming f since w
    → Returns (IsProgramming f since) (write_pages fuel req b stime zone_elpn elpn lpn w)
unfolding write_pages
write_pages-IsProgramming f since req b stime zone_elpn elpn k p p' zero lpn w e h =
    let stop : leb lpn elpn ≡ false = ground arith in rw (stop, write_pages) (returns h)
write_pages-IsProgramming f since req b stime zone_elpn elpn k p p' (suc fuel) lpn w e h =
    elim (Bool-cases (leb lpn elpn)) [
      | inr x ↦ rw (x, write_pages) (returns h)
      | inl x ↦
          let pos : 0
              < pages_of_group w.ftl.sp.pgs_per_oneshotpg (lpn_to_ppa w.ftl lpn) (elpn - lpn + 1) =
            progress w.ftl.sp.pgs_per_oneshotpg (elpn - lpn + 1) (lpn_to_ppa w.ftl lpn)
              (rw (same_sp f since w h) p) (rw (same_sp f since w h) p') (omega arith) in
          rw (x, write_pages)
            (Returns-bind (program_pages-IsProgramming f since req b stime zone_elpn lpn _ w k h)
              λ w' h'.
                write_pages-IsProgramming f since req b stime zone_elpn elpn k p p' fuel _ w'
                  (omega (arith, pos)) h')
    ]

-- A write of a device with these parameters ends.
pub record IsWritable (f : ZnsFtl) : Type 0 where
  pub timing : IsTiming f.sp
  pub oneshot : 0 < f.sp.pgs_per_oneshotpg
  pub oneshot_fits : f.sp.pgs_per_oneshotpg < 2 ^ 64
  pub time : IsTime f.time

begins :
    (f : ZnsFtl) (since : ℕ) (t : SsdTime)
    → IsTime t
    → IsProgramming f since (record { nsecs_latest = since; ftl = record f { time = t } })
begins f since t v = record { same = refl; time = v; later = omega arith }

rounds : (elpn slpn : ℕ) → elpn + 1 ≤ slpn + (elpn + 1 - slpn)
rounds elpn slpn = omega arith

pub write_data-IsProgramming :
    (f : ZnsFtl) (req : NvmevRequest) (zid slba : ℕ)
    → IsWritable f
    → Returns (λ r. IsProgramming f r.0 r.1) (write_data f req zid slba)
unfolding write_data ssd_advance_write_buffer
write_data-IsProgramming f req zid slba h =
    let slpn = lba_to_lpn f slba in
    let elpn = lba_to_lpn f (u64 (slba + nr_lba req.cmd + 2 ^ 64 - 1)) in
    Returns-bind (ssd_advance_pcie-IsTime f.time _ _ h.time) λ r t.
      Returns-bind
        (write_pages-IsProgramming f r.0 req (buffer_of_zone f zid) r.0 (zone_to_elpn f zid) elpn
          h.timing h.oneshot h.oneshot_fits (elpn + 1 - slpn) slpn _ (rounds elpn slpn)
          (begins f r.0 r.1 t))
        λ w v. returns v
