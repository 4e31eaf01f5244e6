-- ===== src/Ssd/Nand/Sending.antt =====
-- ssd.c: the times of a transfer over a channel and the PCIe link, and of the parts of a read.
use nvmevirt_fdp.Prelude.{
  ℕ, zero, suc, ◌+◌, ◌-◌, ◌*◌, ◌^◌, ◌≤◌, ◌<◌, ◌≡◌, refl, ◌∙◌, arith, min, Bool, ◌==◌, if-rule,
  Returns, returns, Returns-if, Returns-bind, Returns-map, Returns-Ensures, Ensures-Returns,
}
use nvmevirt_fdp.Ssd.Config.{SsdParams}
use nvmevirt_fdp.Ssd.Channel.{nr_credit_entries, unit_time_interval}
use nvmevirt_fdp.Ssd.Channel.Laws.{IsChannel, chmodel_request-IsChannel, chmodel_request-IsTimely}
use nvmevirt_fdp.Ssd.Nand.{
  SsdTime, read_clock, advance_channel, ssd_advance_pcie, Sent, send_part, send_parts,
}
use nvmevirt_fdp.Ssd.Nand.Laws.{IsTime}

-- The most that one transfer adds to its start: 32 bits of transfer time, and a turn of the ring.
abbrev pub transfer_bound : ℕ
transfer_bound = 2 ^ 32 + nr_credit_entries * unit_time_interval

-- The time after a transfer that was asked for at `since`.
abbrev pub IsWithin : ℕ → ℕ → Type 0
IsWithin since time = (since ≤ time) × (time ≤ since + transfer_bound)

pub advance_channel-IsWithin :
    (t : SsdTime) (c request_time len : ℕ)
    → IsTime t
    → request_time < 2 ^ 63
    → Returns
        (λ r. IsTime r.1 × IsWithin request_time r.0 × (r.1.luns ≡ t.luns))
        (advance_channel t c request_time len)
unfolding advance_channel read_clock
advance_channel-IsWithin t c request_time len v h =
    Returns-bind
      (Returns-Ensures
        (chmodel_request-IsChannel (t.channels c) _ request_time len (v.channels_valid c))
        (Ensures-Returns
          (chmodel_request-IsTimely (t.channels c) _ request_time len (v.channels_valid c) h)))
      λ r w. returns (
        record {
          channels_valid = λ d. if-rule IsChannel (c == d) _ _ w.0 (v.channels_valid d);
          pcie_valid = v.pcie_valid;
        },
        (w.1.0, omega (arith, w.1.1)),
        refl,
      )

ssd_advance_pcie-IsWithin :
    (t : SsdTime) (request_time len : ℕ)
    → IsTime t
    → request_time < 2 ^ 63
    → Returns
        (λ r. IsTime r.1 × IsWithin request_time r.0 × (r.1.luns ≡ t.luns))
        (ssd_advance_pcie t request_time len)
unfolding ssd_advance_pcie read_clock
ssd_advance_pcie-IsWithin t request_time len v h =
    Returns-bind
      (Returns-Ensures (chmodel_request-IsChannel t.pcie _ request_time len v.pcie_valid)
        (Ensures-Returns (chmodel_request-IsTimely t.pcie _ request_time len v.pcie_valid h)))
      λ r w. returns (
        record { channels_valid = v.channels_valid; pcie_valid = w.0 },
        (w.1.0, omega (arith, w.1.1)),
        refl,
      )

pub same : (n : ℕ) → n ≤ n
same n = omega arith

-- What a part of a read leaves: the LUNs as they were, and times that follow one another.
pub record IsSent (t : SsdTime) (since : ℕ) (s : Sent) : Type 0 where
  pub time : IsTime s.time
  pub later : since ≤ s.chnl_etime
  pub answered : s.chnl_etime ≤ s.completed
  pub luns : s.time.luns ≡ t.luns

send_part-IsSent :
    (t : SsdTime) (interleave : Bool) (c chnl_stime xfer_size : ℕ)
    → IsTime t
    → chnl_stime < 2 ^ 62
    → Returns
        (λ s. IsSent t chnl_stime s × (s.chnl_etime ≤ chnl_stime + transfer_bound))
        (send_part t interleave c chnl_stime xfer_size)
unfolding send_part
send_part-IsSent t interleave c chnl_stime xfer_size v h =
    Returns-bind (advance_channel-IsWithin t c chnl_stime xfer_size v (omega arith)) λ r w.
      Returns-bind {P = λ (u : ℕ × SsdTime). IsTime u.1 × (r.0 ≤ u.0) × (u.1.luns ≡ r.1.luns)}
        (Returns-if interleave
          (λ _.
            Returns-map (ssd_advance_pcie-IsWithin r.1 r.0 xfer_size w.0 (omega (arith, w.1.1)))
              λ u z. (z.0, z.1.0, z.2))
          (λ _. returns {a = (r.0, r.1)} (w.0, same r.0, refl)))
        λ u z.
          returns (record { time = z.0; later = w.1.0; answered = z.1; luns = z.2 ∙ w.2 }, w.1.1)

pub send_parts-IsSent :
    (fuel : ℕ) (sp : SsdParams) (interleave : Bool) (c remaining chnl_stime : ℕ) (t : SsdTime)
    → 0 < sp.max_ch_xfer_size
    → 0 < remaining
    → remaining ≤ fuel
    → IsTime t
    → chnl_stime + fuel * transfer_bound < 2 ^ 62
    → Returns (IsSent t chnl_stime) (send_parts fuel sp interleave c remaining chnl_stime t)
unfolding send_parts
send_parts-IsSent zero sp interleave c remaining chnl_stime t m h f v b = absurd (omega arith)
send_parts-IsSent (suc fuel) sp interleave c remaining chnl_stime t m h f v b =
    Returns-bind
      (send_part-IsSent t interleave c chnl_stime (min remaining sp.max_ch_xfer_size) v
        (omega arith))
      λ s w.
        Returns-if (remaining - min remaining sp.max_ch_xfer_size == 0) (λ _. returns w.0)
          λ more.
            Returns-map
              (send_parts-IsSent fuel sp interleave c
                (remaining - min remaining sp.max_ch_xfer_size) s.chnl_etime s.time m (ground arith)
                (ground arith) w.0.time (omega (arith, w.1)))
              λ r z. record {
                time = z.time;
                later = omega (arith, w.0.later, z.later);
                answered = z.answered;
                luns = z.luns ∙ w.0.luns;
              }
