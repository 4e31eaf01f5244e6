-- ===== src/Ssd/Nand/Laws.antt =====
-- ssd.c: the invariant of the time model, and how NAND commands and PCIe transfers leave it.
use nvmevirt_fdp.Prelude.{
  ℕ, zero, suc, ◌-◌, ◌≤◌, ◌<◌, ◌≡◌, ◌≢◌, ◌⊎◌, refl, arith, min, Bool, true, false, ◌==◌,
  if◌then◌else◌, if-rule, List, length, get_elem?, [], ◌∷◌, some, Returns, returns, Returns-if,
  Returns-bind, Returns-assert,
}
use nvmevirt_fdp.Ssd.Config.{SsdParams, u32}
use nvmevirt_fdp.Ssd.Address.{Ppa, word, unmapped_ppa}
use nvmevirt_fdp.Ssd.Channel.Laws.{IsChannel, chmodel_init-IsChannel, chmodel_request-IsChannel}
use nvmevirt_fdp.Ssd.Channel.{bandwidth_to_max_credits}
use nvmevirt_fdp.Ssd.Nand.{
  SsdTime, NandCmd, nand_read, nand_write, nand_erase, nand_nop, init_time, init_channel, set_avail,
  read_clock, advance_channel, ssd_advance_pcie, get_cell, send_part, send_parts, advance_read,
  advance_write, occupy, ssd_advance_nand,
}

pub record IsTime (t : SsdTime) : Type 0 where
  pub channels_valid : (c : ℕ) → IsChannel (t.channels c)
  pub pcie_valid : IsChannel t.pcie

-- The latency tables cover the cell mode, and a transfer makes progress.
pub record IsTiming (sp : SsdParams) : Type 0 where
  pub flashpg_pos : 0 < sp.pgs_per_flashpg
  pub cells_pos : 0 < sp.cell_mode
  pub cells_4kb : sp.cell_mode ≤ length sp.pg_4kb_rd_lat
  pub cells_full : sp.cell_mode ≤ length sp.pg_rd_lat
  pub xfer_pos : 0 < sp.max_ch_xfer_size

set_avail-IsTime : (t : SsdTime) (p : Ppa) (time : ℕ) → IsTime t → IsTime (set_avail t p time)
unfolding set_avail
set_avail-IsTime t p time v = record {
  channels_valid = v.channels_valid;
  pcie_valid = v.pcie_valid;
}

pub read_clock-IsTime : (t : SsdTime) → IsTime t → IsTime (read_clock t).1
unfolding read_clock
read_clock-IsTime t v = record { channels_valid = v.channels_valid; pcie_valid = v.pcie_valid }

-- A new device with some bandwidth on its channels and its link is valid.
pub init_time-IsTime :
    (sp : SsdParams) (clock : ℕ → ℕ)
    → 0 < u32 (bandwidth_to_max_credits sp.ch_bandwidth)
    → 0 < u32 (bandwidth_to_max_credits sp.pcie_bandwidth)
    → IsTime (init_time sp clock)
unfolding init_time init_channel
init_time-IsTime sp clock hc hp =
    let ch = chmodel_init-IsChannel sp.ch_bandwidth hc in
    record {
      channels_valid = λ c. record {
        head_in = ch.head_in;
        valid_in = ch.valid_in;
        credits_pos = ch.credits_pos;
        credits_in = ch.credits_in;
      };
      pcie_valid = chmodel_init-IsChannel sp.pcie_bandwidth hp;
    }

pub advance_channel-IsTime :
    (t : SsdTime) (c request_time len : ℕ)
    → IsTime t
    → Returns (λ r. IsTime r.1) (advance_channel t c request_time len)
unfolding advance_channel
advance_channel-IsTime t c request_time len v =
    Returns-bind (chmodel_request-IsChannel (t.channels c) _ request_time len (v.channels_valid c))
      λ r w. returns (record {
        channels_valid = λ d. if-rule IsChannel (c == d) _ _ w (v.channels_valid d);
        pcie_valid = v.pcie_valid;
      })

pub ssd_advance_pcie-IsTime :
    (t : SsdTime) (request_time len : ℕ)
    → IsTime t
    → Returns (λ r. IsTime r.1) (ssd_advance_pcie t request_time len)
unfolding ssd_advance_pcie
ssd_advance_pcie-IsTime t request_time len v =
    Returns-bind (chmodel_request-IsChannel t.pcie _ request_time len v.pcie_valid)
      λ r w. returns (record { channels_valid = v.channels_valid; pcie_valid = w })

send_part-IsTime :
    (t : SsdTime) (interleave : Bool) (c chnl_stime xfer_size : ℕ)
    → IsTime t
    → Returns (λ s. IsTime s.time) (send_part t interleave c chnl_stime xfer_size)
unfolding send_part
send_part-IsTime t interleave c chnl_stime xfer_size v =
    Returns-bind (advance_channel-IsTime t c chnl_stime xfer_size v) λ r w.
      Returns-bind {P = λ u. IsTime u.1}
        (Returns-if interleave (λ _. ssd_advance_pcie-IsTime r.1 r.0 xfer_size w) (λ _. returns w))
        λ u z. returns z

send_parts-IsTime :
    (fuel : ℕ) (sp : SsdParams) (interleave : Bool) (c remaining chnl_stime : ℕ) (t : SsdTime)
    → 0 < sp.max_ch_xfer_size
    → 0 < remaining
    → remaining ≤ fuel
    → IsTime t
    → Returns (λ s. IsTime s.time) (send_parts fuel sp interleave c remaining chnl_stime t)
unfolding send_parts
send_parts-IsTime zero sp interleave c remaining chnl_stime t m h f v = absurd (omega arith)
send_parts-IsTime (suc fuel) sp interleave c remaining chnl_stime t m h f v =
    Returns-bind (send_part-IsTime t interleave c chnl_stime (min remaining sp.max_ch_xfer_size) v)
      λ s w.
        Returns-if (remaining - min remaining sp.max_ch_xfer_size == 0) (λ _. returns w)
          λ more.
            send_parts-IsTime fuel sp interleave c (remaining - min remaining sp.max_ch_xfer_size)
              s.chnl_etime s.time m (ground arith) (ground arith) w

pub get_cell_ok :
    (sp : SsdParams) (p : Ppa) → IsTiming sp → Returns (λ c. c < sp.cell_mode) (get_cell sp p)
unfolding get_cell
get_cell_ok sp p v =
    Returns-assert (ground (arith, v.flashpg_pos))
      (Returns-assert (ground (arith, v.cells_pos)) (returns (omega (arith, v.cells_pos))))

-- An entry within a C array.
pub get_elem?_ok {ℓ} :
    {A : Type ℓ} (xs : List A) (i : ℕ) → i < length xs → (a : A) × (get_elem? xs i ≡ some a)
get_elem?_ok [] i h = absurd (omega arith)
get_elem?_ok (x ∷ xs) zero h = (x, refl)
get_elem?_ok (x ∷ xs) (suc i) h = get_elem?_ok xs i (omega arith)

latency_ok :
    (sp : SsdParams) (small : Bool) (cell : ℕ)
    → IsTiming sp
    → cell < sp.cell_mode
    → Returns (λ _. Unit {0}) (get_elem? (if small then sp.pg_4kb_rd_lat else sp.pg_rd_lat) cell)
latency_ok sp true cell v h =
    let (lat, e) = get_elem?_ok sp.pg_4kb_rd_lat cell (omega (arith, v.cells_4kb)) in
    rw e (returns tt)
latency_ok sp false cell v h =
    let (lat, e) = get_elem?_ok sp.pg_rd_lat cell (omega (arith, v.cells_full)) in rw e (returns tt)

advance_read-IsTime :
    (sp : SsdParams) (n : NandCmd) (cmd_stime : ℕ) (t : SsdTime)
    → IsTiming sp
    → 0 < n.xfer_size
    → IsTime t
    → Returns (λ r. IsTime r.1) (advance_read sp n cmd_stime t)
unfolding advance_read
advance_read-IsTime sp n cmd_stime t k h v = Returns-bind (get_cell_ok sp n.ppa k) λ cell hc.
    Returns-bind (latency_ok sp (n.xfer_size == 4096) cell k hc) λ lat _.
      Returns-bind
        (send_parts-IsTime n.xfer_size sp n.interleave_pci_dma n.ppa.ch n.xfer_size _ t k.xfer_pos h
          (omega arith) v)
        λ s w. returns (set_avail-IsTime s.time n.ppa s.chnl_etime w)

advance_write-IsTime :
    (sp : SsdParams) (n : NandCmd) (cmd_stime : ℕ) (t : SsdTime)
    → IsTime t
    → Returns (λ r. IsTime r.1) (advance_write sp n cmd_stime t)
unfolding advance_write
advance_write-IsTime sp n cmd_stime t v =
    Returns-bind (advance_channel-IsTime t n.ppa.ch _ n.xfer_size v)
      λ r w. returns (set_avail-IsTime r.1 n.ppa _ w)

occupy-IsTime :
    (n : NandCmd) (lat cmd_stime : ℕ) (t : SsdTime) → IsTime t → IsTime (occupy n lat cmd_stime t).1
unfolding occupy
occupy-IsTime n lat cmd_stime t v = set_avail-IsTime t n.ppa _ v

-- With latency tables for the cell mode and a positive transfer size, every command of a valid time
-- model completes, and leaves it valid, unless it is a read of no bytes: no assertion of the channel
-- model trips, and the transfer loop of a read ends.
pub ssd_advance_nand-IsTime :
    (sp : SsdParams) (n : NandCmd) (t : SsdTime)
    → IsTiming sp
    → 0 < n.xfer_size ⊎ n.cmd ≢ nand_read
    → IsTime t
    → Returns (λ r. IsTime r.1) (ssd_advance_nand sp n t)
unfolding ssd_advance_nand
ssd_advance_nand-IsTime sp n t k h v =
    let w =
      if-rule (λ (r : ℕ × SsdTime). IsTime r.1) (n.stime == 0) (read_clock t) (n.stime, t)
        (read_clock-IsTime t v) v in
    Returns-if (word n.ppa == unmapped_ppa) (λ _. returns w)
      λ _.
        Returns-if (n.cmd == nand_read) (λ e. advance_read-IsTime sp n _ _ k (ground arith) w)
          λ _.
            Returns-if (n.cmd == nand_write) (λ _. advance_write-IsTime sp n _ _ w)
              λ _.
                Returns-if (n.cmd == nand_erase) (λ _. returns (occupy-IsTime n _ _ _ w))
                  λ _.
                    Returns-if (n.cmd == nand_nop) (λ _. returns (occupy-IsTime n _ _ _ w))
                      λ _. returns w
