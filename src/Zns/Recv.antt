-- ===== src/Zns/Recv.antt =====
-- zns_mgmt_recv.c: Zone Management Receive. The report buffer holds a count and descriptors, of 64 bytes
-- each; what the host receives is the list of copies out of it. The host's memory is not code of the
-- repository: `host a` is the 8-byte word at `a`.
pub mod Copies
use nvmevirt_fdp.Prelude.{
  ℕ, zero, suc, ◌+◌, ◌-◌, ◌*◌, ◌/◌, ◌%◌, ◌^◌, Bool, true, false, not, ◌&&◌, Option, none, some,
  List, [], ◌∷◌, min, ltb, leb, ◌==◌, if◌then◌else◌, ◌>>=◌,
}
use nvmevirt_fdp.Ssd.Config.{u32, u64, kb}
use nvmevirt_fdp.Fdp.Namespace.{nvme_sc_success, nvme_sc_invalid_field}
use nvmevirt_fdp.Zns.State.{ZoneDesc, ZnsFtl, lba_to_zone}

-- One `memcpy` between the buffer and the host.
pub record Copy : Type 0 where
  pub host_address : ℕ
  pub offset : ℕ
  pub io_size : ℕ

-- `paddr_list`, and the entries taken.
pub record PrpList : Type 0 where
  pub base : ℕ
  pub prp2_offs : ℕ

abbrev next_entry : (ℕ → ℕ) → PrpList → ℕ × Option PrpList
next_entry host l =
    (host (l.base + 8 * l.prp2_offs), some (record l { prp2_offs = l.prp2_offs + 1 }))

-- The address of round `prp_offs`; a list that was never set is NULL.
unfoldable pub prp_address : (ℕ → ℕ) → ℕ → ℕ → ℕ → ℕ → Option PrpList → Option (ℕ × Option PrpList)
prp_address host prp1 prp2 remaining prp_offs list =
    if prp_offs == 1
    then some (prp1, list)
    else if prp_offs == 2
    then (if ltb (kb 4) remaining
        then some (next_entry host (record { base = prp2; prp2_offs = 0 }))
        else some (prp2, list))
    else list >>= λ l. some (next_entry host l)

-- The size of a round's copy: up to the end of the page.
unfoldable pub prp_io_size : ℕ → ℕ → ℕ
prp_io_size paddr remaining =
    let io_size = min remaining (kb 4) in
    let mem_offs = paddr % kb 4 in
    if ltb (kb 4) (io_size + mem_offs) then kb 4 - mem_offs else io_size

-- The loop of `__prp_transfer_data`; the fuel counts the rounds.
unfoldable pub prp_copies : ℕ → (ℕ → ℕ) → ℕ → ℕ → ℕ → ℕ → ℕ → Option PrpList → Option (List Copy)
unfolding prp_address prp_io_size
prp_copies zero host prp1 prp2 remaining offset prp_offs list =
    if remaining == 0 then some [] else none
prp_copies (suc fuel) host prp1 prp2 remaining offset prp_offs list = elim (remaining == 0) [
  | true ↦ some []
  | false ↦ prp_address host prp1 prp2 remaining (prp_offs + 1) list >>= λ (paddr, list').
      (let io_size = prp_io_size paddr remaining in
        prp_copies fuel host prp1 prp2 (remaining - io_size) (offset + io_size) (prp_offs + 1) list'
        >>= λ rest.
            some (record { host_address = paddr; offset = offset; io_size = io_size } ∷ rest))
]

-- `__prp_transfer_data`, to the host.
unfoldable pub prp_transfer_data : (ℕ → ℕ) → ℕ → ℕ → ℕ → Option (List Copy)
unfolding prp_copies
prp_transfer_data host prp1 prp2 length = prp_copies length host prp1 prp2 length 0 0 none

-- The fields of `struct nvme_zone_mgmt_recv` that are read.
pub record ZoneMgmtRecv : Type 0 where
  pub prp1 : ℕ
  pub prp2 : ℕ
  pub slba : ℕ
  pub nr_dw : ℕ
  pub zra : ℕ
  pub zra_specific_field : ℕ
  pub zra_specific_features : Bool

-- `struct zone_report`.
pub record ZoneReport : Type 0 where
  pub nr_zones : ℕ
  pub zd : ℕ → ZoneDesc

abbrev pub transfer_length : ZoneMgmtRecv → ℕ
transfer_length cmd = u32 (cmd.nr_dw + 1) * 4

-- `__check_zmgmt_rcv_option_supported`.
unfoldable pub check_zmgmt_rcv_option_supported : ZnsFtl → ZoneMgmtRecv → Bool
check_zmgmt_rcv_option_supported f cmd =
    ltb (lba_to_zone f cmd.slba) f.zp.nr_zones && cmd.zra == 0 && cmd.zra_specific_field == 0

-- The number of zones that `__fill_zone_report` reports.
unfoldable pub nr_zone_to_report : ZnsFtl → ZoneMgmtRecv → ℕ
nr_zone_to_report f cmd =
    let limit = u64 (f.zp.nr_zones + 2 ^ 64 - lba_to_zone f cmd.slba) in
    let wanted =
      (if cmd.zra_specific_features then u64 (transfer_length cmd / 64 + 2 ^ 64 - 1) else limit) in
    if ltb limit wanted then limit else wanted

-- `__fill_zone_report`.
unfoldable pub fill_zone_report : ZnsFtl → ZoneMgmtRecv → ZoneReport → ZoneReport
unfolding nr_zone_to_report
fill_zone_report f cmd report = record {
  nr_zones = nr_zone_to_report f cmd;
  zd = λ i.
      if ltb i (nr_zone_to_report f cmd)
      then f.zone_descs (lba_to_zone f cmd.slba + i)
      else report.zd i;
}

-- `zns_zmgmt_recv`: the status, the report buffer, and the copies.
unfoldable pub zns_zmgmt_recv :
    (ℕ → ℕ) → ZnsFtl → ZoneMgmtRecv → ZoneReport → Option (ℕ × ZoneReport × List Copy)
unfolding check_zmgmt_rcv_option_supported fill_zone_report prp_transfer_data
zns_zmgmt_recv host f cmd report =
    if check_zmgmt_rcv_option_supported f cmd
    then (do
      copies ← prp_transfer_data host cmd.prp1 cmd.prp2 (transfer_length cmd)
      some (nvme_sc_success, fill_zone_report f cmd report, copies))
    else some (nvme_sc_invalid_field, report, [])
