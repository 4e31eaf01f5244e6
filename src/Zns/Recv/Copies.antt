-- ===== src/Zns/Recv/Copies.antt =====
-- zns_mgmt_recv.c: the copies of `__prp_transfer_data`, and the report that they carry.
use nvmevirt_fdp.Prelude.{
  ℕ, zero, suc, ◌+◌, ◌-◌, ◌*◌, ◌/◌, ◌%◌, ◌^◌, ◌≤◌, ◌<◌, ◌≡◌, ◌≢◌, ◌⊎◌, refl, ap, sym, ◌∙◌, min,
  if◌then◌else◌, subst, inl, inr, true, false, arith, ltb, ◌==◌, Bool-cases, Option, none, some,
  List, [], ◌∷◌, Returns, returns, Returns-bind,
}
use nvmevirt_fdp.Ssd.Config.{u64, kb}
use nvmevirt_fdp.Fdp.Namespace.{nvme_sc_success}
use nvmevirt_fdp.Zns.State.{ZnsFtl, lba_to_zone}
use nvmevirt_fdp.Zns.Recv.{
  Copy, PrpList, prp_address, prp_io_size, prp_copies, prp_transfer_data, ZoneMgmtRecv, ZoneReport,
  transfer_length, check_zmgmt_rcv_option_supported, nr_zone_to_report, fill_zone_report,
  zns_zmgmt_recv,
}

-- The address of page `k` of a transfer of `length` bytes, as NVMe has it: PRP1, then PRP2, or where more
-- than one page is left behind the first the entries of the list at PRP2, in their order.
abbrev pub prp_page : (ℕ → ℕ) → ℕ → ℕ → ℕ → ℕ → ℕ
prp_page host prp1 prp2 length zero = prp1
prp_page host prp1 prp2 length (suc k) =
    if ltb (kb 4 - prp1 % kb 4 + kb 4) length then host (prp2 + 8 * k) else prp2

-- The copies carry `length` bytes from `offset` on, in order; the first goes to page `k` and each
-- other to the next page, and none leaves its page.
pub data Carries (page : ℕ → ℕ) : ℕ → ℕ → ℕ → List Copy → Type 0 where
  carried : {k offset : ℕ} → Carries page k offset 0 []
  copies :
      {k offset length : ℕ} (c : Copy) {rest : List Copy}
      → c.host_address ≡ page k
      → c.offset ≡ offset
      → 0 < c.io_size
      → c.host_address % kb 4 + c.io_size ≤ kb 4
      → Carries page (k + 1) (offset + c.io_size) length rest
      → Carries page k offset (c.io_size + length) (c ∷ rest)

io_size_lem :
    (paddr remaining : ℕ)
    → remaining ≢ 0
    → (0 < prp_io_size paddr remaining)
      × (prp_io_size paddr remaining ≤ remaining)
      × (paddr % kb 4 + prp_io_size paddr remaining ≤ kb 4)
unfolding prp_io_size
io_size_lem paddr remaining h = ground arith

all_taken :
    (paddr remaining : ℕ)
    → paddr % kb 4 ≡ 0
    → ltb (kb 4) remaining ≡ false
    → remaining - prp_io_size paddr remaining ≡ 0
unfolding prp_io_size
all_taken paddr remaining h c = ground arith

-- What is left behind the first page.
after_first :
    (prp1 length : ℕ)
    → ltb (kb 4) (length - prp_io_size prp1 length) ≡ ltb (kb 4 - prp1 % kb 4 + kb 4) length
unfolding prp_io_size
after_first prp1 length = ground arith

module _ (host : ℕ → ℕ) (prp1 prp2 length : ℕ) where
  -- The state of the loop before round `k + 1`.
  abbrev pub IsAt : ℕ → ℕ → Option PrpList → Type 0
  IsAt zero remaining list = remaining ≡ length
  IsAt (suc zero) remaining list = remaining ≡ length - prp_io_size prp1 length
  IsAt (suc (suc k)) remaining list =
      (remaining ≡ 0)
      ⊎ ((list ≡ some (record { base = prp2; prp2_offs = k + 1 }))
          × (ltb (kb 4 - prp1 % kb 4 + kb 4) length ≡ true))

  listed-page :
      (k : ℕ)
      → ltb (kb 4 - prp1 % kb 4 + kb 4) length ≡ true
      → host (prp2 + 8 * k) ≡ prp_page host prp1 prp2 length (suc k)
  listed-page k h = ground arith

  last-page :
      ltb (kb 4 - prp1 % kb 4 + kb 4) length ≡ false → prp2 ≡ prp_page host prp1 prp2 length 1
  last-page h = ground arith

  -- The round takes the address of its page.
  abbrev Addressed : ℕ → ℕ → ℕ × Option PrpList → Type 0
  Addressed k remaining r =
      (r.0 ≡ prp_page host prp1 prp2 length k)
      × IsAt (suc k) (remaining - prp_io_size r.0 remaining) r.1

  address_lem :
      (k remaining : ℕ) (list : Option PrpList)
      → prp2 % kb 4 ≡ 0
      → remaining ≢ 0
      → IsAt k remaining list
      → Returns (Addressed k remaining) (prp_address host prp1 prp2 remaining (k + 1) list)
  unfolding prp_address
  address_lem zero remaining list aligned n h = returns (refl, rw h refl)
  address_lem (suc zero) remaining list aligned n h = elim (Bool-cases (ltb (kb 4) remaining)) [
    | inl c ↦
        let more = sym (after_first prp1 length) ∙ rw h at c in
        rw c (returns (listed-page 0 more, inr (refl, more)))
    | inr c ↦
        let last = sym (after_first prp1 length) ∙ rw h at c in
        rw c (returns (last-page last, inl (all_taken prp2 remaining aligned c)))
  ]
  address_lem (suc (suc k)) remaining list aligned n (inl e) = absurd (n e)
  address_lem (suc (suc k)) remaining list aligned n (inr e) =
      let first : (suc (suc k) + 1 == 1) ≡ false = ground arith in
      let second : (suc (suc k) + 1 == 2) ≡ false = ground arith in
      let entry : k + 1 ≡ suc k = omega arith in
      let entries : k + 1 + 1 ≡ suc k + 1 = omega arith in
      rw (first, second, e.0)
        (returns (
          ap (λ m. host (prp2 + 8 * m)) entry ∙ listed-page (suc k) e.1,
          inr (ap (λ m. some (record { base = prp2; prp2_offs = m })) entries, e.1),
        ))

next_copy :
    (page : ℕ → ℕ) (k offset remaining paddr io_size : ℕ) (rest : List Copy)
    → paddr ≡ page k
    → 0 < io_size
    → io_size ≤ remaining
    → paddr % kb 4 + io_size ≤ kb 4
    → Carries page (k + 1) (offset + io_size) (remaining - io_size) rest
    → Carries page k offset remaining
        (record { host_address = paddr; offset = offset; io_size = io_size } ∷ rest)
next_copy page k offset remaining paddr io_size rest a p l f r =
    let whole : io_size + (remaining - io_size) ≡ remaining = omega arith in
    let c : Copy = record { host_address = paddr; offset = offset; io_size = io_size } in
    subst (λ n. Carries page k offset n (c ∷ rest)) whole (copies c a refl p f r)

module _ (host : ℕ → ℕ) (prp1 prp2 length : ℕ) where
  pub prp_copies-Carries :
      prp2 % kb 4 ≡ 0
      → (fuel remaining offset k : ℕ) (list : Option PrpList) → remaining ≤ fuel
      → IsAt host prp1 prp2 length k remaining list
      → Returns
          (Carries (prp_page host prp1 prp2 length) k offset remaining)
          (prp_copies fuel host prp1 prp2 remaining offset k list)
  unfolding prp_copies
  prp_copies-Carries aligned zero remaining offset k list e h =
      let none_left : remaining ≡ 0 = omega arith in rw (none_left, prp_copies) (returns carried)
  prp_copies-Carries aligned (suc fuel) remaining offset k list e h =
      elim (Bool-cases (remaining == 0)) [
        | inl x ↦
            let none_left : remaining ≡ 0 = ground arith in
            rw (none_left, prp_copies) (returns carried)
        | inr x ↦
            let n : remaining ≢ 0 = ground arith in
            rw (x, prp_copies)
              (Returns-bind (address_lem host prp1 prp2 length k remaining list aligned n h) λ r i.
                let io = io_size_lem r.0 remaining n in
                let next_round : suc k ≡ k + 1 = omega arith in
                let at : IsAt host prp1 prp2 length (k + 1) (remaining - prp_io_size r.0 remaining)
                    r.1 =
                  subst
                    (λ m. IsAt host prp1 prp2 length m (remaining - prp_io_size r.0 remaining) r.1)
                    next_round i.1 in
                Returns-bind
                  (prp_copies-Carries aligned fuel (remaining - prp_io_size r.0 remaining)
                    (offset + prp_io_size r.0 remaining) (k + 1) r.1 (omega (arith, io.0, io.1)) at)
                  λ rest c. returns (
                    next_copy (prp_page host prp1 prp2 length) k offset remaining r.0
                      (prp_io_size r.0 remaining) rest i.0 io.0 io.1 io.2 c))
      ]

  -- A transfer whose second PRP is the start of a page completes: it carries the whole buffer to the
  -- host, byte by byte in order and each byte once, by copies that do not leave their page; the first goes to
  -- PRP1 and copy `k` after it to PRP2, or, where more than one page is left behind the first, to the `k`-th entry of
  -- the list at PRP2.
  pub prp_transfer_data-Carries :
      prp2 % kb 4 ≡ 0
      → Returns
          (Carries (prp_page host prp1 prp2 length) 0 0 length)
          (prp_transfer_data host prp1 prp2 length)
  unfolding prp_transfer_data
  prp_transfer_data-Carries aligned =
      prp_copies-Carries aligned length length 0 0 none (omega arith) refl

-- What the report says: zones from the one that the command names on, up to the last.
pub record Reported (host : ℕ → ℕ) (f : ZnsFtl) (cmd : ZoneMgmtRecv) (old : ZoneReport)
    (r : ℕ × ZoneReport × List Copy) : Type 0 where
  pub status : r.0 ≡ nvme_sc_success
  pub in_device : lba_to_zone f cmd.slba + r.1.nr_zones ≤ f.zp.nr_zones
  pub all :
      cmd.zra_specific_features ≡ false → lba_to_zone f cmd.slba + r.1.nr_zones ≡ f.zp.nr_zones
  pub partial :
      cmd.zra_specific_features ≡ true
      → 64 ≤ transfer_length cmd
      → r.1.nr_zones ≡ min (f.zp.nr_zones - lba_to_zone f cmd.slba) (transfer_length cmd / 64 - 1)
  pub short :
      cmd.zra_specific_features ≡ true
      → transfer_length cmd < 64
      → lba_to_zone f cmd.slba + r.1.nr_zones ≡ f.zp.nr_zones
  pub zones : (i : ℕ) → i < r.1.nr_zones → r.1.zd i ≡ f.zone_descs (lba_to_zone f cmd.slba + i)
  pub carried_all :
      Carries (prp_page host cmd.prp1 cmd.prp2 (transfer_length cmd)) 0 0 (transfer_length cmd) r.2

report_count :
    (f : ZnsFtl) (cmd : ZoneMgmtRecv)
    → f.zp.nr_zones < 2 ^ 32
    → lba_to_zone f cmd.slba < f.zp.nr_zones
    → (lba_to_zone f cmd.slba + nr_zone_to_report f cmd ≤ f.zp.nr_zones)
      × (cmd.zra_specific_features ≡ false
          → lba_to_zone f cmd.slba + nr_zone_to_report f cmd ≡ f.zp.nr_zones)
      × (cmd.zra_specific_features ≡ true
          → 64 ≤ transfer_length cmd
          → nr_zone_to_report f cmd
            ≡ min (f.zp.nr_zones - lba_to_zone f cmd.slba) (transfer_length cmd / 64 - 1))
      × (cmd.zra_specific_features ≡ true
          → transfer_length cmd < 64
          → lba_to_zone f cmd.slba + nr_zone_to_report f cmd ≡ f.zp.nr_zones)
unfolding nr_zone_to_report
report_count f cmd n h =
    let limit : u64 (f.zp.nr_zones + 2 ^ 64 - lba_to_zone f cmd.slba)
        ≡ f.zp.nr_zones - lba_to_zone f cmd.slba =
      omega arith in
    let wanted : 64 ≤ transfer_length cmd
        → u64 (transfer_length cmd / 64 + 2 ^ 64 - 1) ≡ transfer_length cmd / 64 - 1 =
      λ l. omega arith in
    (
      ground arith,
      ground arith,
      λ e l. let w = wanted l in ground arith,
      λ e l.
          let w : u64 (transfer_length cmd / 64 + 2 ^ 64 - 1) ≡ 2 ^ 64 - 1 = omega arith in
          ground arith,
    )

report_zones :
    (f : ZnsFtl) (cmd : ZoneMgmtRecv) (old : ZoneReport) (i : ℕ)
    → i < nr_zone_to_report f cmd
    → (fill_zone_report f cmd old).zd i ≡ f.zone_descs (lba_to_zone f cmd.slba + i)
unfolding fill_zone_report
report_zones f cmd old i h =
    let inside : ltb i (nr_zone_to_report f cmd) ≡ true = ground arith in rw inside refl

-- On a device of fewer than 2^32 zones, a command with supported options, whose zone exists and whose second PRP is the start of a page, succeeds:
-- it reports zones in order from the one it names on and none beyond the last; all of them, or with the
-- partial option as many as fit behind the header in the data that is transferred, if the transfer
-- has the 64 bytes of a header (of a shorter one the count wraps, and all are reported); and the data is
-- carried in full, to the pages that the PRPs name.
pub zns_zmgmt_recv-Reported :
    (host : ℕ → ℕ) (f : ZnsFtl) (cmd : ZoneMgmtRecv) (report : ZoneReport)
    → f.zp.nr_zones < 2 ^ 32
    → check_zmgmt_rcv_option_supported f cmd ≡ true
    → cmd.prp2 % kb 4 ≡ 0
    → Returns (Reported host f cmd report) (zns_zmgmt_recv host f cmd report)
unfolding zns_zmgmt_recv check_zmgmt_rcv_option_supported fill_zone_report
zns_zmgmt_recv-Reported host f cmd report n s a =
    let inside : lba_to_zone f cmd.slba < f.zp.nr_zones = ground arith in
    let count = report_count f cmd n inside in
    rw s (
      Returns-bind (prp_transfer_data-Carries host cmd.prp1 cmd.prp2 (transfer_length cmd) a)
        λ copies k. returns (record {
          status = refl;
          in_device = count.0;
          all = count.1;
          partial = count.2;
          short = count.3;
          zones = λ i h. report_zones f cmd report i h;
          carried_all = k;
        }))
