-- ===== src/Fdp/Namespace/Read/Flush.antt =====
-- fdp_ftl.c: the time of `fdp_flush`, and the LUNs of the partitions.
use nvmevirt_fdp.Prelude.{
  ℕ, zero, suc, ◌<◌, ◌≤◌, ◌≡◌, refl, sym, subst, ◌∙◌, arith, inl, inr, Bool-cases, ◌==◌,
}
use nvmevirt_fdp.Ssd.Nand.{
  Lun, SsdTime, read_clock, latest_of_luns, latest_of_channels, ssd_next_idle_time,
}
use nvmevirt_fdp.Fdp.Namespace.{Ns, part_time, set_time, nvme_sc_success}
use nvmevirt_fdp.Fdp.Namespace.Read.{flush_parts, fdp_flush}

latest_of_luns_from : (luns : ℕ → Lun) (n latest : ℕ) → latest ≤ latest_of_luns luns n latest
unfolding latest_of_luns
latest_of_luns_from luns zero latest = omega arith
latest_of_luns_from luns (suc n) latest = omega (arith, latest_of_luns_from luns n latest)

latest_of_luns_each :
    (luns : ℕ → Lun) (n latest l : ℕ)
    → l < n
    → (luns l).next_lun_avail_time ≤ latest_of_luns luns n latest
unfolding latest_of_luns
latest_of_luns_each luns zero latest l h = absurd (omega arith)
latest_of_luns_each luns (suc n) latest l h = elim (Bool-cases (l == n)) [
  | inl e ↦ let same : l ≡ n = ground arith in rw same (omega arith)
  | inr e ↦ omega (arith, latest_of_luns_each luns n latest l (ground arith))
]

latest_of_channels_from :
    (luns : ℕ → ℕ → Lun) (n per latest : ℕ) → latest ≤ latest_of_channels luns n per latest
unfolding latest_of_channels
latest_of_channels_from luns zero per latest = omega arith
latest_of_channels_from luns (suc n) per latest = omega (
  arith,
  latest_of_channels_from luns n per latest,
  latest_of_luns_from (luns n) per (latest_of_channels luns n per latest),
)

latest_of_channels_each :
    (luns : ℕ → ℕ → Lun) (n per latest c l : ℕ)
    → c < n
    → l < per
    → (luns c l).next_lun_avail_time ≤ latest_of_channels luns n per latest
unfolding latest_of_channels
latest_of_channels_each luns zero per latest c l hc hl = absurd (omega arith)
latest_of_channels_each luns (suc n) per latest c l hc hl = elim (Bool-cases (c == n)) [
  | inl e ↦
      let same : c ≡ n = ground arith in
      rw same (latest_of_luns_each (luns n) per (latest_of_channels luns n per latest) l hl)
  | inr e ↦ omega (
    arith,
    latest_of_channels_each luns n per latest c l (ground arith) hl,
    latest_of_luns_from (luns n) per (latest_of_channels luns n per latest),
  )
]

module _ {Q : Type 0} where
  -- The time is not before `since`, nor before any LUN of the partitions below `n` is free; of the
  -- namespace only clocks and their counts differ.
  record Waited (since : ℕ) (ns : Ns Q) (n : ℕ) (s : ℕ × Ns Q) : Type 0 where
    from : since ≤ s.0
    each :
        (i c l : ℕ)
        → i < n
        → c < (ns.ftls i).sp.nchs
        → l < (ns.ftls i).sp.luns_per_ch
        → ((ns.times i).luns c l).next_lun_avail_time ≤ s.0
    ftls : s.1.ftls ≡ ns.ftls
    luns : (i : ℕ) → (s.1.times i).luns ≡ (ns.times i).luns

  -- A time model with the same LUNs leaves the LUNs of every partition.
  set_time-luns :
      (ns : Ns Q) (n i : ℕ) (t : SsdTime)
      → t.luns ≡ (ns.times n).luns
      → ((set_time ns n t).times i).luns ≡ (ns.times i).luns
  set_time-luns ns n i t e = elim (Bool-cases (n == i)) [
    | inl h ↦
        let same : n ≡ i = ground arith in rw h (subst (λ j. t.luns ≡ (ns.times j).luns) same e)
    | inr h ↦ rw h
  ]

  flush_parts-Waited :
      (since : ℕ) (ns ns1 : Ns Q) (n : ℕ)
      → ns1.ftls ≡ ns.ftls
      → ((i : ℕ) → (ns1.times i).luns ≡ (ns.times i).luns)
      → Waited since ns n (flush_parts n (since, ns1))
  unfolding flush_parts ssd_next_idle_time read_clock
  flush_parts-Waited since ns ns1 zero e k = record {
    from = omega arith;
    each = λ i c l h. absurd (omega arith);
    ftls = e;
    luns = k;
  }
  flush_parts-Waited since ns ns1 (suc n) e k =
      let w = flush_parts-Waited since ns ns1 n e k in
      let s = flush_parts n (since, ns1) in
      record {
        from = omega (arith, w.from);
        each = λ i c l hi hc hl. elim (Bool-cases (i == n)) [
          | inl h ↦
              let same : i ≡ n = ground arith in
              let hc' : c < (s.1.ftls n).sp.nchs = rw (w.ftls, sym same) hc in
              let hl' : l < (s.1.ftls n).sp.luns_per_ch = rw (w.ftls, sym same) hl in
              let last =
                latest_of_channels_each (s.1.times n).luns (s.1.ftls n).sp.nchs
                  (s.1.ftls n).sp.luns_per_ch (read_clock (part_time s.1 n)).0 c l hc' hl' in
              let last' =
                subst
                  (λ (u : ℕ → ℕ → Lun).
                    (u c l).next_lun_avail_time
                    ≤ latest_of_channels (s.1.times n).luns (s.1.ftls n).sp.nchs
                        (s.1.ftls n).sp.luns_per_ch (read_clock (part_time s.1 n)).0)
                  (w.luns n) last in
              rw same (omega (arith, last'))
          | inr h ↦ omega (arith, w.each i c l (ground arith) hc hl)
        ];
        ftls = w.ftls;
        luns = λ i. set_time-luns s.1 n i _ refl ∙ w.luns i;
      }

  -- A flush succeeds, at a time when the LUN, which is any one of any partition, is free, and no FTL
  -- changes.
  pub fdp_flush-waits :
      (ns : Ns Q) (i c l : ℕ)
      → i < ns.nr_parts
      → c < (ns.ftls i).sp.nchs
      → l < (ns.ftls i).sp.luns_per_ch
      → let (res, ns') = fdp_flush ns in
        (res.status ≡ nvme_sc_success)
        × (ns'.ftls ≡ ns.ftls)
        × (((ns.times i).luns c l).next_lun_avail_time ≤ res.nsecs_target)
  unfolding fdp_flush read_clock
  fdp_flush-waits ns i c l hi hc hl =
      let w =
        flush_parts-Waited _ ns (set_time ns 0 (read_clock (part_time ns 0)).1) ns.nr_parts refl
          (λ j. set_time-luns ns 0 j (read_clock (part_time ns 0)).1 refl) in
      (refl, w.ftls, w.each i c l hi hc hl)
