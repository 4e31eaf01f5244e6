-- ===== src/Fdp/Pointers/Order.antt =====
-- The order in which `advance_write_pointer` of fdp_ftl.c visits the pages of a line: within a
-- oneshot page, then over the channels, then over the LUNs, then to the next oneshot page.
use nvmevirt_fdp.Prelude.{
  ℕ, ◌+◌, ◌-◌, ◌*◌, ◌/◌, ◌%◌, ◌<◌, ◌≡◌, ◌≢◌, refl, sym, ap, ◌∙◌, arith, ltb, ◌==◌, true, false,
  dec_lt, digit_bound, of_digits, quotient_lt, successor, last_in_group, not_last_in_group,
  next_multiple, some, Returns, returns, Returns-if, Returns-assert, Returns-map,
}
use nvmevirt_fdp.Ssd.Config.{SsdParams}
use nvmevirt_fdp.Ssd.Geometry.{IsGeometry}
use nvmevirt_fdp.Fdp.State.{WritePointer}
use nvmevirt_fdp.Fdp.Pointers.{
  Position, next_page, line_end, advance_lun, advance_ch, advance_position,
}

-- The pointer is at a page of its line.
pub record IsPointer (sp : SsdParams) (w : WritePointer) : Type 0 where
  pub ch_in : w.ch < sp.nchs
  pub lun_in : w.lun < sp.luns_per_ch
  pub pg_in : w.pg < sp.pgs_per_blk

-- How many pages of the line come before a page of it.
unfoldable pub rank : SsdParams → ℕ → ℕ → ℕ → ℕ
rank sp ch lun pg = ((pg / o * sp.luns_per_ch + lun) * sp.nchs + ch) * o + pg % o
  where
    o : ℕ
    o = sp.pgs_per_oneshotpg

rank_digits :
    (sp : SsdParams) (ch lun a b : ℕ)
    → b < sp.pgs_per_oneshotpg
    → rank sp ch lun (a * sp.pgs_per_oneshotpg + b)
      ≡ ((a * sp.luns_per_ch + lun) * sp.nchs + ch) * sp.pgs_per_oneshotpg + b
unfolding rank
rank_digits sp ch lun a b h = let d = of_digits sp.pgs_per_oneshotpg a b h in rw (d.0, d.1)

rank_suc :
    (sp : SsdParams) (ch lun pg : ℕ)
    → ((pg / sp.pgs_per_oneshotpg * sp.luns_per_ch + lun) * sp.nchs + ch) * sp.pgs_per_oneshotpg
        + (pg % sp.pgs_per_oneshotpg + 1)
      ≡ rank sp ch lun pg + 1
unfolding rank
rank_suc sp ch lun pg = omega arith

rank_last :
    (sp : SsdParams) (ch lun pg : ℕ)
    → pg % sp.pgs_per_oneshotpg + 1 ≡ sp.pgs_per_oneshotpg
    → rank sp ch lun pg + 1
      ≡ ((pg / sp.pgs_per_oneshotpg * sp.luns_per_ch + lun) * sp.nchs + ch) * sp.pgs_per_oneshotpg
        + sp.pgs_per_oneshotpg
unfolding rank
rank_last sp ch lun pg h = omega arith

-- The first page of a oneshot page.
rank_start :
    (sp : SsdParams) (ch lun a : ℕ)
    → 0 < sp.pgs_per_oneshotpg
    → rank sp ch lun (a * sp.pgs_per_oneshotpg)
      ≡ ((a * sp.luns_per_ch + lun) * sp.nchs + ch) * sp.pgs_per_oneshotpg
rank_start sp ch lun a h =
    ap (rank sp ch lun) (omega arith) ∙ rank_digits sp ch lun a 0 h ∙ (omega arith)

-- What one step does to a pointer: it moves to the page of the next rank, or it was at the last one.
abbrev pub Advanced : SsdParams → WritePointer → Position → Type 0
Advanced sp w (next_page w') =
    IsPointer sp w'
    × (rank sp w'.ch w'.lun w'.pg ≡ rank sp w.ch w.lun w.pg + 1)
    × (w'.curline ≡ w.curline)
    × (w'.blk ≡ w.blk)
    × (w'.pl ≡ w.pl)
Advanced sp w (line_end w') =
    (rank sp w.ch w.lun w.pg + 1 ≡ sp.pgs_per_line)
    × (w'.ch ≡ 0)
    × (w'.lun ≡ 0)
    × (w'.pg ≡ 0)
    × (w'.curline ≡ w.curline)
    × (w'.blk ≡ w.blk)
    × (w'.pl ≡ w.pl)

-- The same with the ranks written in digits: `n` is the rank of the page stepped from.
abbrev Stepped : SsdParams → WritePointer → ℕ → Position → Type 0
Stepped sp w n (next_page w') =
    IsPointer sp w'
    × (rank sp w'.ch w'.lun w'.pg ≡ n + 1)
    × (w'.curline ≡ w.curline)
    × (w'.blk ≡ w.blk)
    × (w'.pl ≡ w.pl)
Stepped sp w n (line_end w') =
    (n + 1 ≡ sp.pgs_per_line)
    × (w'.ch ≡ 0)
    × (w'.lun ≡ 0)
    × (w'.pg ≡ 0)
    × (w'.curline ≡ w.curline)
    × (w'.blk ≡ w.blk)
    × (w'.pl ≡ w.pl)

full_turn : (i n : ℕ) → (i + 1 == n) ≡ true → i + 1 ≡ n
full_turn i n h = ground arith

full_sum : (m n : ℕ) → (m == n) ≡ true → m ≡ n
full_sum m n h = ground arith

part_sum : (m n : ℕ) → (m == n) ≡ false → m ≢ n
part_sum m n h = ground arith

module _ (sp : SsdParams) (g : IsGeometry sp) (a : ℕ) (ha : a < sp.oneshotpgs_per_blk) where
  oneshot_in : a * sp.pgs_per_oneshotpg < sp.pgs_per_blk
  oneshot_in =
      rw g.pgs_of_oneshots
        (omega (arith, digit_bound sp.pgs_per_oneshotpg sp.oneshotpgs_per_blk a 0 ha g.oneshot_pos))

  -- The last page of the line.
  line_full :
      (w : WritePointer) (n : ℕ)
      → n + 1 ≡ ((a * sp.luns_per_ch + w.lun) * sp.nchs + sp.nchs) * sp.pgs_per_oneshotpg
      → w.lun + 1 ≡ sp.luns_per_ch
      → a * sp.pgs_per_oneshotpg + sp.pgs_per_oneshotpg ≡ sp.pgs_per_blk
      → n + 1 ≡ sp.pgs_per_line
  line_full w n e el ep =
      rw (g.line_pgs, ← ep)
        (omega (
          arith,
          e,
          ap (λ (t : ℕ). t * sp.nchs * sp.pgs_per_oneshotpg) el,
          ap (λ (t : ℕ). a * (t * sp.nchs * sp.pgs_per_oneshotpg)) el,
        ))

  next_oneshot_in :
      a * sp.pgs_per_oneshotpg + sp.pgs_per_oneshotpg ≢ sp.pgs_per_blk
      → a + 1 < sp.oneshotpgs_per_blk
  next_oneshot_in ne = elim (dec_lt (a + 1) sp.oneshotpgs_per_blk) [
    | yes p ↦ p
    | no p ↦
        let same : sp.oneshotpgs_per_blk ≡ a + 1 = omega (arith, ha) in
        absurd
          (ne (omega (arith, g.pgs_of_oneshots, ap (λ (t : ℕ). t * sp.pgs_per_oneshotpg) same)))
  ]

  -- From the last LUN to the next oneshot page.
  oneshot_next :
      (w : WritePointer) (n : ℕ)
      → w.ch ≡ 0
      → w.pg ≡ a * sp.pgs_per_oneshotpg
      → n + 1 ≡ ((a * sp.luns_per_ch + w.lun) * sp.nchs + sp.nchs) * sp.pgs_per_oneshotpg
      → w.lun + 1 ≡ sp.luns_per_ch
      → a * sp.pgs_per_oneshotpg + sp.pgs_per_oneshotpg ≢ sp.pgs_per_blk
      → Returns
          (Stepped sp w n)
          (some (next_page (record w { lun = 0; pg = w.pg + sp.pgs_per_oneshotpg })))
  oneshot_next w n hc hp e el ne =
      let start : w.pg + sp.pgs_per_oneshotpg ≡ (a + 1) * sp.pgs_per_oneshotpg = omega arith in
      let inside =
        digit_bound sp.pgs_per_oneshotpg sp.oneshotpgs_per_blk (a + 1) 0 (next_oneshot_in ne)
          g.oneshot_pos in
      returns (
        record {
          ch_in = rw hc g.nchs_pos;
          lun_in = g.luns_pos;
          pg_in = rw (start, g.pgs_of_oneshots) (omega (arith, inside));
        },
        rw (hc, start, rank_start sp 0 0 (a + 1) g.oneshot_pos)
            (omega (
              arith,
              ap (λ (t : ℕ). t * sp.nchs * sp.pgs_per_oneshotpg) el,
              ap (λ (t : ℕ). a * (t * sp.nchs * sp.pgs_per_oneshotpg)) el,
            )),
        refl,
        refl,
        refl,
      )

  -- Past the last channel: `w.ch` is back at 0.
  advance_lun-Stepped :
      (w : WritePointer) (n : ℕ)
      → w.ch ≡ 0
      → w.lun < sp.luns_per_ch
      → w.pg ≡ a * sp.pgs_per_oneshotpg
      → n + 1 ≡ ((a * sp.luns_per_ch + w.lun) * sp.nchs + sp.nchs) * sp.pgs_per_oneshotpg
      → Returns (Stepped sp w n) (advance_lun sp w)
  unfolding advance_lun
  advance_lun-Stepped w n hc hl hp e =
      Returns-assert {b = ltb w.lun sp.luns_per_ch} (ground arith) (
        Returns-if (w.lun + 1 == sp.luns_per_ch)
          (λ last.
            Returns-if (w.pg + sp.pgs_per_oneshotpg == sp.pgs_per_blk)
              (λ end. returns (
                line_full w n e (full_turn w.lun sp.luns_per_ch last)
                    (rw (← hp) (full_sum _ _ end)),
                hc,
                refl,
                refl,
                refl,
                refl,
                refl,
              ))
              (λ inside.
                oneshot_next w n hc hp e (full_turn w.lun sp.luns_per_ch last)
                  (rw (← hp) (part_sum _ _ inside))))
          (λ more. returns (
            record { ch_in = rw hc g.nchs_pos; lun_in = ground arith; pg_in = rw hp oneshot_in },
            rw (hc, hp, rank_start sp 0 (w.lun + 1) a g.oneshot_pos) (omega arith),
            refl,
            refl,
            refl,
          )))

  advance_ch-Stepped :
      (w : WritePointer) (n : ℕ)
      → w.ch < sp.nchs
      → w.lun < sp.luns_per_ch
      → w.pg ≡ a * sp.pgs_per_oneshotpg
      → n + 1
        ≡ ((a * sp.luns_per_ch + w.lun) * sp.nchs + w.ch) * sp.pgs_per_oneshotpg
          + sp.pgs_per_oneshotpg
      → Returns (Stepped sp w n) (advance_ch sp w)
  unfolding advance_ch
  advance_ch-Stepped w n hc hl hp e = Returns-assert {b = ltb w.ch sp.nchs} (ground arith) (
      Returns-if (w.ch + 1 == sp.nchs)
        (λ last.
          advance_lun-Stepped (record w { ch = 0 }) n refl hl hp
            (omega (arith, ap (λ (t : ℕ). t * sp.pgs_per_oneshotpg) (full_turn w.ch sp.nchs last))))
        (λ more. returns (
          record { ch_in = ground arith; lun_in = hl; pg_in = rw hp oneshot_in },
          rw (hp, rank_start sp (w.ch + 1) w.lun a g.oneshot_pos) (omega arith),
          refl,
          refl,
          refl,
        )))

Stepped-Advanced :
    (sp : SsdParams) (w v : WritePointer) (n : ℕ) (p : Position)
    → v.curline ≡ w.curline
    → v.blk ≡ w.blk
    → v.pl ≡ w.pl
    → rank sp w.ch w.lun w.pg ≡ n
    → Stepped sp v n p
    → Advanced sp w p
Stepped-Advanced sp w v n (next_page w') hc hb hl e s =
    (s.0, s.1 ∙ ap (λ t. t + 1) (sym e), s.2 ∙ hc, s.3 ∙ hb, s.4 ∙ hl)
Stepped-Advanced sp w v n (line_end w') hc hb hl e s =
    (rw e s.0, s.1, s.2, s.3, s.4 ∙ hc, s.5 ∙ hb, s.6 ∙ hl)

module _ (sp : SsdParams) (g : IsGeometry sp) (w : WritePointer) (v : IsPointer sp w) where
  oneshot_of_page : w.pg / sp.pgs_per_oneshotpg < sp.oneshotpgs_per_blk
  oneshot_of_page =
      quotient_lt sp.pgs_per_oneshotpg sp.oneshotpgs_per_blk w.pg (rw g.pgs_of_oneshots at v.pg_in)

  -- Within a oneshot page.
  advance_pg-Advanced :
      (w.pg + 1) % sp.pgs_per_oneshotpg ≢ 0 → Advanced sp w (next_page (record w { pg = w.pg + 1 }))
  advance_pg-Advanced ne =
      let o = sp.pgs_per_oneshotpg in
      let b = not_last_in_group o w.pg g.oneshot_pos ne in
      let e = successor o w.pg in
      let inside =
        digit_bound o sp.oneshotpgs_per_blk (w.pg / o) (w.pg % o + 1) oneshot_of_page b in
      (
        record {
          ch_in = v.ch_in;
          lun_in = v.lun_in;
          pg_in = rw g.pgs_of_oneshots (omega (arith, e, inside));
        },
        ap (rank sp w.ch w.lun) e
            ∙ rank_digits sp w.ch w.lun (w.pg / o) (w.pg % o + 1) b
            ∙ rank_suc sp w.ch w.lun w.pg,
        refl,
        refl,
        refl,
      )

  -- Past the end of a oneshot page.
  advance_oneshot-Advanced :
      (w.pg + 1) % sp.pgs_per_oneshotpg ≡ 0
      → Returns (Advanced sp w) (advance_ch sp (record w { pg = w.pg + 1 - sp.pgs_per_oneshotpg }))
  advance_oneshot-Advanced e =
      let o = sp.pgs_per_oneshotpg in
      let b = last_in_group o w.pg g.oneshot_pos e in
      let start : w.pg + 1 - o ≡ w.pg / o * o =
        omega (arith, next_multiple o w.pg g.oneshot_pos b) in
      Returns-map
        (advance_ch-Stepped sp g (w.pg / o) oneshot_of_page (record w { pg = w.pg + 1 - o })
          (rank sp w.ch w.lun w.pg) v.ch_in v.lun_in start (rank_last sp w.ch w.lun w.pg b))
        λ p s. Stepped-Advanced sp w (record w { pg = w.pg + 1 - o }) _ p refl refl refl refl s

-- One step from any page of a line: the pointer moves to the page of the next rank of the same line,
-- or it stood at the last page, and is set back to the start. No range check of the code fails.
pub advance_position-Advanced :
    (sp : SsdParams) (w : WritePointer)
    → IsGeometry sp
    → IsPointer sp w
    → Returns (Advanced sp w) (advance_position sp w)
unfolding advance_position
advance_position-Advanced sp w g v =
    Returns-assert {b = ltb w.pg sp.pgs_per_blk} (ground (arith, v.pg_in)) (
      Returns-if ((w.pg + 1) % sp.pgs_per_oneshotpg == 0)
        (λ full. advance_oneshot-Advanced sp g w v (full_sum _ _ full))
        (λ more. returns (advance_pg-Advanced sp g w v (part_sum _ _ more))))
