-- ===== src/Fdp/Pointers/Visits.antt =====
-- The runs of `advance_write_pointer` of fdp_ftl.c over the pages of a line.
use nvmevirt_fdp.Prelude.{
  ℕ, zero, suc, ◌+◌, ◌-◌, ◌*◌, ◌/◌, ◌%◌, ◌<◌, ◌≡◌, refl, ap, ◌∙◌, arith, digit_unique, digit_bound,
  of_digits, quotient_lt, Option, some, none, ◌>>=◌, Returns-inv,
}
use native.Mathlib.Nat.{div-add-mod'}
use nvmevirt_fdp.Ssd.Config.{SsdParams}
use nvmevirt_fdp.Ssd.Geometry.{IsGeometry}
use nvmevirt_fdp.Fdp.State.{WritePointer}
use nvmevirt_fdp.Fdp.Pointers.{Position, next_page, line_end, advance_position}
use nvmevirt_fdp.Fdp.Pointers.Order.{IsPointer, rank, Advanced, advance_position-Advanced}

module _ (sp : SsdParams) (g : IsGeometry sp) where
  rank-injective :
      (v w : WritePointer)
      → IsPointer sp v
      → IsPointer sp w
      → rank sp v.ch v.lun v.pg ≡ rank sp w.ch w.lun w.pg
      → (v.ch ≡ w.ch) × (v.lun ≡ w.lun) × (v.pg ≡ w.pg)
  unfolding rank
  rank-injective v w hv hw e =
      let o = sp.pgs_per_oneshotpg in
      let pos = g.oneshot_pos in
      let pgs = digit_unique o _ _ (v.pg % o) (w.pg % o) (omega arith) (omega arith) e in
      let chs = digit_unique sp.nchs _ _ v.ch w.ch hv.ch_in hw.ch_in pgs.0 in
      let luns =
        digit_unique sp.luns_per_ch (v.pg / o) (w.pg / o) v.lun w.lun hv.lun_in hw.lun_in chs.0 in
      (
        chs.1,
        luns.1,
        omega
            (arith, div-add-mod' v.pg o, div-add-mod' w.pg o, ap (λ (t : ℕ). t * o) luns.0, pgs.1),
      )

  rank_bound : (w : WritePointer) → IsPointer sp w → rank sp w.ch w.lun w.pg < sp.pgs_per_line
  unfolding rank
  rank_bound w v =
      let o = sp.pgs_per_oneshotpg in
      let pos = g.oneshot_pos in
      let shots = quotient_lt o sp.oneshotpgs_per_blk w.pg (rw g.pgs_of_oneshots at v.pg_in) in
      let luns = digit_bound sp.luns_per_ch sp.oneshotpgs_per_blk (w.pg / o) w.lun shots v.lun_in in
      let chs = digit_bound sp.nchs (sp.oneshotpgs_per_blk * sp.luns_per_ch) _ w.ch luns v.ch_in in
      let pgs =
        digit_bound o (sp.oneshotpgs_per_blk * sp.luns_per_ch * sp.nchs) _ (w.pg % o) chs
          (omega arith) in
      rw (g.line_pgs, g.pgs_of_oneshots) (omega (arith, pgs))

-- The position after some steps. A pointer that was set back is not stepped further.
unfoldable pub step_from : SsdParams → Position → Option Position
step_from sp (next_page w) = advance_position sp w
step_from sp (line_end w) = none

unfoldable pub run_position : SsdParams → ℕ → WritePointer → Option Position
unfolding step_from
run_position sp zero w = some (next_page w)
run_position sp (suc k) w = run_position sp k w >>= λ p. step_from sp p

-- The pointer at the `k`-th page of the line of `s`.
record IsAt (sp : SsdParams) (s : WritePointer) (k : ℕ) (w : WritePointer) : Type 0 where
  at : IsPointer sp w
  ranked : rank sp w.ch w.lun w.pg ≡ k
  line : w.curline ≡ s.curline
  block : w.blk ≡ s.blk
  plane : w.pl ≡ s.pl

abbrev pub start_of : WritePointer → WritePointer
start_of w = record w { ch = 0; lun = 0; pg = 0 }

module _ (sp : SsdParams) (g : IsGeometry sp) (s : WritePointer) where
  rank_zero : rank sp 0 0 0 ≡ 0
  unfolding rank
  rank_zero =
      let o = sp.pgs_per_oneshotpg in
      let z = of_digits o 0 0 g.oneshot_pos in
      let none_below : 0 ≡ 0 * o + 0 = omega arith in
      let quotient = ap (λ t. t / o) none_below ∙ z.0 in
      let remainder = ap (λ t. t % o) none_below ∙ z.1 in rw (quotient, remainder) (omega arith)

  page_zero : 0 < sp.pgs_per_blk
  page_zero = rw g.pgs_of_oneshots (
      omega (
        arith,
        digit_bound sp.pgs_per_oneshotpg sp.oneshotpgs_per_blk 0 0 g.oneshots_pos g.oneshot_pos,
      ))

  step_on :
      (k : ℕ) (w : WritePointer) (p : Position)
      → IsAt sp s k w
      → advance_position sp w ≡ some p
      → run_position sp k (start_of s) ≡ some (next_page w)
      → suc k < sp.pgs_per_line
      → Advanced sp w p
      → (w' : WritePointer) × (run_position sp (suc k) (start_of s) ≡ some (next_page w'))
        × IsAt sp s (suc k) w'
  unfolding run_position
  step_on k w (next_page w') v f e h a = (
    w',
    rw e f,
    record {
      at = a.0;
      ranked = omega (arith, a.1, v.ranked);
      line = a.2 ∙ v.line;
      block = a.3 ∙ v.block;
      plane = a.4 ∙ v.plane;
    },
  )
  step_on k w (line_end w') v f e h a = absurd (omega (arith, a.0, v.ranked))

  run_position-IsAt :
      (k : ℕ)
      → k < sp.pgs_per_line
      → (w : WritePointer) × (run_position sp k (start_of s) ≡ some (next_page w)) × IsAt sp s k w
  unfolding run_position
  run_position-IsAt zero h = (
    start_of s,
    refl,
    record {
      at = record { ch_in = g.nchs_pos; lun_in = g.luns_pos; pg_in = page_zero };
      ranked = rank_zero;
      line = refl;
      block = refl;
      plane = refl;
    },
  )
  run_position-IsAt (suc k) h =
      let (w, e, v) = run_position-IsAt k (omega arith) in
      let (p, f, a) = Returns-inv (advance_position-Advanced sp w g v.at) in step_on k w p v f e h a

  -- From the start of a line, a page of the line is reached after exactly as many steps as pages come
  -- before it, and the pointer then stands at that page of the same line.
  pub run_position-visits :
      (ch lun pg : ℕ)
      → IsPointer sp (record s { ch = ch; lun = lun; pg = pg })
      → run_position sp (rank sp ch lun pg) (start_of s)
        ≡ some (next_page (record s { ch = ch; lun = lun; pg = pg }))
  run_position-visits ch lun pg v =
      let target : WritePointer = record s { ch = ch; lun = lun; pg = pg } in
      let (w, e, a) = run_position-IsAt (rank sp ch lun pg) (rank_bound sp g target v) in
      let same = rank-injective sp g w target a.at v a.ranked in e ∙ ground (arith, same, a)

  last_step :
      (w : WritePointer) (p : Position)
      → IsPointer sp w
      → rank sp w.ch w.lun w.pg + 1 ≡ sp.pgs_per_line
      → (w.curline ≡ s.curline) × (w.blk ≡ s.blk) × (w.pl ≡ s.pl)
      → Advanced sp w p
      → p ≡ line_end (start_of s)
  last_step w (next_page w') v e same a = absurd (omega (arith, a.1, rank_bound sp g w' a.0))
  last_step w (line_end w') v e same a = ground (arith, a, same)

  run_position-end :
      (k : ℕ)
      → suc k ≡ sp.pgs_per_line
      → run_position sp (suc k) (start_of s) ≡ some (line_end (start_of s))
  unfolding run_position
  run_position-end k h =
      let (w, e, v) = run_position-IsAt k (omega arith) in
      let (p, f, a) = Returns-inv (advance_position-Advanced sp w g v.at) in
      rw e (f ∙ ap some (last_step w p v.at (omega (arith, v.ranked)) (v.line, v.block, v.plane) a))

  -- From the start of a line, as many steps as the line has pages end the line, with the pointer set
  -- back to the start.
  pub run_position-line_end :
      run_position sp sp.pgs_per_line (start_of s) ≡ some (line_end (start_of s))
  run_position-line_end =
      let some_page =
        rank_bound sp g (start_of s)
          (record { ch_in = g.nchs_pos; lun_in = g.luns_pos; pg_in = page_zero }) in
      let size : suc (sp.pgs_per_line - 1) ≡ sp.pgs_per_line = omega (arith, some_page) in
      rw size at (run_position-end (sp.pgs_per_line - 1) size)
