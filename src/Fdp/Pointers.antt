-- ===== src/Fdp/Pointers.antt =====
-- fdp_ftl.c: free lines, and the write pointers: one open line for each reclaim unit handle, and one
-- for garbage collection.
pub mod Order
pub mod Visits
use nvmevirt_fdp.Prelude.{
  ℕ, ◌+◌, ◌-◌, ◌%◌, ◌^◌, Bool, not, ◌&&◌, Option, none, some, List, [], ◌∷◌, ◌++◌, ltb, leb, ◌==◌,
  if◌then◌else◌, ◌>>=◌, ◌>>◌, nvmev_assert,
}
use nvmevirt_fdp.Ssd.Config.{SsdParams, fdp_nr_ruh}
use nvmevirt_fdp.Ssd.Address.{Ppa}
use nvmevirt_fdp.Fdp.Lines.{Line, PQueue, set_line}
use nvmevirt_fdp.Fdp.State.{Ftl, LineMgmt, WritePointer, IoType, user_io, gc_io, inc32, dec32}

-- `check_addr`.
abbrev pub check_addr : ℕ → ℕ → Option (Unit {0})
check_addr a max = nvmev_assert (ltb a max)

-- Where the next page lies, or that the line is written to its end. The steps that the function
-- takes before it looks at the line; `wpp->pg` is a positive multiple of the oneshot page where it
-- is lowered.
pub data Position : Type 0 where
  next_page line_end : WritePointer → Position

unfoldable pub advance_lun : SsdParams → WritePointer → Option Position
advance_lun sp w = do
  check_addr w.lun sp.luns_per_ch
  if w.lun + 1 == sp.luns_per_ch
      then if w.pg + sp.pgs_per_oneshotpg == sp.pgs_per_blk
        then some (Position.line_end (record w { lun = 0; pg = 0 }))
        else some (Position.next_page (record w { lun = 0; pg = w.pg + sp.pgs_per_oneshotpg }))
      else some (Position.next_page (record w { lun = w.lun + 1 }))

unfoldable pub advance_ch : SsdParams → WritePointer → Option Position
unfolding advance_lun
advance_ch sp w = do
  check_addr w.ch sp.nchs
  if w.ch + 1 == sp.nchs
      then advance_lun sp (record w { ch = 0 })
      else some (Position.next_page (record w { ch = w.ch + 1 }))

unfoldable pub advance_position : SsdParams → WritePointer → Option Position
unfolding advance_ch
advance_position sp w = do
  check_addr w.pg sp.pgs_per_blk
  if (w.pg + 1) % sp.pgs_per_oneshotpg == 0
      then advance_ch sp (record w { pg = w.pg + 1 - sp.pgs_per_oneshotpg })
      else some (Position.next_page (record w { pg = w.pg + 1 }))

-- `curline->ruh = (io_type == USER_IO) ? (int)ruh : -1`.
abbrev pub line_ruh : IoType → ℕ → Option ℕ
line_ruh user_io ruh = some ruh
line_ruh gc_io ruh = none

module _ {Q : Type 0} where
  -- `get_next_free_line`: the index of the line, or `none` for NULL.
  unfoldable pub get_next_free_line : Ftl Q → Option (ℕ × Ftl Q)
  get_next_free_line f = elim f.lm.free_line_list [
    | [] ↦ none
    | i ∷ rest ↦ some (
      i,
      record f {
        lm = record (f.lm) { free_line_list = rest; free_line_cnt = dec32 f.lm.free_line_cnt };
      },
    )
  ]

  -- `__get_wp`.
  unfoldable pub get_wp : Ftl Q → IoType → ℕ → Option WritePointer
  get_wp f user_io ruh = do nvmev_assert (ltb ruh fdp_nr_ruh); some (f.wp_ruh ruh)
  get_wp f gc_io ruh = some f.gc_wp

  -- A store through the pointer that `__get_wp` returned.
  unfoldable pub set_wp : Ftl Q → IoType → ℕ → WritePointer → Ftl Q
  set_wp f user_io ruh w = record f { wp_ruh = λ r. if ruh == r then w else f.wp_ruh r }
  set_wp f gc_io ruh w = record f { gc_wp = w }

  unfoldable pub label_line : Ftl Q → ℕ → IoType → ℕ → Ftl Q
  label_line f i io ruh = record f {
    lm = record (f.lm) {
      lines = set_line f.lm.lines i (record (f.lm.lines i) { ruh = line_ruh io ruh });
    };
  }

  -- `prepare_write_pointer`. `get_next_free_line` has no line only if the assertion fails.
  unfoldable pub prepare_write_pointer : Ftl Q → IoType → ℕ → Option (Ftl Q)
  unfolding get_wp get_next_free_line label_line set_wp
  prepare_write_pointer f io ruh = do
    _ ← get_wp f io ruh
    (i, f') ← get_next_free_line f
    let g = label_line f' i io ruh
    some (
        set_wp g io ruh
          (record { curline = i; ch = 0; lun = 0; pg = 0; blk = (g.lm.lines i).id; pl = 0 }))

  -- `get_new_page`; the stores to bit fields keep the low bits.
  unfoldable pub get_new_page : Ftl Q → IoType → ℕ → Option Ppa
  unfolding get_wp
  get_new_page f io ruh = do
    w ← get_wp f io ruh
    nvmev_assert (w.pl % 2 ^ 8 == 0)
    some (record {
      pg = w.pg % 2 ^ 16;
      blk = w.blk % 2 ^ 16;
      pl = w.pl % 2 ^ 8;
      lun = w.lun % 2 ^ 8;
      ch = w.ch % 2 ^ 8;
      rsv = 0;
    })

module _ (pq : PQueue) where
  -- The line that was written to its end goes to the full lines, or to the victims.
  unfoldable pub close_line : Ftl pq.Q → ℕ → Option (Ftl pq.Q)
  close_line f i =
      if line.vpc == f.sp.pgs_per_line
      then (do
        nvmev_assert (line.ipc == 0)
        some (record f {
          lm = record (f.lm) {
            full_line_list = f.lm.full_line_list ++ i ∷ [];
            full_line_cnt = inc32 f.lm.full_line_cnt;
          };
        }))
      else (do
        nvmev_assert (ltb line.vpc f.sp.pgs_per_line)
        nvmev_assert (ltb 0 line.ipc)
        let (q, ls) = pq.pqueue_insert (f.lm.victim_line_pq, f.lm.lines) i
        some (record f {
          lm = record (f.lm) {
            victim_line_pq = q;
            lines = ls;
            victim_line_cnt = inc32 f.lm.victim_line_cnt;
          };
        }))
    where
      line : Line
      line = f.lm.lines i

  -- The rest of `advance_write_pointer` at the end of a line. Without a free line the code stores
  -- through NULL.
  unfoldable pub next_line : Ftl pq.Q → IoType → ℕ → WritePointer → Option (Ftl pq.Q)
  unfolding close_line get_next_free_line label_line set_wp
  next_line f io ruh w = do
    f1 ← close_line f w.curline
    check_addr w.blk f.sp.blks_per_pl
    (i, f2) ← get_next_free_line f1
    let f3 = label_line f2 i io ruh
    let blk = (f3.lm.lines i).id
    check_addr blk f.sp.blks_per_pl
    nvmev_assert (w.pg == 0)
    nvmev_assert (w.lun == 0)
    nvmev_assert (w.ch == 0)
    nvmev_assert (w.pl == 0)
    some (set_wp f3 io ruh (record w { curline = i; blk = blk }))

  -- `advance_write_pointer`.
  unfoldable pub advance_write_pointer : Ftl pq.Q → IoType → ℕ → Option (Ftl pq.Q)
  unfolding get_wp advance_position set_wp next_line
  advance_write_pointer f io ruh = do
    w ← get_wp f io ruh
    position ← advance_position f.sp w
    elim position [
      | Position.next_page w' ↦ some (set_wp f io ruh w')
      | Position.line_end w' ↦ next_line f io ruh w'
    ]
