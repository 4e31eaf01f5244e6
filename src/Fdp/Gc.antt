-- ===== src/Fdp/Gc.antt =====
-- fdp_ftl.c: garbage collection, and the write credits that trigger it.
use nvmevirt_fdp.Prelude.{
  ℕ, ◌+◌, ◌*◌, ◌/◌, ◌%◌, ◌^◌, Bool, true, false, not, ◌&&◌, Option, none, some, ltb, leb, ◌==◌,
  if◌then◌else◌, ◌>>=◌, ◌>>◌, nvmev_assert, for_range,
}
use nvmevirt_fdp.Ssd.Config.{SsdParams, u32, u64}
use nvmevirt_fdp.Ssd.Address.{Ppa}
use nvmevirt_fdp.Ssd.Geometry.{valid_lpn}
use nvmevirt_fdp.Ssd.Media.{is_free, is_valid}
use nvmevirt_fdp.Ssd.Nand.{
  NandCmd, nand_read, nand_write, nand_erase, nand_nop, get_lun, set_lun, read_clock,
  ssd_advance_nand,
}
use nvmevirt_fdp.Fdp.Context.{fdp_emit_event, evt_implicit_modified_ru, event_f_piv}
use nvmevirt_fdp.Fdp.Lines.{PQueue, set_line}
use nvmevirt_fdp.Fdp.State.{Ftl, Dev, gc_io, dec32}
use nvmevirt_fdp.Fdp.Mapping.{get_rmap_ent, set_rmap_ent, set_maptbl_ent}
use nvmevirt_fdp.Fdp.Pointers.{advance_write_pointer, get_new_page}
use nvmevirt_fdp.Fdp.Pages.{mark_page_valid, mark_block_free, mark_line_free}

-- `last_pg_in_wordline`.
unfoldable pub last_pg_in_wordline : SsdParams → Ppa → Bool
last_pg_in_wordline sp p = p.pg % sp.pgs_per_oneshotpg + 1 == sp.pgs_per_oneshotpg

-- The command of `gc_write_page`: a wordline is programmed with its last page.
unfoldable pub gcw : SsdParams → Ppa → NandCmd
unfolding last_pg_in_wordline
gcw sp p =
    if last_pg_in_wordline sp p
    then record {
      cmd = nand_write;
      xfer_size = sp.pgsz * sp.pgs_per_oneshotpg;
      stime = 0;
      interleave_pci_dma = false;
      ppa = p;
    }
    else record { cmd = nand_nop; xfer_size = 0; stime = 0; interleave_pci_dma = false; ppa = p }

-- The pages of a flash page, from `p` on: `ppa_copy.g.pg++` on the bit field.
abbrev pub page_after : Ppa → ℕ → Ppa
page_after p i = record p { pg = (p.pg + i) % 2 ^ 16 }

module _ {Q : Type 0} where
  -- `should_gc_high`.
  unfoldable pub should_gc_high : Ftl Q → Bool
  should_gc_high f = leb f.lm.free_line_cnt f.cp.gc_thres_lines_high

  -- `fdp_emit_event` at the time that `local_clock()` shows. If the event is not enabled the reading
  -- is not made; `clock` is arbitrary, so one reading more changes nothing else.
  unfoldable pub emit_now : Dev Q → ℕ → ℕ → ℕ → ℕ → Dev Q
  unfolding read_clock
  emit_now d type flags pid nsid =
      let (now, t) = read_clock d.time in
      record d { time = t; ctx = fdp_emit_event d.ctx now type flags pid nsid }

  -- `ssd_advance_nand` on the partition's device.
  unfoldable pub advance : Dev Q → NandCmd → Option (ℕ × Dev Q)
  advance d n = do
    (time, t) ← ssd_advance_nand d.ftl.sp n d.time
    some (time, record d { time = t })

  -- The same where the code does it only with `enable_gc_delay`, and drops the time.
  unfoldable pub gc_delay : Dev Q → NandCmd → Option (Dev Q)
  unfolding advance
  gc_delay d n = if d.ftl.cp.enable_gc_delay then (do (_, d') ← advance d n; some d') else some d

  abbrev pub set_credits : Dev Q → ℕ → Dev Q
  set_credits d n =
      let f = d.ftl in record d { ftl = record f { wfc = record (f.wfc) { write_credits = n } } }

  -- The first loop of `clean_one_flashpg`: how many pages are valid. None may be free.
  unfoldable pub count_valid : Ftl Q → Ppa → Option ℕ
  unfolding for_range
  count_valid f p =
      for_range f.sp.pgs_per_flashpg 0
        (λ i cnt. do
          nvmev_assert (not (is_free (f.media.get_pg (page_after p i))))
          some (if is_valid (f.media.get_pg (page_after p i)) then cnt + 1 else cnt))
        0

  -- The end of `do_gc`'s innermost loop: the last flash page frees the block. The LUN's time is kept
  -- as `gc_endtime`.
  unfoldable pub free_block : Dev Q → Ppa → Option (Dev Q)
  unfolding mark_block_free gc_delay set_lun
  free_block d p = do
    let (f, c) = mark_block_free d.ftl d.ctx p
    d' ←
        gc_delay (record d { ftl = f; ctx = c })
          (record {
            cmd = nand_erase;
            xfer_size = 0;
            stime = 0;
            interleave_pci_dma = false;
            ppa = p;
          })
    let lun = get_lun d'.time p
    some (record d' {
      time = set_lun d'.time p (record lun { gc_endtime = lun.next_lun_avail_time });
    })

module _ (pq : PQueue) where
  -- The state changes of `gc_write_page`: the page's logical page moves to the GC line.
  unfoldable pub move_page : Ftl pq.Q → Ppa → Option (Ppa × Ftl pq.Q)
  unfolding get_rmap_ent get_new_page set_maptbl_ent set_rmap_ent mark_page_valid
      advance_write_pointer valid_lpn
  move_page f old_ppa = do
    lpn ← get_rmap_ent f old_ppa
    nvmev_assert (valid_lpn f.sp lpn)
    new_ppa ← get_new_page f gc_io 0
    f1 ← set_maptbl_ent f lpn new_ppa
    f2 ← set_rmap_ent f1 lpn new_ppa
    f3 ← mark_page_valid f2 new_ppa
    f4 ← advance_write_pointer pq f3 gc_io 0
    some (new_ppa, f4)

  -- `gc_write_page`.
  unfoldable pub gc_write_page : Dev pq.Q → Ppa → Option (Dev pq.Q)
  unfolding move_page gc_delay gcw
  gc_write_page d old_ppa = do
    (new_ppa, f) ← move_page d.ftl old_ppa
    let d' = record d { ftl = f; ctx = record (d.ctx) { mbmw = u64 (d.ctx.mbmw + f.sp.pgsz) } }
    gc_delay d' (gcw f.sp new_ppa)

  -- The second loop of `clean_one_flashpg`.
  unfoldable pub move_valid : Ppa → ℕ → Dev pq.Q → Option (Dev pq.Q)
  unfolding gc_write_page
  move_valid p i d =
      if is_valid (d.ftl.media.get_pg (page_after p i))
      then gc_write_page d (page_after p i)
      else some d

  -- `clean_one_flashpg`.
  unfoldable pub clean_one_flashpg : Dev pq.Q → Ppa → Option (Dev pq.Q)
  unfolding count_valid gc_delay for_range move_valid
  clean_one_flashpg d p = do
    cnt ← count_valid d.ftl p
    if cnt == 0 then some d else (do
      d' ← gc_delay d (record {
        cmd = nand_read;
        xfer_size = d.ftl.sp.pgsz * cnt;
        stime = 0;
        interleave_pci_dma = false;
        ppa = p;
      })
      for_range d.ftl.sp.pgs_per_flashpg 0 (λ i. move_valid p i) d')

  -- `select_victim_line`; `none` inside for NULL.
  unfoldable pub select_victim_line : Ftl pq.Q → Bool → Option (ℕ × Ftl pq.Q)
  select_victim_line f force = do
    i ← pq.pqueue_peek f.lm.victim_line_pq
    if not force && ltb (f.sp.pgs_per_line / 8) (f.lm.lines i).vpc then none else (do
      let (q, ls) = pq.pqueue_pop (f.lm.victim_line_pq, f.lm.lines)
      some (
        i,
        record f {
          lm = record (f.lm) {
            victim_line_pq = q;
            lines = set_line ls i (record (ls i) { pos = 0 });
            victim_line_cnt = dec32 f.lm.victim_line_cnt;
          };
        },
      ))

  -- The body of `do_gc`'s loops: one flash page of one block of the victim. The reserved bits of the
  -- address, which the code leaves uninitialised and never reads, are 0.
  unfoldable pub gc_flashpg : ℕ → ℕ → ℕ → ℕ → Dev pq.Q → Option (Dev pq.Q)
  unfolding clean_one_flashpg free_block
  gc_flashpg blk flashpg ch lun d = do
    d' ← clean_one_flashpg d p
    if flashpg + 1 == d.ftl.sp.flashpgs_per_blk then free_block d' p else some d'
    where
      p : Ppa
      p = record {
        pg = flashpg * d.ftl.sp.pgs_per_flashpg % 2 ^ 16;
        blk = blk % 2 ^ 16;
        pl = 0;
        lun = lun % 2 ^ 8;
        ch = ch % 2 ^ 8;
        rsv = 0;
      }

  -- The three loops of `do_gc`.
  unfoldable pub gc_line : SsdParams → ℕ → Dev pq.Q → Option (Dev pq.Q)
  unfolding for_range gc_flashpg
  gc_line sp blk d =
      for_range sp.flashpgs_per_blk 0
        (λ flashpg.
          for_range sp.nchs 0
            (λ ch. for_range sp.luns_per_ch 0 (λ lun. gc_flashpg blk flashpg ch lun)))
        d

  -- GC is about to move data that the host placed through a handle.
  unfoldable pub emit_modified : Dev pq.Q → Option ℕ → Dev pq.Q
  unfolding emit_now
  emit_modified d none = d
  emit_modified d (some ruh) = emit_now d evt_implicit_modified_ru event_f_piv ruh 0

  -- `do_gc` from the selected victim on.
  unfoldable pub collect : Dev pq.Q → ℕ → Option (Dev pq.Q)
  unfolding emit_modified gc_line mark_line_free
  collect d i = do
    let victim = d.ftl.lm.lines i
    let d1 = emit_modified d victim.ruh
    let f = d1.ftl
    let d2 = record d1 {
      ftl = record f { wfc = record (f.wfc) { credits_to_refill = u32 victim.ipc } };
    }
    d3 ← gc_line f.sp victim.id d2
    some (record d3 {
      ftl =
          mark_line_free d3.ftl
            (record { pg = 0; blk = victim.id % 2 ^ 16; pl = 0; lun = 0; ch = 0; rsv = 0 });
    })

  -- `do_gc`: whether a line was collected (0), or none could be (-1).
  unfoldable pub do_gc : Dev pq.Q → Bool → Option (Bool × Dev pq.Q)
  unfolding select_victim_line collect
  do_gc d force = elim (select_victim_line d.ftl force) [
    | none ↦ some (false, d)
    | some (i, f) ↦ (collect (record d { ftl = f }) i >>= λ d'. some (true, d'))
  ]

  -- `foreground_gc`.
  unfoldable pub foreground_gc : Dev pq.Q → Option (Dev pq.Q)
  unfolding should_gc_high do_gc
  foreground_gc d = if should_gc_high d.ftl then (do (_, d') ← do_gc d true; some d') else some d

  -- `consume_write_credit` and `check_and_refill_write_credit`. The credits are unsigned, so
  -- `<= 0` is `== 0`.
  unfoldable pub use_credit : Dev pq.Q → Option (Dev pq.Q)
  unfolding foreground_gc
  use_credit d = do
    let d0 = set_credits d (dec32 d.ftl.wfc.write_credits)
    if d0.ftl.wfc.write_credits == 0
        then (do
          d1 ← foreground_gc d0
          let wfc = d1.ftl.wfc
          some (set_credits d1 (u32 (wfc.write_credits + wfc.credits_to_refill))))
        else some d0
