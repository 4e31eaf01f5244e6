-- ===== src/Fdp/Init.antt =====
-- fdp_ftl.c: the lines and write pointers of a new partition.
use nvmevirt_fdp.Prelude.{
  ℕ, zero, suc, ◌+◌, Option, some, none, List, [], ◌∷◌, ◌==◌, ◌>>=◌, ◌>>◌, nvmev_assert, for_range,
}
use nvmevirt_fdp.Ssd.Config.{SsdParams, u32, fdp_nr_ruh}
use nvmevirt_fdp.Ssd.Media.{init_media}
use nvmevirt_fdp.Fdp.Lines.{PQueue}
use nvmevirt_fdp.Fdp.State.{Ftl, LineMgmt, WritePointer, WriteFlow, FdpParams, user_io, gc_io}
use nvmevirt_fdp.Fdp.Mapping.{init_maptbl, init_rmap}
use nvmevirt_fdp.Fdp.Pointers.{prepare_write_pointer}

-- The indices from `i` on, which the loop of `init_lines` appends to the free lines.
unfoldable pub line_indices : ℕ → ℕ → List ℕ
line_indices i zero = []
line_indices i (suc n) = i ∷ line_indices (i + 1) n

module _ (pq : PQueue) where
  -- `init_lines`.
  unfoldable pub init_lines : SsdParams → Option (LineMgmt pq.Q)
  unfolding line_indices
  init_lines sp = do
    let tt_lines = u32 sp.blks_per_pl
    nvmev_assert (tt_lines == sp.tt_lines)
    some (record {
      lines = λ i. record { id = i; ipc = 0; vpc = 0; ruh = none; pos = 0 };
      free_line_list = line_indices 0 tt_lines;
      victim_line_pq = pq.pqueue_init sp.tt_lines;
      full_line_list = [];
      tt_lines = tt_lines;
      free_line_cnt = tt_lines;
      victim_line_cnt = 0;
      full_line_cnt = 0;
    })

  -- A write pointer before it is prepared.
  abbrev pub no_pointer : WritePointer
  no_pointer = record { curline = 0; ch = 0; lun = 0; pg = 0; blk = 0; pl = 0 }

  -- `init_write_flow_control`.
  unfoldable pub init_write_flow_control : SsdParams → WriteFlow
  init_write_flow_control sp = record {
    write_credits = u32 sp.pgs_per_line;
    credits_to_refill = u32 sp.pgs_per_line;
  }

  -- `fdp_init_ftl`.
  unfoldable pub fdp_init_ftl : FdpParams → SsdParams → Option (Ftl pq.Q)
  unfolding init_lines init_maptbl init_rmap for_range prepare_write_pointer init_media
      init_write_flow_control
  fdp_init_ftl cp sp = do
    lm ← init_lines sp
    let f : Ftl pq.Q = record {
      sp = sp;
      media = init_media;
      cp = cp;
      maptbl = init_maptbl;
      rmap = init_rmap;
      wp_ruh = λ _. no_pointer;
      gc_wp = no_pointer;
      lm = lm;
      wfc = init_write_flow_control sp;
    }
    f' ← for_range fdp_nr_ruh 0 (λ ruh g. prepare_write_pointer g user_io ruh) f
    prepare_write_pointer f' gc_io 0
