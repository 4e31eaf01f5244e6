-- ===== src/Fdp/Pages.antt =====
-- fdp_ftl.c: the status of pages and the valid and invalid counts of blocks and lines.
use nvmevirt_fdp.Prelude.{
  ℕ, ◌+◌, ◌-◌, ◌*◌, not, ◌&&◌, ◌||◌, Option, some, List, [], ◌∷◌, ◌++◌, ltb, leb, ◌==◌,
  if◌then◌else◌, ◌>>=◌, ◌>>◌, nvmev_assert, none,
}
use nvmevirt_fdp.Ssd.Config.{SsdParams, u64}
use nvmevirt_fdp.Ssd.Address.{Ppa, same_blk}
use nvmevirt_fdp.Ssd.Media.{
  Media, pg_free, pg_invalid, pg_valid, is_free, is_valid, set_pg, set_blk,
}
use nvmevirt_fdp.Fdp.Context.{FdpCtx}
use nvmevirt_fdp.Fdp.Lines.{PQueue, set_line}
use nvmevirt_fdp.Fdp.State.{Ftl, inc32, dec32}

-- `list_del_init` of a line's entry: the line leaves the list that it is in.
unfoldable pub list_del : ℕ → List ℕ → List ℕ
list_del i [] = []
list_del i (j ∷ js) = if j == i then js else j ∷ list_del i js

-- The page and its block, in `mark_page_invalid`.
unfoldable pub invalidate_media : SsdParams → Media → Ppa → Option Media
invalidate_media sp m p = do
  nvmev_assert (is_valid (m.get_pg p))
  let blk = m.get_blk p
  nvmev_assert (ltb blk.ipc sp.pgs_per_blk)
  nvmev_assert (ltb 0 blk.vpc && leb blk.vpc sp.pgs_per_blk)
  let m' = set_pg m p pg_invalid
  some (set_blk m' p (record blk { ipc = blk.ipc + 1; vpc = blk.vpc - 1 }))

-- The page and its block, in `mark_page_valid`.
unfoldable pub validate_media : SsdParams → Media → Ppa → Option Media
validate_media sp m p = do
  nvmev_assert (is_free (m.get_pg p))
  let blk = m.get_blk p
  nvmev_assert (ltb blk.vpc sp.pgs_per_blk)
  let m' = set_pg m p pg_valid
  some (set_blk m' p (record blk { vpc = blk.vpc + 1 }))

-- The page and its block, in `mark_block_free`. `npgs` and `nsecs` are as `ssd_init` sets them.
unfoldable pub erase_media : SsdParams → Media → Ppa → Media
erase_media sp m p =
    let blk = m.get_blk p in
    let m' = record m {
      get_pg = λ q. if same_blk p q && ltb q.pg sp.pgs_per_blk then pg_free else m.get_pg q;
    } in
    set_blk m' p (record blk { ipc = 0; vpc = 0; erase_cnt = blk.erase_cnt + 1 })

module _ (pq : PQueue) where
  -- The line of the page, in `mark_page_invalid`: its counts.
  unfoldable pub invalidate_line : Ftl pq.Q → ℕ → Option (Ftl pq.Q)
  invalidate_line f i = do
    let line = f.lm.lines i
    nvmev_assert (ltb line.ipc f.sp.pgs_per_line)
    nvmev_assert (not (line.vpc == f.sp.pgs_per_line) || line.ipc == 0)
    nvmev_assert (ltb 0 line.vpc && leb line.vpc f.sp.pgs_per_line)
    let ls = set_line f.lm.lines i (record line { ipc = line.ipc + 1 })
    some (
        if line.pos == 0
        then record f {
          lm = record (f.lm) {
            lines = set_line ls i (record line { ipc = line.ipc + 1; vpc = line.vpc - 1 });
          };
        }
        else (let (q, ls') = pq.pqueue_change_priority (f.lm.victim_line_pq, ls) (line.vpc - 1) i in
            record f { lm = record (f.lm) { victim_line_pq = q; lines = ls' } }))

  -- A line that was full becomes a victim.
  unfoldable pub full_to_victim : Ftl pq.Q → ℕ → Ftl pq.Q
  unfolding list_del
  full_to_victim f i =
      let (q, ls) = pq.pqueue_insert (f.lm.victim_line_pq, f.lm.lines) i in
      record f {
        lm = record (f.lm) {
          full_line_list = list_del i f.lm.full_line_list;
          full_line_cnt = dec32 f.lm.full_line_cnt;
          victim_line_pq = q;
          lines = ls;
          victim_line_cnt = inc32 f.lm.victim_line_cnt;
        };
      }

  -- `mark_page_invalid`. `get_line` is the line of the block's number.
  unfoldable pub mark_page_invalid : Ftl pq.Q → Ppa → Option (Ftl pq.Q)
  unfolding invalidate_media invalidate_line full_to_victim
  mark_page_invalid f p = do
    m ← invalidate_media f.sp f.media p
    let was_full_line = (f.lm.lines p.blk).vpc == f.sp.pgs_per_line
    f' ← invalidate_line (record f { media = m }) p.blk
    some (if was_full_line then full_to_victim f' p.blk else f')

module _ {Q : Type 0} where
  -- `mark_page_valid`.
  unfoldable pub mark_page_valid : Ftl Q → Ppa → Option (Ftl Q)
  unfolding validate_media
  mark_page_valid f p = do
    m ← validate_media f.sp f.media p
    let line = f.lm.lines p.blk
    nvmev_assert (ltb line.vpc f.sp.pgs_per_line)
    let ls = set_line f.lm.lines p.blk (record line { vpc = line.vpc + 1 })
    some (record f { media = m; lm = record (f.lm) { lines = ls } })

  -- `mark_block_free`, with the erased bytes counted.
  unfoldable pub mark_block_free : Ftl Q → FdpCtx → Ppa → Ftl Q × FdpCtx
  unfolding erase_media
  mark_block_free f c p = (
    record f { media = erase_media f.sp f.media p },
    record c { mbe = u64 (c.mbe + f.sp.pgs_per_blk * f.sp.pgsz) },
  )

  -- `mark_line_free`.
  unfoldable pub mark_line_free : Ftl Q → Ppa → Ftl Q
  mark_line_free f p =
      let line = f.lm.lines p.blk in
      record f {
        lm = record (f.lm) {
          lines = set_line f.lm.lines p.blk (record line { ipc = 0; vpc = 0; ruh = none });
          free_line_list = f.lm.free_line_list ++ p.blk ∷ [];
          free_line_cnt = inc32 f.lm.free_line_cnt;
        };
      }
