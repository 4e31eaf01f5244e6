-- ===== src/Ssd/Address.antt =====
-- ssd.h: the physical page address `struct ppa`, a union of bit fields and one 64-bit word.
pub mod Laws
use nvmevirt_fdp.Prelude.{ℕ, ◌+◌, ◌-◌, ◌*◌, ◌/◌, ◌%◌, ◌^◌, ◌<◌, Bool, not, ◌&&◌, ◌==◌}

-- The view `g`: pg 16 bits, blk 16, pl 8, lun 8, ch 8, rsv 8, from the lowest bit up.
pub record Ppa : Type 0 where
  pub pg : ℕ
  pub blk : ℕ
  pub pl : ℕ
  pub lun : ℕ
  pub ch : ℕ
  pub rsv : ℕ

-- The fields fit their widths.
pub record IsPpa (p : Ppa) : Type 0 where
  pub pg_in : p.pg < 2 ^ 16
  pub blk_in : p.blk < 2 ^ 16
  pub pl_in : p.pl < 2 ^ 8
  pub lun_in : p.lun < 2 ^ 8
  pub ch_in : p.ch < 2 ^ 8
  pub rsv_in : p.rsv < 2 ^ 8

-- The view `ppa`: the union's word.
unfoldable pub word : Ppa → ℕ
word p = p.pg + 2 ^ 16 * p.blk + 2 ^ 32 * p.pl + 2 ^ 40 * p.lun + 2 ^ 48 * p.ch + 2 ^ 56 * p.rsv

-- The fields of a word.
unfoldable pub of_word : ℕ → Ppa
of_word w = record {
  pg = w % 2 ^ 16;
  blk = w / 2 ^ 16 % 2 ^ 16;
  pl = w / 2 ^ 32 % 2 ^ 8;
  lun = w / 2 ^ 40 % 2 ^ 8;
  ch = w / 2 ^ 48 % 2 ^ 8;
  rsv = w / 2 ^ 56 % 2 ^ 8;
}

-- The view `h`: `blk_in_ssd` is bits 16 to 55 of the word.
unfoldable pub blk_in_ssd : Ppa → ℕ
unfolding word
blk_in_ssd p = word p / 2 ^ 16 % 2 ^ 40

-- `UNMAPPED_PPA` and `INVALID_LPN`, all ones.
abbrev pub unmapped_ppa : ℕ
unmapped_ppa = 2 ^ 64 - 1

abbrev pub invalid_lpn : ℕ
invalid_lpn = 2 ^ 64 - 1

unfoldable pub mapped_ppa : Ppa → Bool
unfolding word
mapped_ppa p = not (word p == unmapped_ppa)

-- `get_blk` and `get_pg` lead to one object for both addresses.
abbrev pub same_blk : Ppa → Ppa → Bool
same_blk p q = p.ch == q.ch && p.lun == q.lun && p.pl == q.pl && p.blk == q.blk

abbrev pub same_pg : Ppa → Ppa → Bool
same_pg p q = same_blk p q && p.pg == q.pg
