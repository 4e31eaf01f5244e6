-- ===== src/Ssd/Address/Laws.antt =====
-- The two views of `struct ppa` in ssd.h.
use nvmevirt_fdp.Prelude.{ℕ, ◌^◌, ◌<◌, ◌≡◌, ◌↔◌, sym, ap, ◌∙◌, true, arith}
use nvmevirt_fdp.Ssd.Address.{Ppa, IsPpa, word, of_word, blk_in_ssd, mapped_ppa, same_blk}

-- The fields read back from the word that they were packed into.
pub of_word-word : (p : Ppa) → IsPpa p → of_word (word p) ≡ p
unfolding word of_word
of_word-word p v = ground arith

-- Any 64-bit word is the word of its fields.
pub word-of_word : (w : ℕ) → w < 2 ^ 64 → word (of_word w) ≡ w
unfolding word of_word
word-of_word w h = omega arith

pub word-injective : (p q : Ppa) → IsPpa p → IsPpa q → word p ≡ word q → p ≡ q
word-injective p q v w e = sym (of_word-word p v) ∙ ap of_word e ∙ of_word-word q w

-- An address whose reserved bits are clear is never the unmapped one.
pub mapped_ppa_of_rsv : (p : Ppa) → IsPpa p → p.rsv ≡ 0 → mapped_ppa p ≡ true
unfolding mapped_ppa word
mapped_ppa_of_rsv p v h = ground arith

-- `is_same_flash_page` compares the view `h`: equal there means the same block.
pub blk_in_ssd_iff :
    (p q : Ppa) → IsPpa p → IsPpa q → (blk_in_ssd p ≡ blk_in_ssd q) ↔ (same_blk p q ≡ true)
unfolding blk_in_ssd word
blk_in_ssd_iff p q v w = (λ e. ground arith, λ e. ground arith)
