-- ===== src/Tests/Mapping.antt =====
-- The mapping of a small partition.
use nvmevirt_fdp.Prelude.{
  ℕ, zero, suc, ◌+◌, ◌<◌, Bool, ◌≡◌, true, false, refl, List, [], ◌∷◌, Option, none, some, arith,
  if◌then◌else◌, ◌==◌, Ensures, Returns,
}
use nvmevirt_fdp.Ssd.Address.{Ppa, of_word, mapped_ppa, word, same_pg}
use nvmevirt_fdp.Ssd.Geometry.{InDevice, pgidx, ppa2pgidx}
use nvmevirt_fdp.Ssd.Media.{init_media}
use nvmevirt_fdp.Fdp.Lines.{PQueue, set_line}
use nvmevirt_fdp.Fdp.State.{Ftl, Dev, WritePointer, fdp_init_params, user_io, gc_io}
use nvmevirt_fdp.Fdp.Mapping.{init_maptbl, init_rmap}
use nvmevirt_fdp.Fdp.Gc.{page_after, move_page, clean_one_flashpg}
use nvmevirt_fdp.Fdp.Namespace.Write.{map_page}
use nvmevirt_fdp.Fdp.Pointers.Order.{rank}
use nvmevirt_fdp.Fdp.Remap.{view, installed, IsMapping, IsMappingBut, installed-IsMapping}
use nvmevirt_fdp.Fdp.Remap.Stores.{page_at}
use nvmevirt_fdp.Fdp.Remap.Inverse.{Remapped, Moved, map_page-Remapped, move_page-Moved}
use nvmevirt_fdp.Fdp.Remap.Within.{HasPage, map_page-first_write, move_page-moves}
use nvmevirt_fdp.Ssd.Nand.{init_time, ssd_advance_nand, get_cell, send_part, advance_channel}
use nvmevirt_fdp.Ssd.Channel.{chmodel_request, chmodel_init, take_credits, take_slot}
use nvmevirt_fdp.Fdp.Context.{fdp_ctx}
use nvmevirt_fdp.Fdp.Remap.Cleaning.{IsOwned, Cleaning, clean_one_flashpg-Cleaning}
use nvmevirt_fdp.Tests.Devices.{tiny, tiny-IsGeometry}

-- A queue of pairs of a priority and a line, in the order of insertion.
abbrev set_pri : ℕ → ℕ → List (ℕ × ℕ) → List (ℕ × ℕ)
set_pri pri i [] = []
set_pri pri i ((p, j) ∷ q) = if i == j then (pri, j) ∷ q else (p, j) ∷ set_pri pri i q

abbrev first : List (ℕ × ℕ) → Option ℕ
first [] = none
first ((p, j) ∷ q) = some j

abbrev rest : List (ℕ × ℕ) → List (ℕ × ℕ)
rest [] = []
rest (e ∷ q) = q

abbrev pub tiny_queue : PQueue
tiny_queue = record {
  Q = List (ℕ × ℕ);
  pqueue_init = λ _. [];
  pqueue_insert = λ s i. (((s.1 i).vpc, i) ∷ s.0, set_line s.1 i (record (s.1 i) { pos = 1 }));
  pqueue_change_priority =
      λ s pri i. (set_pri pri i s.0, set_line s.1 i (record (s.1 i) { vpc = pri }));
  pqueue_pop = λ s. (rest s.0, s.1);
  pqueue_peek = first;
}

abbrev at_page : ℕ → ℕ → WritePointer
at_page blk pg = record { curline = blk; ch = 0; lun = 0; pg = pg; blk = blk; pl = 0 }

-- Line 0 is written by the host, line 1 by garbage collection, and nothing is mapped.
abbrev pub empty : Ftl (List (ℕ × ℕ))
empty = record {
  sp = tiny;
  media = init_media;
  cp = fdp_init_params;
  maptbl = init_maptbl;
  rmap = init_rmap;
  wp_ruh = λ _. at_page 0 0;
  gc_wp = at_page 1 0;
  lm = record {
    lines = λ i. record { id = i; ipc = 0; vpc = 0; ruh = none; pos = 0 };
    free_line_list = 2 ∷ [];
    victim_line_pq = [];
    full_line_list = [];
    tt_lines = 3;
    free_line_cnt = 1;
    victim_line_cnt = 0;
    full_line_cnt = 0;
  };
  wfc = record { write_credits = 16; credits_to_refill = 16 };
}

empty-unmapped : (l : ℕ) → mapped_ppa (empty.maptbl l) ≡ false
unfolding init_maptbl of_word mapped_ppa word
empty-unmapped l = refl

empty-IsMapping : IsMapping (view empty)
unfolding init_media
empty-IsMapping = record {
  geometry = tiny-IsGeometry;
  pages = λ p q e. refl;
  held = λ l hl out m. absurd (cc (empty-unmapped l, m));
}

-- Logical page 5 is written to the first page of line 0.
abbrev pub used : Ftl (List (ℕ × ℕ))
used = record empty {
  media = record {
    get_pg = (installed (view empty) 5 (page_at (at_page 0 0))).get_pg;
    get_blk = λ _. record { ipc = 0; vpc = 1; erase_cnt = 0 };
  };
  maptbl = (installed (view empty) 5 (page_at (at_page 0 0))).maptbl;
  rmap = (installed (view empty) 5 (page_at (at_page 0 0))).rmap;
  wp_ruh = λ _. at_page 0 1;
  lm = record (empty.lm) {
    lines = λ i. record { id = i; ipc = 0; vpc = if i == 0 then 1 else 0; ruh = none; pos = 0 };
  };
}

used-IsMapping : IsMapping (view used)
unfolding init_media
used-IsMapping =
    let but : IsMappingBut (◌==◌ 5) (view empty) = record {
      geometry = tiny-IsGeometry;
      pages = empty-IsMapping.pages;
      held = λ l hl out m. empty-IsMapping.held l hl refl m;
    } in
    installed-IsMapping (view empty) 5 (page_at (at_page 0 0)) but (omega arith) refl

used_page : HasPage used user_io 3
unfolding rank init_media
used_page = record {
  handle = omega arith;
  geometry = tiny-IsGeometry;
  at = omega arith;
  plane = refl;
  block = omega arith;
  before_last = omega arith;
  free = refl;
  block_room = omega arith;
  line_room = omega arith;
}

used_gc_page : HasPage used gc_io 0
unfolding rank init_media
used_gc_page = record {
  handle = omega arith;
  geometry = tiny-IsGeometry;
  at = omega arith;
  plane = refl;
  block = omega arith;
  before_last = omega arith;
  free = refl;
  block_room = omega arith;
  line_room = omega arith;
}

abbrev completes : {A : Type 0} → Option A → Bool
completes none = false
completes (some a) = true

second_write : completes (map_page tiny_queue used 3 5) ≡ true
unfolding map_page ppa2pgidx init_media
second_write = refl

-- The second write of logical page 5 goes to the next page, and its old page becomes invalid.
map_page-Remapped_example :
    Ensures
      (λ (r : Ppa × Ftl (List (ℕ × ℕ))).
        (r.0 ≡ page_at (at_page 0 1)) × Remapped (view used) 5 (view r.1) r.0)
      (map_page tiny_queue used 3 5)
map_page-Remapped_example =
    map_page-Remapped tiny_queue used 3 5 used-IsMapping (omega arith) (omega arith)

-- The first write of logical page 6.
map_page-first_write_example :
    Returns
      (λ (r : Ppa × Ftl (List (ℕ × ℕ))).
        (r.0 ≡ page_at (at_page 0 1)) × Remapped (view used) 6 (view r.1) r.0)
      (map_page tiny_queue used 3 6)
unfolding mapped_ppa init_maptbl of_word
map_page-first_write_example =
    map_page-first_write tiny_queue used 3 6 used-IsMapping used_page refl (omega arith)

move_page-moves_example :
    Returns
      (λ (r : Ppa × Ftl (List (ℕ × ℕ))).
        (r.0 ≡ page_at (at_page 1 0)) × Moved (view used) (page_at (at_page 0 0)) (view r.1) r.0)
      (move_page tiny_queue used (page_at (at_page 0 0)))
move_page-moves_example =
    move_page-moves tiny_queue used (page_at (at_page 0 0)) used-IsMapping used_gc_page
      (omega arith) (omega arith)

move_page-Moved_example :
    Ensures
      (λ (r : Ppa × Ftl (List (ℕ × ℕ))).
        (r.0 ≡ page_at (at_page 1 0)) × Moved (view used) (page_at (at_page 0 0)) (view r.1) r.0)
      (move_page tiny_queue used (page_at (at_page 0 0)))
move_page-Moved_example =
    move_page-Moved tiny_queue used (page_at (at_page 0 0)) used-IsMapping (omega arith)

-- Logical page 6 too, on the second page: the flash page is full.
abbrev both : Ftl (List (ℕ × ℕ))
both = record used {
  media = record (used.media) { get_pg = (installed (view used) 6 (page_at (at_page 0 1))).get_pg };
  maptbl = (installed (view used) 6 (page_at (at_page 0 1))).maptbl;
  rmap = (installed (view used) 6 (page_at (at_page 0 1))).rmap;
}

both-IsMapping : IsMapping (view both)
unfolding init_media
both-IsMapping =
    let but : IsMappingBut (◌==◌ 6) (view used) = record {
      geometry = tiny-IsGeometry;
      pages = used-IsMapping.pages;
      held = λ l hl out m. used-IsMapping.held l hl refl m;
    } in
    installed-IsMapping (view used) 6 (page_at (at_page 0 1)) but (omega arith) refl

abbrev to_clean : Dev (List (ℕ × ℕ))
to_clean = record { ftl = both; time = init_time tiny (λ n. 1000 + n); ctx = fdp_ctx }

both-IsOwned : IsOwned tiny_queue both (page_at (at_page 0 0)) 2
unfolding mapped_ppa
both-IsOwned = record { inside = inside; owner = owner }
  where
    inside : (j : ℕ) → j < 2 → InDevice tiny (page_after (page_at (at_page 0 0)) j)
    inside zero h = omega arith
    inside (suc zero) h = omega arith
    inside (suc (suc j)) h = absurd (omega arith)

    owner :
        (j : ℕ)
        → j < 2
        → both.rmap (pgidx tiny (page_after (page_at (at_page 0 0)) j)) < tiny.tt_pgs
        → (mapped_ppa (both.maptbl (both.rmap (pgidx tiny (page_after (page_at (at_page 0 0)) j))))
            ≡ true)
          × (same_pg
                (both.maptbl (both.rmap (pgidx tiny (page_after (page_at (at_page 0 0)) j))))
                (page_after (page_at (at_page 0 0)) j)
              ≡ true)
    owner zero h l = (refl, refl)
    owner (suc zero) h l = (refl, refl)
    owner (suc (suc j)) h l = absurd (omega arith)

clean_one_flashpg-Cleaning_example :
    Ensures
      (λ d'. Cleaning tiny_queue to_clean.ftl (page_at (at_page 0 0)) 2 2 d'.ftl)
      (clean_one_flashpg tiny_queue to_clean (page_at (at_page 0 0)))
clean_one_flashpg-Cleaning_example =
    clean_one_flashpg-Cleaning tiny_queue to_clean (page_at (at_page 0 0)) both-IsMapping
      (omega arith) both-IsOwned

cleaning_completes :
    completes (clean_one_flashpg tiny_queue to_clean (page_at (at_page 0 0))) ≡ true
unfolding clean_one_flashpg fdp_init_params ssd_advance_nand get_cell send_part advance_channel
    chmodel_request init_time chmodel_init take_credits take_slot ppa2pgidx init_media
cleaning_completes = refl
