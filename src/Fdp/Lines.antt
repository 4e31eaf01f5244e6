-- ===== src/Fdp/Lines.antt =====
-- fdp_ftl.h: `struct fdp_line`, and the priority queue of victim lines. The queue is the library
-- under pqueue/, another project's code: it is a parameter, of which pqueue.h documents what is
-- assumed here. A line is named by its index in `lm->lines`; `victim_line_get_pri` and
-- `victim_line_set_pri` access `vpc`, `victim_line_get_pos` and `victim_line_set_pos` access `pos`,
-- and `victim_line_cmp_pri` ranks a lower `vpc` higher.
use nvmevirt_fdp.Prelude.{
  ℕ, ◌≤◌, ◌<◌, ◌≡◌, Bool, true, false, Option, none, some, ltb, ◌==◌, if◌then◌else◌,
}

-- `struct fdp_line`. `ruh` is `none` for -1. The entry in a list is the list's.
pub record Line : Type 0 where
  pub id : ℕ
  pub ipc : ℕ
  pub vpc : ℕ
  pub ruh : Option ℕ
  pub pos : ℕ

abbrev pub Lines : Type 0
Lines = ℕ → Line

-- `victim_line_cmp_pri`: nonzero if `next` ranks below `curr`.
unfoldable pub victim_line_cmp_pri : ℕ → ℕ → Bool
victim_line_cmp_pri next curr = ltb curr next

abbrev pub set_line : Lines → ℕ → Line → Lines
set_line ls i l j = if i == j then l else ls j

-- The functions of pqueue.h that the FTL calls. Those that move entries set their positions.
pub record PQueue : Type 1 where
  pub Q : Type 0
  pub pqueue_init : ℕ → Q
  pub pqueue_insert : Q × Lines → ℕ → Q × Lines
  pub pqueue_change_priority : Q × Lines → ℕ → ℕ → Q × Lines
  pub pqueue_pop : Q × Lines → Q × Lines
  pub pqueue_peek : Q → Option ℕ

-- What a call that moves entries leaves of the lines: all but the positions, and the positions of
-- lines that are not in the queue.
pub record OnlyPositions (inside : ℕ → Bool) (ls ls' : Lines) : Type 0 where
  pub same_id : (i : ℕ) → (ls' i).id ≡ (ls i).id
  pub same_ipc : (i : ℕ) → (ls' i).ipc ≡ (ls i).ipc
  pub same_vpc : (i : ℕ) → (ls' i).vpc ≡ (ls i).vpc
  pub same_ruh : (i : ℕ) → (ls' i).ruh ≡ (ls i).ruh
  pub same_pos : (i : ℕ) → inside i ≡ false → (ls' i).pos ≡ (ls i).pos

-- What pqueue.h documents. `inside` are the entries, `Ordered` says that the queue is in order for
-- the lines' priorities and positions, and `capacity` is the number that `pqueue_init` was given.
pub record Documented (pq : PQueue) : Type 1 where
  pub inside : pq.Q → ℕ → Bool
  pub capacity : pq.Q → ℕ
  pub Ordered : pq.Q → Lines → Type 0
  pub init_empty : (n i : ℕ) → inside (pq.pqueue_init n) i ≡ false
  pub init_capacity : (n : ℕ) → capacity (pq.pqueue_init n) ≡ n
  pub init_ordered : (n : ℕ) (ls : Lines) → Ordered (pq.pqueue_init n) ls
  -- an entry has its position in the array of the queue, from 1 on
  pub position : (q : pq.Q) (ls : Lines) (i : ℕ) → Ordered q ls → inside q i ≡ true → 0 < (ls i).pos
  -- the order depends on the priorities and positions of the entries only
  pub ordered_frame :
      (q : pq.Q) (ls ls' : Lines)
      → Ordered q ls
      → ((i : ℕ) → inside q i ≡ true → ((ls' i).vpc ≡ (ls i).vpc) × ((ls' i).pos ≡ (ls i).pos))
      → Ordered q ls'
  -- "insert an item into the queue"
  pub insert_inside :
      (q : pq.Q) (ls : Lines) (i j : ℕ)
      → Ordered q ls
      → inside q i ≡ false
      → i < capacity q
      → inside (pq.pqueue_insert (q, ls) i).0 j ≡ (if i == j then true else inside q j)
  pub insert_ordered :
      (q : pq.Q) (ls : Lines) (i : ℕ)
      → Ordered q ls
      → inside q i ≡ false
      → i < capacity q
      → let (q', ls') = pq.pqueue_insert (q, ls) i in
        Ordered q' ls'
        × (capacity q' ≡ capacity q)
        × OnlyPositions (λ j. if i == j then true else inside q j) ls ls'
  -- "move an existing entry to a different priority"
  pub change_inside :
      (q : pq.Q) (ls : Lines) (pri i j : ℕ)
      → Ordered q ls
      → inside q i ≡ true
      → inside (pq.pqueue_change_priority (q, ls) pri i).0 j ≡ inside q j
  pub change_ordered :
      (q : pq.Q) (ls : Lines) (pri i : ℕ)
      → Ordered q ls
      → inside q i ≡ true
      → let (q', ls') = pq.pqueue_change_priority (q, ls) pri i in
        Ordered q' ls'
        × (capacity q' ≡ capacity q)
        × OnlyPositions (inside q) (set_line ls i (record (ls i) { vpc = pri })) ls'
  -- "access highest-ranking item without removing it"
  pub peek_none :
      (q : pq.Q) (ls : Lines) (i : ℕ) → Ordered q ls → pq.pqueue_peek q ≡ none → inside q i ≡ false
  pub peek_some :
      (q : pq.Q) (ls : Lines) (i : ℕ)
      → Ordered q ls
      → pq.pqueue_peek q ≡ some i
      → (inside q i ≡ true) × ((j : ℕ) → inside q j ≡ true → (ls i).vpc ≤ (ls j).vpc)
  -- "pop the highest-ranking item from the queue"
  pub pop_inside :
      (q : pq.Q) (ls : Lines) (i j : ℕ)
      → Ordered q ls
      → pq.pqueue_peek q ≡ some i
      → inside (pq.pqueue_pop (q, ls)).0 j ≡ (if i == j then false else inside q j)
  pub pop_ordered :
      (q : pq.Q) (ls : Lines) (i : ℕ)
      → Ordered q ls
      → pq.pqueue_peek q ≡ some i
      → let (q', ls') = pq.pqueue_pop (q, ls) in
        Ordered q' ls' × (capacity q' ≡ capacity q) × OnlyPositions (inside q) ls ls'
