-- ===== src/Memory/BlockList/Links.antt =====
-- lab-3-memory/src/blocklist.c: insert_block, find_block and delete_block on the nodes with their prev
-- and next pointers. A pointer is the number of a node in the order of allocation, NULL is `none`,
-- and a use of NULL or of freed memory is a `fault`. The fuel of a loop is the number of nodes ever
-- allocated: the loop visits none of them twice.
pub mod Segments
pub mod Searching
pub mod Inserting
pub mod Sentinels
pub mod Refinement
pub mod Deleting
pub mod Maps
mod Tests
use snu_2021_fall_sys_prog.Common.{
  ℕ, zero, suc, ◌+◌, not, Bool, true, false, Option, none, some, ltb, leb, ◌==◌, if◌then◌else◌,
}
use snu_2021_fall_sys_prog.Common.Run.{Run, ok, fault, panic, out_of_fuel, ◌>>=◌}
use snu_2021_fall_sys_prog.Memory.BlockList.{Block, is_payload}

pub record Node : Type 0 where
  pub prev : Option ℕ
  pub next : Option ℕ
  pub block : Block

abbrev pub Nodes : Type 0
Nodes = ℕ → Option Node

-- The memory of the nodes, and `head`.
pub record Heap : Type 0 where
  pub nodes : Nodes
  pub fresh : ℕ
  pub head : Option ℕ

unfoldable pub update : Nodes → ℕ → Option Node → Nodes
update w p n q = if q == p then n else w q

-- *p
unfoldable pub node : Nodes → Option ℕ → Run Node
node w none = fault
node w (some p) = elim (w p) [ none ↦ fault | some n ↦ ok n ]

-- p->next = v and p->prev = v
unfoldable pub set_next : Nodes → (p v : Option ℕ) → Run Nodes
set_next w none v = fault
set_next w (some p) v = elim (w p) [
  | none ↦ fault
  | some n ↦ ok (update w p (some (record n { next = v })))
]

unfoldable pub set_prev : Nodes → (p v : Option ℕ) → Run Nodes
set_prev w none v = fault
set_prev w (some p) v = elim (w p) [
  | none ↦ fault
  | some n ↦ ok (update w p (some (record n { prev = v })))
]

-- The loops: `behind` tells whether the loop goes on at a node with this payload pointer.
unfoldable pub walk : ℕ → (behind : ℕ → Bool) → Nodes → Option ℕ → Run (Option ℕ)
walk zero behind w p = out_of_fuel
walk (suc fuel) behind w p = do
  n ← node w p
  elim (behind n.block.ptr) [ true ↦ walk fuel behind w n.next | false ↦ ok p ]

-- b->next = s; b->prev = s->prev; s->prev = b; b->prev->next = b;
unfoldable pub link : (b s : Option ℕ) → Nodes → Run Nodes
link b s w = do
  w₁ ← set_next w b s
  ns ← node w₁ s
  w₂ ← set_prev w₁ b ns.prev
  w₃ ← set_prev w₂ s b
  nb ← node w₃ b
  set_next w₃ nb.prev b

-- b->prev->next = b->next; b->next->prev = b->prev; free(b);
unfoldable pub unlink_node : (b : ℕ) → Nodes → Run Nodes
unlink_node b w = do
  n₁ ← node w (some b)
  w₁ ← set_next w n₁.prev n₁.next
  n₂ ← node w₁ (some b)
  w₂ ← set_prev w₁ n₂.next n₂.prev
  ok (update w₂ b none)

-- assert(head != NULL); assert((ptr != NULL) && (ptr != (void*)-1));
abbrev pub asserted : Heap → (ptr : ℕ) → Bool
asserted l ptr = elim l.head [ none ↦ false | some h ↦ is_payload ptr ]

unfoldable pub insert_block : (room : Bool) (ptr size flags : ℕ) → Heap → Run (Option ℕ × Heap)
insert_block room ptr size flags l =
    if not (asserted l ptr) then panic else if not room then ok (none, l) else (do
      let b : Block = record { ptr = ptr; size = size; flags = flags }
      let w : Nodes = update l.nodes l.fresh (some (record { prev = none; next = none; block = b }))
      s ← walk (l.fresh + 1) (λ q. leb q ptr) w l.head
      w' ← link (some l.fresh) s w
      ok (some l.fresh, record l { nodes = w'; fresh = l.fresh + 1 }))

unfoldable pub find_block : (ptr : ℕ) → Heap → Run (Option ℕ)
find_block ptr l = if not (asserted l ptr) then panic else (do
  b ← walk (l.fresh + 1) (λ q. ltb q ptr) l.nodes l.head
  n ← node l.nodes b
  ok (if n.block.ptr == ptr then b else none))

unfoldable pub delete_block : (ptr : ℕ) → Heap → Run (Bool × Heap)
delete_block ptr l = do
  found ← find_block ptr l
  elim found [
    | none ↦ ok (false, l)
    | some b ↦ do w ← unlink_node b l.nodes; ok (true, record l { nodes = w })
  ]
