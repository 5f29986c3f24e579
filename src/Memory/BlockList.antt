-- ===== src/Memory/BlockList.antt =====
-- lab-3-memory/src/blocklist.c. The blocks between the sentinels as a list: what insert_block, find_block
-- and delete_block, which are in Links, do to it, and the other operations, for which a pointer to a
-- block of the list is its index there. A violated assertion is a `panic`, and whether calloc has
-- memory is an argument, `room`.
pub mod Order
pub mod Links
pub mod Array
use snu_2021_fall_sys_prog.Common.{
  ℕ, zero, suc, ◌+◌, ◌-◌, ◌^◌, ◌||◌, ◌&&◌, not, Bool, true, false, Option, none, some, List, [],
  ◌∷◌, ltb, leb, ◌==◌, if◌then◌else◌,
}
use snu_2021_fall_sys_prog.Common.Run.{Run, ok, fault, panic, ◌>>=◌}

pub record Block : Type 0 where
  pub ptr : ℕ
  pub size : ℕ
  pub flags : ℕ

-- The list behind `head`: none where head == NULL.
abbrev pub BlockList : Type 0
BlockList = Option (List Block)

-- The payload pointers of the sentinels are NULL and (void*)-1.
abbrev pub tail_ptr : ℕ
tail_ptr = 2 ^ 64 - 1

abbrev pub is_payload : ℕ → Bool
is_payload ptr = not (ptr == 0) && not (ptr == tail_ptr)

-- assert(head != NULL)
unfoldable pub blocks : BlockList → Run (List Block)
blocks none = panic
blocks (some bs) = ok bs

unfoldable pub free_blocklist : BlockList → BlockList
free_blocklist l = none

unfoldable pub init_blocklist : (room : Bool) → BlockList → Run BlockList
init_blocklist room l = if room then ok (some []) else fault

-- The list after insert_block, find_block's result and the list after delete_block; the code itself is
-- in Links.
unfoldable pub insert_at : Block → List Block → List Block
insert_at b [] = b ∷ []
insert_at b (s ∷ bs) = let rest = insert_at b bs in if leb s.ptr b.ptr then s ∷ rest else b ∷ s ∷ bs

unfoldable pub find_from : (ptr : ℕ) → List Block → Option Block
find_from ptr [] = none
find_from ptr (b ∷ bs) =
    let rest = find_from ptr bs in
    if ltb b.ptr ptr then rest else if b.ptr == ptr then some b else none

-- The list without the block that find_block stops at.
unfoldable pub unlink : (ptr : ℕ) → List Block → List Block
unlink ptr [] = []
unlink ptr (b ∷ bs) = let rest = unlink ptr bs in if ltb b.ptr ptr then b ∷ rest else bs

-- The loop of find_block_by_index.
unfoldable pub at_index : (idx : ℕ) → List Block → Option Block
at_index idx [] = none
at_index zero (b ∷ bs) = some b
at_index (suc idx) (b ∷ bs) = at_index idx bs

unfoldable pub find_block_by_index : (idx : ℕ) → BlockList → Run (Option Block)
find_block_by_index idx l = do bs ← blocks l; ok (at_index idx bs)

unfoldable pub first_block : BlockList → Run (Option Block)
first_block l = find_block_by_index 0 l

-- The block behind the one at `idx`.
unfoldable pub next_block : (idx : ℕ) → BlockList → Run (Option Block)
next_block idx l = do bs ← blocks l; ok (at_index (idx + 1) bs)

-- The callback works on a state of its own, and the loop ends when it returns a value but 0.
unfoldable pub iterate_from {ℓ} :
    {S : Type ℓ} → (Block → ℕ → S → ℕ × S) → (idx : ℕ) → List Block → S → ℕ × S
iterate_from callback idx [] s = (0, s)
iterate_from callback idx (b ∷ bs) s =
    let called = callback b idx s in
    let rest = iterate_from callback (idx + 1) bs called.1 in if called.0 == 0 then rest else called

unfoldable pub iterate_blocks {ℓ} :
    {S : Type ℓ} → (Block → ℕ → S → ℕ × S) → BlockList → S → Run (ℕ × S)
iterate_blocks callback l s = do bs ← blocks l; ok (iterate_from callback 0 bs s)

unfoldable pub count_from : (res : ℕ) → List Block → ℕ
count_from res [] = res
count_from res (b ∷ bs) = count_from (res + 1) bs

unfoldable pub num_blocks : BlockList → Run ℕ
num_blocks l = do bs ← blocks l; ok (count_from 0 bs)

-- The loop of get_block_array: the index it ends with, and what it has stored.
unfoldable pub fill_array : (nblocks idx : ℕ) → List Block → ℕ × List Block
fill_array nblocks idx [] = (idx, [])
fill_array nblocks idx (b ∷ bs) =
    let rest = fill_array nblocks (idx + 1) bs in
    if ltb idx nblocks then (rest.0, b ∷ rest.1) else (idx, [])

-- assert(idx == nblocks)
unfoldable pub array_of : (nblocks : ℕ) → ℕ × List Block → Run (Option (List Block))
array_of nblocks (idx, res) = if idx == nblocks then ok (some res) else panic

unfoldable pub get_block_array : (room : Bool) → BlockList → Run (Option (List Block))
get_block_array room l = do
  bs ← blocks l
  nblocks ← num_blocks l
  if not room then ok none else array_of nblocks (fill_array nblocks 0 bs)
