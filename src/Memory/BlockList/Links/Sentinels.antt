-- ===== src/Memory/BlockList/Links/Sentinels.antt =====
-- lab-3-memory/src/blocklist.c: the sentinels of init_blocklist around the blocks of the list.
use snu_2021_fall_sys_prog.Common.{
  ℕ, ◌<◌, ◌≡◌, ◌∙◌, refl, sym, ap, inl, inr, Bool, true, false, Bool-cases, some, List, [], ◌∷◌,
  ◌++◌, arith, ltb, leb,
}
use snu_2021_fall_sys_prog.Memory.BlockList.{Block, insert_at, find_from, unlink, tail_ptr}
use snu_2021_fall_sys_prog.Memory.BlockList.Links.Segments.{Item}
use snu_2021_fall_sys_prog.Memory.BlockList.Links.Searching.{Stops, blocks_of}

-- head->ptr = NULL and tail->ptr = (void*)-1
abbrev pub head_block : Block
head_block = record { ptr = 0; size = 0; flags = 0 }

abbrev pub tail_block : Block
tail_block = record { ptr = tail_ptr; size = 0; flags = 0 }

abbrev pub before_tail : List Block → List Block
before_tail bs = bs ++ (tail_block ∷ [])

abbrev pub between : List Block → List Block
between bs = head_block ∷ before_tail bs

pub Stops-before_tail :
    (behind : ℕ → Bool) (xs : List Item) (bs : List Block)
    → blocks_of xs ≡ before_tail bs
    → behind tail_ptr ≡ false
    → Stops behind xs
Stops-before_tail behind [] [] is h = cc
Stops-before_tail behind [] (b ∷ bs) is h = cc
Stops-before_tail behind (x ∷ xs) [] is h = inl cc
Stops-before_tail behind (x ∷ xs) (b ∷ bs) is h =
    let rest : blocks_of xs ≡ before_tail bs = cc in inr (Stops-before_tail behind xs bs rest h)

insert_at-before_tail :
    (k : Block) (bs : List Block)
    → k.ptr < tail_ptr
    → insert_at k (before_tail bs) ≡ before_tail (insert_at k bs)
unfolding insert_at
insert_at-before_tail k [] small = ground (arith, small)
insert_at-before_tail k (b ∷ bs) small = elim (Bool-cases (leb b.ptr k.ptr)) [
  | inl before ↦ rw before (ap (λ cs. b ∷ cs) (insert_at-before_tail k bs small))
  | inr behind ↦ rw behind refl
]

pub insert_at-between :
    (k : Block) (bs : List Block)
    → k.ptr < tail_ptr
    → insert_at k (between bs) ≡ between (insert_at k bs)
unfolding insert_at
insert_at-between k bs small =
    let first : leb 0 k.ptr ≡ true = ground arith in
    rw first (ap (λ cs. head_block ∷ cs) (insert_at-before_tail k bs small))

find_from-before_tail :
    (ptr : ℕ) (bs : List Block) → ptr < tail_ptr → find_from ptr (before_tail bs) ≡ find_from ptr bs
unfolding find_from
find_from-before_tail ptr [] small = ground (arith, small)
find_from-before_tail ptr (b ∷ bs) small = rw (find_from-before_tail ptr bs small) refl

pub find_from-between :
    (ptr : ℕ) (bs : List Block)
    → 0 < ptr
    → ptr < tail_ptr
    → find_from ptr (between bs) ≡ find_from ptr bs
unfolding find_from
find_from-between ptr bs positive small =
    ground (arith, positive, find_from-before_tail ptr bs small)

unlink-before_tail :
    (ptr : ℕ) (b : Block) (bs : List Block)
    → find_from ptr bs ≡ some b
    → unlink ptr (before_tail bs) ≡ before_tail (unlink ptr bs)
unfolding unlink find_from
unlink-before_tail ptr b [] found = cc
unlink-before_tail ptr b (c ∷ bs) found = elim (Bool-cases (ltb c.ptr ptr)) [
  | inl before ↦ rw before (ap (λ cs. c ∷ cs) (unlink-before_tail ptr b bs (rw before at found)))
  | inr here ↦ rw here refl
]

pub unlink-between :
    (ptr : ℕ) (b : Block) (bs : List Block)
    → 0 < ptr
    → find_from ptr bs ≡ some b
    → unlink ptr (between bs) ≡ between (unlink ptr bs)
unfolding unlink
unlink-between ptr b bs positive found = ground (arith, positive, unlink-before_tail ptr b bs found)

abbrev last_or : Block → List Block → Block
last_or b [] = b
last_or b (c ∷ bs) = last_or c bs

last_or-before_tail : (b : Block) (bs : List Block) → last_or b (before_tail bs) ≡ tail_block
last_or-before_tail b [] = refl
last_or-before_tail b (c ∷ bs) = last_or-before_tail c bs

last_or-blocks_of :
    (b : Block) (pre : List Item) (x y : Item)
    → last_or b (blocks_of (pre ++ (x ∷ (y ∷ [])))) ≡ y.block
last_or-blocks_of b [] x y = refl
last_or-blocks_of b (z ∷ pre) x y = last_or-blocks_of z.block pre x y

-- The last item is the tail.
pub last-tail :
    (pre : List Item) (x y : Item) (bs : List Block)
    → blocks_of (pre ++ (x ∷ (y ∷ []))) ≡ between bs
    → y.block ≡ tail_block
last-tail pre x y bs is =
    sym (last_or-blocks_of tail_block pre x y)
    ∙ (ap (last_or tail_block) is ∙ last_or-before_tail head_block bs)
