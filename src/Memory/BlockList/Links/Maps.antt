-- ===== src/Memory/BlockList/Links/Maps.antt =====
-- lab-3-memory/src/blocklist.c: insert_block and delete_block on the nodes as operations on the map from
-- payload pointers to blocks.
use snu_2021_fall_sys_prog.Common.{
  ℕ, ◌^◌, ◌<◌, ◌≡◌, ◌∙◌, refl, sym, ap, subst, inl, inr, Bool, true, false, Bool-cases, Option,
  none, some, List, [], ◌∷◌, ◌++◌, arith, ltb, ◌==◌, if◌then◌else◌, ==→eq,
}
use snu_2021_fall_sys_prog.Common.Run.{Returns, Returns-bind, Returns-mono}
use snu_2021_fall_sys_prog.Memory.BlockList.{
  Block, insert_at, find_from, unlink, tail_ptr, is_payload,
}
use snu_2021_fall_sys_prog.Memory.BlockList.Order.{
  IsSorted, insert_at-IsSorted, insert_at-find_from, unlink-IsSorted, unlink-find_from,
}
use snu_2021_fall_sys_prog.Memory.BlockList.Links.{
  Heap, unlink_node, insert_block, find_block, delete_block,
}
use snu_2021_fall_sys_prog.Memory.BlockList.Links.Segments.{Item}
use snu_2021_fall_sys_prog.Memory.BlockList.Links.Searching.{
  blocks_of, find_from-Found, unlink-Found,
}
use snu_2021_fall_sys_prog.Memory.BlockList.Links.Inserting.{Chain}
use snu_2021_fall_sys_prog.Memory.BlockList.Links.Deleting.{unlink_node-Chain}
use snu_2021_fall_sys_prog.Memory.BlockList.Links.Sentinels.{
  between, find_from-between, unlink-between, last-tail,
}
use snu_2021_fall_sys_prog.Memory.BlockList.Links.Refinement.{
  Represents, block_at, payload_bounds, search-Found, find_block_lem, find_block-finds,
  insert_block-Represents,
}

-- The nodes hold a sorted list, in which find_block finds the blocks of `find`.
pub record Maps (find : ℕ → Option Block) (l : Heap) : Type 0 where
  pub list : List Block
  pub represents : Represents l list
  pub sorted : IsSorted 0 list
  pub finds :
      (q : ℕ)
      → is_payload q ≡ true
      → q < 2 ^ 64
      → Returns (λ r. block_at l.nodes r ≡ find q) (find_block q l)

Maps-of :
    (l : Heap) (bs : List Block) (find : ℕ → Option Block)
    → Represents l bs
    → IsSorted 0 bs
    → ((q : ℕ) → find_from q bs ≡ find q)
    → Maps find l
Maps-of l bs find rep sorted says = record {
  list = bs;
  represents = rep;
  sorted = sorted;
  finds = λ q payload word.
      Returns-mono _ _ (find_block q l) (find_block-finds l bs q rep payload word)
        (λ r is. is ∙ says q);
}

-- Inserting a payload pointer that is not in the sorted list that the nodes hold, with memory: the
-- result is the new node, the nodes hold a sorted list with consistent links again, and find_block finds
-- the new block under its pointer and all else as before.
pub insert_block-find_block :
    (l : Heap) (bs : List Block) (ptr size flags : ℕ)
    → Represents l bs
    → IsSorted 0 bs
    → is_payload ptr ≡ true
    → ptr < 2 ^ 64
    → find_from ptr bs ≡ none
    → Returns
        (λ r.
          (r.0 ≡ some l.fresh)
          × Maps
              (λ q.
                if ptr == q
                then some (record { ptr = ptr; size = size; flags = flags })
                else find_from q bs)
              r.1)
        (insert_block true ptr size flags l)
insert_block-find_block l bs ptr size flags rep sorted payload word absent =
    let b : Block = record { ptr = ptr; size = size; flags = flags } in
    let bounds = payload_bounds ptr payload word in
    Returns-mono _ _ (insert_block true ptr size flags l)
      (insert_block-Represents l bs ptr size flags rep payload word)
      (λ r h. (
        h.0,
        Maps-of r.1 (insert_at b bs) _ h.1
            (insert_at-IsSorted b 0 bs sorted bounds.0 bounds.1 absent)
            (insert_at-find_from b 0 bs sorted absent),
      ))

unlinked :
    (l : Heap) (bs : List Block) (ptr : ℕ) (k : Block) (pre : List Item) (x y : Item)
    (post : List Item)
    → Chain l (pre ++ (x ∷ (y ∷ post)))
    → blocks_of (pre ++ (x ∷ (y ∷ post))) ≡ between bs
    → 0 < ptr
    → ptr < tail_ptr
    → y.block.ptr ≡ ptr
    → find_from ptr bs ≡ some k
    → unlink ptr (between bs) ≡ blocks_of (pre ++ (x ∷ post))
    → Returns
        (λ w. Represents (record { nodes = w; fresh = l.fresh; head = l.head }) (unlink ptr bs))
        (unlink_node y.number l.nodes)
unlinked l bs ptr k pre x y [] c is positive small here found left =
    let last = ap (λ (b : Block). b.ptr) (last-tail pre x y bs is) in
    absurd (omega (arith, last, here, small))
unlinked l bs ptr k pre x y (z ∷ post) c is positive small here found left =
    Returns-mono _ _ (unlink_node y.number l.nodes) (unlink_node-Chain l pre x y z post c) (λ w h.
      record {
        items = pre ++ (x ∷ (z ∷ post));
        chain = h;
        is = sym left ∙ unlink-between ptr k bs positive found;
      })

abbrev pub is_found : Option Block → Bool
is_found none = false
is_found (some b) = true

unchanged :
    (ptr q : ℕ) (bs : List Block)
    → find_from ptr bs ≡ none
    → find_from q bs ≡ (if ptr == q then none else find_from q bs)
unchanged ptr q bs absent = elim (Bool-cases (ptr == q)) [
  | inl same ↦ rw same (subst (λ x. find_from x bs ≡ none) (==→eq ptr q same) absent)
  | inr other ↦ rw other refl
]

-- Deleting a payload pointer from the sorted list that the nodes hold: the result says whether there was a
-- block, the nodes hold a sorted list with consistent links again, and find_block finds nothing under
-- the pointer and all else as before.
pub delete_block-find_block :
    (l : Heap) (bs : List Block) (ptr : ℕ)
    → Represents l bs
    → IsSorted 0 bs
    → is_payload ptr ≡ true
    → ptr < 2 ^ 64
    → Returns
        (λ r.
          (r.0 ≡ is_found (find_from ptr bs))
          × Maps (λ q. if ptr == q then none else find_from q bs) r.1)
        (delete_block ptr l)
unfolding delete_block
delete_block-find_block l bs ptr rep sorted payload word =
    let bounds = payload_bounds ptr payload word in
    let c = rep.chain in
    let f =
      search-Found l l.nodes rep.items bs (λ q. ltb q ptr) c c.linked rep.is
        (ground (arith, bounds.0)) (ground (arith, bounds.1)) in
    let ends = find_block_lem l bs ptr rep payload f in
    let says =
      sym (find_from-between ptr bs bounds.0 bounds.1)
      ∙ (ap (find_from ptr) (sym rep.is)
          ∙ (ap (λ xs. find_from ptr (blocks_of xs)) f.is
              ∙ find_from-Found ptr f.pre f.x f.y f.post f.passed f.at f.past)) in
    elim (Bool-cases (f.y.block.ptr == ptr)) [
      | inl here ↦
          let found : find_from ptr bs ≡ some f.y.block = rw here at says in
          let left =
            ap (unlink ptr) (sym rep.is)
            ∙ (ap (λ xs. unlink ptr (blocks_of xs)) f.is
                ∙ unlink-Found ptr f.pre f.x f.y f.post f.passed f.at f.past) in
          rw (ends, here, found)
            (Returns-bind _ (unlink_node f.y.number l.nodes) _
              (unlinked l bs ptr f.y.block f.pre f.x f.y f.post (subst (λ xs. Chain l xs) f.is c)
                (ap blocks_of (sym f.is) ∙ rep.is) bounds.0 bounds.1 (==→eq f.y.block.ptr ptr here)
                found left)
              (λ w h. (
                refl,
                Maps-of _ (unlink ptr bs) _ h (unlink-IsSorted ptr 0 bs sorted)
                    (unlink-find_from ptr 0 f.y.block bs sorted found),
              )))
      | inr gone ↦
          let absent : find_from ptr bs ≡ none = rw gone at says in
          rw (ends, gone, absent) (refl, Maps-of l bs _ rep sorted (λ q. unchanged ptr q bs absent))
    ]
