-- ===== src/Memory/BlockList/Links/Refinement.antt =====
-- lab-3-memory/src/blocklist.c: insert_block, find_block and delete_block on the nodes against the
-- list of blocks.
use snu_2021_fall_sys_prog.Common.{
  ℕ, ◌+◌, ◌^◌, ◌<◌, ◌≡◌, ◌∙◌, refl, sym, ap, subst, Bool, true, false, Option, none, some, List, [],
  ◌∷◌, ◌++◌, arith, ltb, leb, ◌==◌, if◌then◌else◌,
}
use snu_2021_fall_sys_prog.Common.Run.{ok, Returns, Returns-bind, Returns-mono}
use snu_2021_fall_sys_prog.Memory.BlockList.{Block, insert_at, find_from, tail_ptr, is_payload}
use snu_2021_fall_sys_prog.Memory.BlockList.Links.{
  Node, Nodes, Heap, walk, link, asserted, insert_block, find_block,
}
use snu_2021_fall_sys_prog.Memory.BlockList.Links.Segments.{
  Item, Segment, AllApart, Segment-at, node_lem,
}
use snu_2021_fall_sys_prog.Memory.BlockList.Links.Searching.{
  Found, walk-Found, blocks_of, insert_at-Found, find_from-Found,
}
use snu_2021_fall_sys_prog.Memory.BlockList.Links.Inserting.{
  Chain, prepared, prepared-linked, link-Chain,
}
use snu_2021_fall_sys_prog.Memory.BlockList.Links.Sentinels.{
  between, before_tail, Stops-before_tail, insert_at-between, find_from-between,
}

-- The nodes hold the sentinels with the blocks between them.
pub record Represents (l : Heap) (bs : List Block) : Type 0 where
  pub items : List Item
  pub chain : Chain l items
  pub is : blocks_of items ≡ between bs

-- The loop from `head`, for a test that the head passes and the tail does not.
pub search-Found :
    (l : Heap) (w : Nodes) (items : List Item) (bs : List Block) (behind : ℕ → Bool)
    → Chain l items
    → Segment w none items none
    → blocks_of items ≡ between bs
    → behind 0 ≡ true
    → behind tail_ptr ≡ false
    → Found behind items (walk (l.fresh + 1) behind w l.head)
search-Found l w [] bs behind c seg is at past = cc
search-Found l w (h ∷ xs) bs behind c seg is at past =
    let first : h.block.ptr ≡ 0 = cc in
    let rest : blocks_of xs ≡ before_tail bs = cc in
    rw c.at_head (
      walk-Found (l.fresh + 1) behind w none h xs seg (rw first at)
        (Stops-before_tail behind xs bs rest past) (omega (arith, c.fit)))

pub payload_bounds : (ptr : ℕ) → is_payload ptr ≡ true → ptr < 2 ^ 64 → (0 < ptr) × (ptr < tail_ptr)
payload_bounds ptr h word = (ground (arith, h), ground (arith, h, word))

pub asserted-payload :
    (l : Heap) (items : List Item) (bs : List Block) (ptr : ℕ)
    → Chain l items
    → blocks_of items ≡ between bs
    → is_payload ptr ≡ true
    → asserted l ptr ≡ true
asserted-payload l [] bs ptr c is payload = cc
asserted-payload l (h ∷ xs) bs ptr c is payload = rw c.at_head payload

link-Represents :
    (l : Heap) (k : Block) (bs : List Block) (items : List Item)
    → Chain l items
    → blocks_of items ≡ between bs
    → k.ptr < tail_ptr
    → (f : Found
        (λ q. leb q k.ptr)
        items
        (walk (l.fresh + 1) (λ q. leb q k.ptr) (prepared l k) l.head))
    → Returns
        (λ w.
          Represents (record { nodes = w; fresh = l.fresh + 1; head = l.head }) (insert_at k bs))
        (link (some l.fresh) (some f.y.number) (prepared l k))
link-Represents l k bs items c is small f =
    Returns-mono _ _ (link (some l.fresh) (some f.y.number) (prepared l k))
      (link-Chain l k f.pre f.x f.y f.post (subst (λ xs. Chain l xs) f.is c))
      (λ w h. record {
        items = f.pre ++ (f.x ∷ (record { number = l.fresh; block = k } ∷ (f.y ∷ f.post)));
        chain = h;
        is =
            sym (insert_at-Found k f.pre f.x _ f.y f.post refl f.passed f.at f.past)
            ∙ (ap (λ xs. insert_at k (blocks_of xs)) (sym f.is)
                ∙ (ap (insert_at k) is ∙ insert_at-between k bs small));
      })

pub insert_block-Represents :
    (l : Heap) (bs : List Block) (ptr size flags : ℕ)
    → Represents l bs
    → is_payload ptr ≡ true
    → ptr < 2 ^ 64
    → Returns
        (λ r.
          (r.0 ≡ some l.fresh)
          × Represents r.1 (insert_at (record { ptr = ptr; size = size; flags = flags }) bs))
        (insert_block true ptr size flags l)
unfolding insert_block
insert_block-Represents l bs ptr size flags rep payload word =
    let k : Block = record { ptr = ptr; size = size; flags = flags } in
    let bounds = payload_bounds ptr payload word in
    let c = rep.chain in
    let f =
      search-Found l (prepared l k) rep.items bs (λ q. leb q ptr) c
        (prepared-linked l k rep.items c) rep.is (ground arith) (ground (arith, bounds.1)) in
    rw (asserted-payload l rep.items bs ptr c rep.is payload, f.ends)
      (Returns-bind _ (link (some l.fresh) (some f.y.number) (prepared l k)) _
        (link-Represents l k bs rep.items c rep.is bounds.1 f) (λ w h. (refl, h)))

-- The block of the node that a pointer names.
abbrev pub block_at : Nodes → Option ℕ → Option Block
block_at w none = none
block_at w (some p) = elim (w p) [ none ↦ none | some n ↦ some n.block ]

block_at-if :
    (w : Nodes) (p : ℕ) (n : Node) (c : Bool)
    → w p ≡ some n
    → block_at w (if c then some p else none) ≡ (if c then some n.block else none)
block_at-if w p n false at = refl
block_at-if w p n true at = rw at refl

pub find_block-finds :
    (l : Heap) (bs : List Block) (ptr : ℕ)
    → Represents l bs
    → is_payload ptr ≡ true
    → ptr < 2 ^ 64
    → Returns (λ r. block_at l.nodes r ≡ find_from ptr bs) (find_block ptr l)
unfolding find_block
find_block-finds l bs ptr rep payload word =
    let bounds = payload_bounds ptr payload word in
    let c = rep.chain in
    let f =
      search-Found l l.nodes rep.items bs (λ q. ltb q ptr) c c.linked rep.is
        (ground (arith, bounds.0)) (ground (arith, bounds.1)) in
    let (at_x, at_y, yx) =
      Segment-at l.nodes none f.pre f.x f.y f.post
        (subst (λ xs. Segment l.nodes none xs none) f.is c.linked)
        (subst (λ xs. AllApart xs) f.is c.apart) in
    let says =
      sym (find_from-between ptr bs bounds.0 bounds.1)
      ∙ (ap (find_from ptr) (sym rep.is)
          ∙ (ap (λ xs. find_from ptr (blocks_of xs)) f.is
              ∙ find_from-Found ptr f.pre f.x f.y f.post f.passed f.at f.past)) in
    rw
      (
        asserted-payload l rep.items bs ptr c rep.is payload,
        f.ends,
        node_lem l.nodes f.y.number _ at_y,
      )
      (block_at-if l.nodes f.y.number _ (f.y.block.ptr == ptr) at_y ∙ sym says)

-- Where find_block ends.
pub find_block_lem :
    (l : Heap) (bs : List Block) (ptr : ℕ)
    → (rep : Represents l bs) → is_payload ptr ≡ true
    → (f : Found (λ q. ltb q ptr) rep.items (walk (l.fresh + 1) (λ q. ltb q ptr) l.nodes l.head))
    → find_block ptr l ≡ ok (if f.y.block.ptr == ptr then some f.y.number else none)
unfolding find_block
find_block_lem l bs ptr rep payload f =
    let c = rep.chain in
    let (at_x, at_y, yx) =
      Segment-at l.nodes none f.pre f.x f.y f.post
        (subst (λ xs. Segment l.nodes none xs none) f.is c.linked)
        (subst (λ xs. AllApart xs) f.is c.apart) in
    rw
      (
        asserted-payload l rep.items bs ptr c rep.is payload,
        f.ends,
        node_lem l.nodes f.y.number _ at_y,
      )
      refl
