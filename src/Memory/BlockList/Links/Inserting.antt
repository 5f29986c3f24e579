-- ===== src/Memory/BlockList/Links/Inserting.antt =====
-- lab-3-memory/src/blocklist.c: insert_block on the nodes, and the list of blocks that they hold.
use snu_2021_fall_sys_prog.Common.{
  ℕ, ◌+◌, ◌≤◌, ◌<◌, ◌≡◌, ◌≢◌, ◌∙◌, refl, sym, Option, none, some, List, [], ◌∷◌, ◌++◌, arith, All,
  length,
}
use snu_2021_fall_sys_prog.Common.Run.{Returns, Returns-mono}
use snu_2021_fall_sys_prog.Memory.BlockList.{Block}
use snu_2021_fall_sys_prog.Memory.BlockList.Links.{Node, Nodes, Heap, update, link}
use snu_2021_fall_sys_prog.Memory.BlockList.Links.Segments.{
  Item, Segment, Apart, AllApart, first_or, first_or-insert, link-Linked, update-same, update-other,
  Segment-frame, Segment-at, Segment-insert, Apart-at,
}

-- The nodes of the items are the list behind `head`, and allocated.
pub record Chain (l : Heap) (items : List Item) : Type 0 where
  pub at_head : l.head ≡ first_or none items
  pub linked : Segment l.nodes none items none
  pub apart : AllApart items
  pub allocated : All (λ (x : Item). x.number < l.fresh) items
  pub fit : length items ≤ l.fresh

pub fresh-Apart :
    (fresh : ℕ) (items : List Item) → All (λ (x : Item). x.number < fresh) items → Apart fresh items
fresh-Apart fresh [] h = tt
fresh-Apart fresh (x ∷ xs) h = (omega (arith, h.0), fresh-Apart fresh xs h.1)

fresh-same :
    (w : Nodes) (fresh : ℕ) (n : Option Node) (items : List Item)
    → Apart fresh items
    → All (λ (x : Item). update w fresh n x.number ≡ w x.number) items
fresh-same w fresh n [] h = tt
fresh-same w fresh n (x ∷ xs) h =
    (update-other w fresh x.number n (λ e. h.0 (sym e)), fresh-same w fresh n xs h.1)

allocated-insert :
    (fresh : ℕ) (pre : List Item) (x b y : Item) (post : List Item)
    → All (λ (z : Item). z.number < fresh) (pre ++ (x ∷ (y ∷ post)))
    → b.number ≡ fresh
    → All (λ (z : Item). z.number < fresh + 1) (pre ++ (x ∷ (b ∷ (y ∷ post))))
allocated-insert fresh [] x b y post h is = (
  omega (arith, h.0),
  (omega (arith, is), (omega (arith, h.1.0), allocated-more fresh post h.1.1)),
)
  where
    allocated-more :
        (f : ℕ) (xs : List Item)
        → All (λ (z : Item). z.number < f) xs
        → All (λ (z : Item). z.number < f + 1) xs
    allocated-more f [] g = tt
    allocated-more f (z ∷ zs) g = (omega (arith, g.0), allocated-more f zs g.1)
allocated-insert fresh (z ∷ pre) x b y post h is =
    (omega (arith, h.0), allocated-insert fresh pre x b y post h.1 is)

Apart-insert :
    (p : ℕ) (pre : List Item) (x b y : Item) (post : List Item)
    → Apart p (pre ++ (x ∷ (y ∷ post)))
    → p ≢ b.number
    → Apart p (pre ++ (x ∷ (b ∷ (y ∷ post))))
Apart-insert p [] x b y post h new = (h.0, (new, h.1))
Apart-insert p (z ∷ pre) x b y post h new = (h.0, Apart-insert p pre x b y post h.1 new)

AllApart-insert :
    (pre : List Item) (x b y : Item) (post : List Item)
    → AllApart (pre ++ (x ∷ (y ∷ post)))
    → Apart b.number (pre ++ (x ∷ (y ∷ post)))
    → AllApart (pre ++ (x ∷ (b ∷ (y ∷ post))))
AllApart-insert [] x b y post h new = (((λ e. new.0 (sym e)), h.0), (new.1, h.1))
AllApart-insert (z ∷ pre) x b y post h new = (
  Apart-insert z.number pre x b y post h.0 (λ e. new.0 (sym e)),
  AllApart-insert pre x b y post h.1 new.1,
)

length-insert :
    (pre : List Item) (x b y : Item) (post : List Item)
    → length (pre ++ (x ∷ (b ∷ (y ∷ post)))) ≡ length (pre ++ (x ∷ (y ∷ post))) + 1
length-insert [] x b y post = omega arith
length-insert (z ∷ pre) x b y post = omega (arith, length-insert pre x b y post)

-- The memory with the new node, before it is linked.
abbrev pub prepared : Heap → Block → Nodes
prepared l k = update l.nodes l.fresh (some (record { prev = none; next = none; block = k }))

pub prepared-linked :
    (l : Heap) (k : Block) (items : List Item)
    → Chain l items
    → Segment (prepared l k) none items none
prepared-linked l k items c =
    Segment-frame l.nodes (prepared l k) none none items
      (fresh-same l.nodes l.fresh _ items (fresh-Apart l.fresh items c.allocated)) c.linked

pub link-Chain :
    (l : Heap) (k : Block) (pre : List Item) (x y : Item) (post : List Item)
    → Chain l (pre ++ (x ∷ (y ∷ post)))
    → Returns
        (λ w.
          Chain
            (record { nodes = w; fresh = l.fresh + 1; head = l.head })
            (pre ++ (x ∷ (record { number = l.fresh; block = k } ∷ (y ∷ post)))))
        (link (some l.fresh) (some y.number) (prepared l k))
link-Chain l k pre x y post c =
    let b : Item = record { number = l.fresh; block = k } in
    let new = fresh-Apart l.fresh (pre ++ (x ∷ (y ∷ post))) c.allocated in
    let seg = prepared-linked l k (pre ++ (x ∷ (y ∷ post))) c in
    let ((u, at_x), at_y, yx) = Segment-at (prepared l k) none pre x y post seg c.apart in
    let (fresh_x, fresh_y, others) = Apart-at l.fresh pre x y post new in
    Returns-mono _ _ (link (some l.fresh) (some y.number) (prepared l k))
      (link-Linked (prepared l k) l.fresh y.number x.number k _ _ (update-same l.nodes l.fresh _)
        at_y at_x refl fresh_y fresh_x yx)
      (λ w h. record {
        at_head = c.at_head ∙ first_or-insert pre x b y post;
        linked =
            Segment-insert (prepared l k) w none pre x y b post _ _ seg c.apart new at_x at_y h;
        apart = AllApart-insert pre x b y post c.apart new;
        allocated = allocated-insert l.fresh pre x b y post c.allocated refl;
        fit = omega (arith, length-insert pre x b y post, c.fit);
      })
