-- ===== src/Memory/BlockList/Links/Deleting.antt =====
-- lab-3-memory/src/blocklist.c: delete_block on the nodes, and the list of blocks that they hold.
use snu_2021_fall_sys_prog.Common.{
  ℕ, ◌+◌, ◌<◌, ◌≡◌, ◌≢◌, ◌∙◌, refl, sym, ap, Option, none, some, List, [], ◌∷◌, ◌++◌, arith, All,
  length,
}
use snu_2021_fall_sys_prog.Common.Run.{Returns, Returns-mono}
use snu_2021_fall_sys_prog.Memory.BlockList.{Block}
use snu_2021_fall_sys_prog.Memory.BlockList.Links.{Node, Nodes, Heap, update, unlink_node}
use snu_2021_fall_sys_prog.Memory.BlockList.Links.Segments.{
  Item, Segment, Apart, AllApart, first_or, update-same, update-other, set_next_lem, set_prev_lem,
  node_lem, Segment-frame, Segment-at, Apart-at,
}
use snu_2021_fall_sys_prog.Memory.BlockList.Links.Inserting.{Chain}

-- The memory after the node `b` between `p` and `s` is unlinked and freed.
pub record Unlinked (w : Nodes) (b s p : ℕ) (u n : Node) (w' : Nodes) : Type 0 where
  pub behind : w' s ≡ some (record { prev = some p; next = n.next; block = n.block })
  pub before : w' p ≡ some (record { prev = u.prev; next = some s; block = u.block })
  pub frame : (q : ℕ) → q ≢ b → q ≢ s → q ≢ p → w' q ≡ w q

unlink_node-Unlinked :
    (w : Nodes) (b s p : ℕ) (k : Block) (u n : Node)
    → w b ≡ some (record { prev = some p; next = some s; block = k })
    → w s ≡ some n
    → w p ≡ some u
    → b ≢ s
    → b ≢ p
    → s ≢ p
    → Returns (Unlinked w b s p u n) (unlink_node b w)
unfolding unlink_node
unlink_node-Unlinked w b s p k u n at_b at_s at_p bs bp sp =
    let k₁ : Node = record { prev = some p; next = some s; block = k } in
    let n₁ : Node = record { prev = some p; next = n.next; block = n.block } in
    let u₁ : Node = record { prev = u.prev; next = some s; block = u.block } in
    let w₁ = update w p (some u₁) in
    let w₂ = update w₁ s (some n₁) in
    let b₁ : w₁ b ≡ some k₁ = update-other w p b (some u₁) bp ∙ at_b in
    let s₁ : w₁ s ≡ some n = update-other w p s (some u₁) sp ∙ at_s in
    rw
      (
        node_lem w b k₁ at_b,
        set_next_lem w p u (some s) at_p,
        node_lem w₁ b k₁ b₁,
        set_prev_lem w₁ s n (some p) s₁,
      )
      (record {
        behind = update-other w₂ b s none (λ e. bs (sym e)) ∙ update-same w₁ s (some n₁);
        before =
            update-other w₂ b p none (λ e. bp (sym e))
            ∙ (update-other w₁ s p (some n₁) (λ e. sp (sym e)) ∙ update-same w p (some u₁));
        frame = λ q qb qs qp.
            update-other w₂ b q none qb
            ∙ (update-other w₁ s q (some n₁) qs ∙ update-other w p q (some u₁) qp);
      })

Unlinked-frame :
    (w w' : Nodes) (b s p : ℕ) (u n : Node) (xs : List Item)
    → Unlinked w b s p u n w'
    → Apart b xs
    → Apart s xs
    → Apart p xs
    → All (λ (x : Item). w' x.number ≡ w x.number) xs
Unlinked-frame w w' b s p u n [] l hb hs hp = tt
Unlinked-frame w w' b s p u n (x ∷ xs) l hb hs hp = (
  l.frame x.number (λ e. hb.0 (sym e)) (λ e. hs.0 (sym e)) (λ e. hp.0 (sym e)),
  Unlinked-frame w w' b s p u n xs l hb.1 hs.1 hp.1,
)

first_or-delete :
    (pre : List Item) (x y z : Item) (post : List Item)
    → first_or none (pre ++ (x ∷ (y ∷ (z ∷ post)))) ≡ first_or none (pre ++ (x ∷ (z ∷ post)))
first_or-delete [] x y z post = refl
first_or-delete (a ∷ pre) x y z post = refl

Segment-delete :
    (w w' : Nodes) (before : Option ℕ) (pre : List Item) (x y z : Item) (post : List Item)
    (u n : Node)
    → Segment w before (pre ++ (x ∷ (y ∷ (z ∷ post)))) none
    → AllApart (pre ++ (x ∷ (y ∷ (z ∷ post))))
    → w x.number ≡ some u
    → w z.number ≡ some n
    → Unlinked w y.number z.number x.number u n w'
    → Segment w' before (pre ++ (x ∷ (z ∷ post))) none
Segment-delete w w' before [] x y z post u n (is_x, (is_y, (is_z, rest))) apart at_x at_z l =
    let apart_x : Apart x.number post = apart.0.1.1 in
    let apart_y : Apart y.number post = apart.1.0.1 in
    let apart_z : Apart z.number post = apart.1.1.0 in
    (
      cc,
      (
        cc,
        Segment-frame w w' (some z.number) none post
            (Unlinked-frame w w' y.number z.number x.number u n post l apart_y apart_z apart_x)
            rest,
      ),
    )
Segment-delete w w' before (a ∷ pre) x y z post u n seg apart at_x at_z l =
    let (not_x, not_y, others) = Apart-at a.number pre x y (z ∷ post) apart.0 in
    (
      l.frame a.number not_y others.0 not_x
          ∙ (seg.0
              ∙ ap (λ v. some (record { prev = before; next = v; block = a.block }))
                  (first_or-delete pre x y z post)),
      Segment-delete w w' (some a.number) pre x y z post u n seg.1 apart.1 at_x at_z l,
    )

Apart-delete :
    (p : ℕ) (pre : List Item) (x y : Item) (post : List Item)
    → Apart p (pre ++ (x ∷ (y ∷ post)))
    → Apart p (pre ++ (x ∷ post))
Apart-delete p [] x y post h = (h.0, h.1.1)
Apart-delete p (a ∷ pre) x y post h = (h.0, Apart-delete p pre x y post h.1)

AllApart-delete :
    (pre : List Item) (x y : Item) (post : List Item)
    → AllApart (pre ++ (x ∷ (y ∷ post)))
    → AllApart (pre ++ (x ∷ post))
AllApart-delete [] x y post h = (h.0.1, h.1.1)
AllApart-delete (a ∷ pre) x y post h =
    (Apart-delete a.number pre x y post h.0, AllApart-delete pre x y post h.1)

allocated-delete :
    (fresh : ℕ) (pre : List Item) (x y : Item) (post : List Item)
    → All (λ (z : Item). z.number < fresh) (pre ++ (x ∷ (y ∷ post)))
    → All (λ (z : Item). z.number < fresh) (pre ++ (x ∷ post))
allocated-delete fresh [] x y post h = (h.0, h.1.1)
allocated-delete fresh (a ∷ pre) x y post h = (h.0, allocated-delete fresh pre x y post h.1)

length-delete :
    (pre : List Item) (x y : Item) (post : List Item)
    → length (pre ++ (x ∷ (y ∷ post))) ≡ length (pre ++ (x ∷ post)) + 1
length-delete [] x y post = omega arith
length-delete (a ∷ pre) x y post = omega (arith, length-delete pre x y post)

-- The node behind two neighbours, and how the three differ.
pub Segment-behind :
    (w : Nodes) (before : Option ℕ) (pre : List Item) (x y z : Item) (post : List Item)
    → Segment w before (pre ++ (x ∷ (y ∷ (z ∷ post)))) none
    → AllApart (pre ++ (x ∷ (y ∷ (z ∷ post))))
    → (w z.number
        ≡ some (record { prev = some y.number; next = first_or none post; block = z.block }))
      × ((y.number ≢ z.number) × (z.number ≢ x.number))
Segment-behind w before [] x y z post seg apart =
    (seg.1.1.0, (apart.1.0.0, λ e. apart.0.1.0 (sym e)))
Segment-behind w before (a ∷ pre) x y z post seg apart =
    Segment-behind w (some a.number) pre x y z post seg.1 apart.1

pub unlink_node-Chain :
    (l : Heap) (pre : List Item) (x y z : Item) (post : List Item)
    → Chain l (pre ++ (x ∷ (y ∷ (z ∷ post))))
    → Returns
        (λ w.
          Chain (record { nodes = w; fresh = l.fresh; head = l.head }) (pre ++ (x ∷ (z ∷ post))))
        (unlink_node y.number l.nodes)
unlink_node-Chain l pre x y z post c =
    let ((u, at_x), at_y, yx) = Segment-at l.nodes none pre x y (z ∷ post) c.linked c.apart in
    let (at_z, (yz, zx)) = Segment-behind l.nodes none pre x y z post c.linked c.apart in
    Returns-mono _ _ (unlink_node y.number l.nodes)
      (unlink_node-Unlinked l.nodes y.number z.number x.number y.block _ _ at_y at_z at_x yz yx zx)
      (λ w h. record {
        at_head = c.at_head ∙ first_or-delete pre x y z post;
        linked = Segment-delete l.nodes w none pre x y z post _ _ c.linked c.apart at_x at_z h;
        apart = AllApart-delete pre x y (z ∷ post) c.apart;
        allocated = allocated-delete l.fresh pre x y (z ∷ post) c.allocated;
        fit = omega (arith, length-delete pre x y (z ∷ post), c.fit);
      })
