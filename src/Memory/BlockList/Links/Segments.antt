-- ===== src/Memory/BlockList/Links/Segments.antt =====
-- lab-3-memory/src/blocklist.c: the writes to the links of a doubly-linked list.
use snu_2021_fall_sys_prog.Common.{
  ℕ, ◌≡◌, ◌≢◌, ◌∙◌, refl, sym, ap, Option, none, some, List, [], ◌∷◌, ◌++◌, arith, All,
}
use snu_2021_fall_sys_prog.Common.Run.{ok, Returns}
use snu_2021_fall_sys_prog.Memory.BlockList.{Block}
use snu_2021_fall_sys_prog.Memory.BlockList.Links.{
  Node, Nodes, update, node, set_next, set_prev, link,
}

-- A block with the number of its node.
pub record Item : Type 0 where
  pub number : ℕ
  pub block : Block

abbrev pub first_or : Option ℕ → List Item → Option ℕ
first_or end [] = end
first_or end (x ∷ xs) = some x.number

-- The nodes of the items are linked one behind the other, between `before` and `after`.
abbrev pub Segment : Nodes → (before : Option ℕ) → List Item → (after : Option ℕ) → Type 0
Segment w before [] after = Unit
Segment w before (x ∷ xs) after =
    (w x.number ≡ some (record { prev = before; next = first_or after xs; block = x.block }))
    × Segment w (some x.number) xs after

-- The nodes differ.
abbrev pub Apart : ℕ → List Item → Type 0
Apart p xs = All (λ (x : Item). p ≢ x.number) xs

abbrev pub AllApart : List Item → Type 0
AllApart [] = Unit
AllApart (x ∷ xs) = Apart x.number xs × AllApart xs

-- A memory that is the same at the items.
pub Segment-frame :
    (w w' : Nodes) (before after : Option ℕ) (xs : List Item)
    → All (λ (x : Item). w' x.number ≡ w x.number) xs
    → Segment w before xs after
    → Segment w' before xs after
Segment-frame w w' before after [] same h = tt
Segment-frame w w' before after (x ∷ xs) same h =
    (same.0 ∙ h.0, Segment-frame w w' (some x.number) after xs same.1 h.1)

-- The memory after `link` of the node `b` with the block `k` between `p` and `s`.
pub record Linked (w : Nodes) (b s p : ℕ) (k : Block) (u n : Node) (w' : Nodes) : Type 0 where
  pub new : w' b ≡ some (record { prev = some p; next = some s; block = k })
  pub behind : w' s ≡ some (record { prev = some b; next = n.next; block = n.block })
  pub before : w' p ≡ some (record { prev = u.prev; next = some b; block = u.block })
  pub frame : (q : ℕ) → q ≢ b → q ≢ s → q ≢ p → w' q ≡ w q

pub update-same : (w : Nodes) (p : ℕ) (n : Option Node) → update w p n p ≡ n
unfolding update
update-same w p n = ground arith

pub update-other : (w : Nodes) (p q : ℕ) (n : Option Node) → q ≢ p → update w p n q ≡ w q
unfolding update
update-other w p q n h = ground (arith, h)

pub set_next_lem :
    (w : Nodes) (p : ℕ) (n : Node) (v : Option ℕ)
    → w p ≡ some n
    → set_next w (some p) v ≡ ok (update w p (some (record n { next = v })))
unfolding set_next
set_next_lem w p n v h = rw (set_next, h) refl

pub set_prev_lem :
    (w : Nodes) (p : ℕ) (n : Node) (v : Option ℕ)
    → w p ≡ some n
    → set_prev w (some p) v ≡ ok (update w p (some (record n { prev = v })))
unfolding set_prev
set_prev_lem w p n v h = rw (set_prev, h) refl

pub node_lem : (w : Nodes) (p : ℕ) (n : Node) → w p ≡ some n → node w (some p) ≡ ok n
unfolding node
node_lem w p n h = rw (node, h) refl

pub link-Linked :
    (w : Nodes) (b s p : ℕ) (k : Block) (u n : Node)
    → w b ≡ some (record { prev = none; next = none; block = k })
    → w s ≡ some n
    → w p ≡ some u
    → n.prev ≡ some p
    → b ≢ s
    → b ≢ p
    → s ≢ p
    → Returns (Linked w b s p k u n) (link (some b) (some s) w)
unfolding link
link-Linked w b s p k u n at_b at_s at_p prev bs bp sp =
    let b₁ : Node = record { prev = none; next = some s; block = k } in
    let b₂ : Node = record { prev = some p; next = some s; block = k } in
    let n₁ : Node = record { prev = some b; next = n.next; block = n.block } in
    let u₁ : Node = record { prev = u.prev; next = some b; block = u.block } in
    let w₁ = update w b (some b₁) in
    let w₂ = update w₁ b (some b₂) in
    let w₃ = update w₂ s (some n₁) in
    let s₁ : w₁ s ≡ some n = update-other w b s (some b₁) (λ e. bs (sym e)) ∙ at_s in
    let s₂ : w₂ s ≡ some n = update-other w₁ b s (some b₂) (λ e. bs (sym e)) ∙ s₁ in
    let b₃ : w₃ b ≡ some b₂ = update-other w₂ s b (some n₁) bs ∙ update-same w₁ b (some b₂) in
    let p₃ : w₃ p ≡ some u =
      update-other w₂ s p (some n₁) (λ e. sp (sym e))
      ∙ (update-other w₁ b p (some b₂) (λ e. bp (sym e))
          ∙ (update-other w b p (some b₁) (λ e. bp (sym e)) ∙ at_p)) in
    rw
      (
        set_next_lem w b (record { prev = none; next = none; block = k }) (some s) at_b,
        node_lem w₁ s n s₁,
        prev,
        set_prev_lem w₁ b b₁ (some p) (update-same w b (some b₁)),
        set_prev_lem w₂ s n (some b) s₂,
        node_lem w₃ b b₂ b₃,
        set_next_lem w₃ p u (some b) p₃,
      )
      (record {
        new = update-other w₃ p b (some u₁) bp ∙ b₃;
        behind = update-other w₃ p s (some u₁) sp ∙ update-same w₂ s (some n₁);
        before = update-same w₃ p (some u₁);
        frame = λ q qb qs qp.
            update-other w₃ p q (some u₁) qp
            ∙ (update-other w₂ s q (some n₁) qs
                ∙ (update-other w₁ b q (some b₂) qb ∙ update-other w b q (some b₁) qb));
      })

pub Apart-at :
    (p : ℕ) (pre : List Item) (x y : Item) (post : List Item)
    → Apart p (pre ++ (x ∷ (y ∷ post)))
    → (p ≢ x.number) × (p ≢ y.number) × Apart p post
Apart-at p [] x y post h = (h.0, h.1.0, h.1.1)
Apart-at p (z ∷ pre) x y post h = Apart-at p pre x y post h.1

Linked-frame :
    (w w' : Nodes) (b s p : ℕ) (k : Block) (u n : Node) (xs : List Item)
    → Linked w b s p k u n w'
    → Apart b xs
    → Apart s xs
    → Apart p xs
    → All (λ (x : Item). w' x.number ≡ w x.number) xs
Linked-frame w w' b s p k u n [] l hb hs hp = tt
Linked-frame w w' b s p k u n (x ∷ xs) l hb hs hp = (
  l.frame x.number (λ e. hb.0 (sym e)) (λ e. hs.0 (sym e)) (λ e. hp.0 (sym e)),
  Linked-frame w w' b s p k u n xs l hb.1 hs.1 hp.1,
)

pub first_or-insert :
    (pre : List Item) (x b y : Item) (post : List Item)
    → first_or none (pre ++ (x ∷ (y ∷ post))) ≡ first_or none (pre ++ (x ∷ (b ∷ (y ∷ post))))
first_or-insert [] x b y post = refl
first_or-insert (z ∷ pre) x b y post = refl

-- The items up to the node before `s` and from `s` on, with `b` between them.
pub Segment-insert :
    (w w' : Nodes) (before : Option ℕ) (pre : List Item) (x y b : Item) (post : List Item)
    (u n : Node)
    → Segment w before (pre ++ (x ∷ (y ∷ post))) none
    → AllApart (pre ++ (x ∷ (y ∷ post)))
    → Apart b.number (pre ++ (x ∷ (y ∷ post)))
    → w x.number ≡ some u
    → w y.number ≡ some n
    → Linked w b.number y.number x.number b.block u n w'
    → Segment w' before (pre ++ (x ∷ (b ∷ (y ∷ post)))) none
Segment-insert w w' before [] x y b post u n (is_x, (is_y, rest)) apart new at_x at_y l = (
  cc,
  (
    l.new,
    (
      cc,
      Segment-frame w w' (some y.number) none post
          (Linked-frame w w' b.number y.number x.number b.block u n post l new.1.1 apart.1.0
            apart.0.1)
          rest,
    ),
  ),
)
Segment-insert w w' before (z ∷ pre) x y b post u n seg apart new at_x at_y l =
    let (not_x, not_y, others) = Apart-at z.number pre x y post apart.0 in
    (
      l.frame z.number (λ e. new.0 (sym e)) not_y not_x
          ∙ (seg.0
              ∙ ap (λ v. some (record { prev = before; next = v; block = z.block }))
                  (first_or-insert pre x b y post)),
      Segment-insert w w' (some z.number) pre x y b post u n seg.1 apart.1 new.1 at_x at_y l,
    )

-- The nodes of neighbours.
pub Segment-at :
    (w : Nodes) (before : Option ℕ) (pre : List Item) (x y : Item) (post : List Item)
    → Segment w before (pre ++ (x ∷ (y ∷ post))) none
    → AllApart (pre ++ (x ∷ (y ∷ post)))
    → ((u : Option ℕ) × (w x.number
          ≡ some (record { prev = u; next = some y.number; block = x.block })))
      × (w y.number
          ≡ some (record { prev = some x.number; next = first_or none post; block = y.block }))
      × (y.number ≢ x.number)
Segment-at w before [] x y post (is_x, (is_y, rest)) apart =
    ((before, is_x), is_y, λ e. apart.0.0 (sym e))
Segment-at w before (z ∷ pre) x y post seg apart =
    Segment-at w (some z.number) pre x y post seg.1 apart.1
