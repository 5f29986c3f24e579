-- ===== src/Memory/BlockList/Links/Searching.antt =====
-- lab-3-memory/src/blocklist.c: the loops of insert_block and find_block over the nodes, and the
-- blocks where they end.
use snu_2021_fall_sys_prog.Common.{
  ℕ, zero, suc, ◌<◌, ◌≡◌, ◌∙◌, refl, ap, inl, inr, Bool, true, false, Bool-cases, Option, none,
  some, List, [], ◌∷◌, ◌++◌, arith, ltb, leb, ◌==◌, if◌then◌else◌, All, length, ◌⊎◌,
}
use snu_2021_fall_sys_prog.Common.Run.{Run, ok}
use snu_2021_fall_sys_prog.Memory.BlockList.{Block, insert_at, find_from, unlink}
use snu_2021_fall_sys_prog.Memory.BlockList.Links.{Node, Nodes, walk}
use snu_2021_fall_sys_prog.Memory.BlockList.Links.Segments.{Item, Segment, node_lem}

-- The loop is behind every item up to `x` and not behind `y`, where it ends.
pub record Found (behind : ℕ → Bool) (xs : List Item) (r : Run (Option ℕ)) : Type 0 where
  pub pre : List Item
  pub x : Item
  pub y : Item
  pub post : List Item
  pub is : xs ≡ pre ++ (x ∷ (y ∷ post))
  pub passed : All (λ (z : Item). behind z.block.ptr ≡ true) pre
  pub at : behind x.block.ptr ≡ true
  pub past : behind y.block.ptr ≡ false
  pub ends : r ≡ ok (some y.number)

-- The loop ends at one of the items.
abbrev pub Stops : (behind : ℕ → Bool) → List Item → Type 0
Stops behind [] = ⊥
Stops behind (x ∷ xs) = (behind x.block.ptr ≡ false) ⊎ Stops behind xs

walk-past :
    (fuel : ℕ) (behind : ℕ → Bool) (w : Nodes) (p : ℕ) (n : Node)
    → w p ≡ some n
    → behind n.block.ptr ≡ true
    → walk (suc fuel) behind w (some p) ≡ walk fuel behind w n.next
unfolding walk
walk-past fuel behind w p n at h = rw (node_lem w p n at, h) refl

walk-ends :
    (fuel : ℕ) (behind : ℕ → Bool) (w : Nodes) (p : ℕ) (n : Node)
    → w p ≡ some n
    → behind n.block.ptr ≡ false
    → walk (suc fuel) behind w (some p) ≡ ok (some p)
unfolding walk
walk-ends fuel behind w p n at h = rw (node_lem w p n at, h) refl

ended :
    (fuel : ℕ) (behind : ℕ → Bool) (w : Nodes) (p : ℕ) (n : Node)
    → w p ≡ some n
    → behind n.block.ptr ≡ false
    → 0 < fuel
    → walk fuel behind w (some p) ≡ ok (some p)
ended zero behind w p n at h fuel_left = absurd (omega (arith, fuel_left))
ended (suc fuel) behind w p n at h fuel_left = walk-ends fuel behind w p n at h

Stops-rest :
    (behind : ℕ → Bool) (x : Item) (xs : List Item)
    → behind x.block.ptr ≡ true
    → Stops behind (x ∷ xs)
    → Stops behind xs
Stops-rest behind x xs h (inl here) = cc
Stops-rest behind x xs h (inr later) = later

pub walk-Found :
    (fuel : ℕ) (behind : ℕ → Bool) (w : Nodes) (before : Option ℕ) (x : Item) (xs : List Item)
    → Segment w before (x ∷ xs) none
    → behind x.block.ptr ≡ true
    → Stops behind xs
    → length xs < fuel
    → Found behind (x ∷ xs) (walk fuel behind w (some x.number))
walk-Found zero behind w before x xs seg at stops fuel_left = absurd (omega (arith, fuel_left))
walk-Found (suc fuel) behind w before x [] seg at stops fuel_left = absurd stops
walk-Found (suc fuel) behind w before x (y ∷ ys) seg at stops fuel_left =
    let step = walk-past fuel behind w x.number _ seg.0 at in
    elim (Bool-cases (behind y.block.ptr)) [
      | inl passing ↦
          let found =
            walk-Found fuel behind w (some x.number) y ys seg.1 passing
              (Stops-rest behind y ys passing stops) (omega (arith, fuel_left)) in
          record {
            pre = x ∷ found.pre;
            x = found.x;
            y = found.y;
            post = found.post;
            is = ap (λ zs. x ∷ zs) found.is;
            passed = (at, found.passed);
            at = found.at;
            past = found.past;
            ends = step ∙ found.ends;
          }
      | inr ending ↦ record {
        pre = [];
        x = x;
        y = y;
        post = ys;
        is = refl;
        passed = tt;
        at = at;
        past = ending;
        ends = step ∙ ended fuel behind w y.number _ seg.1.0 ending (omega (arith, fuel_left));
      }
    ]

-- The blocks of the items.
abbrev pub blocks_of : List Item → List Block
blocks_of [] = []
blocks_of (x ∷ xs) = x.block ∷ blocks_of xs

pub insert_at-Found :
    (k : Block) (pre : List Item) (x b y : Item) (post : List Item)
    → b.block ≡ k
    → All (λ (z : Item). leb z.block.ptr k.ptr ≡ true) pre
    → leb x.block.ptr k.ptr ≡ true
    → leb y.block.ptr k.ptr ≡ false
    → insert_at k (blocks_of (pre ++ (x ∷ (y ∷ post)))) ≡ blocks_of (pre ++ (x ∷ (b ∷ (y ∷ post))))
unfolding insert_at
insert_at-Found k [] x b y post is passed at past = rw (at, past, is) refl
insert_at-Found k (z ∷ pre) x b y post is passed at past =
    rw passed.0 (ap (λ bs. z.block ∷ bs) (insert_at-Found k pre x b y post is passed.1 at past))

pub find_from-Found :
    (ptr : ℕ) (pre : List Item) (x y : Item) (post : List Item)
    → All (λ (z : Item). ltb z.block.ptr ptr ≡ true) pre
    → ltb x.block.ptr ptr ≡ true
    → ltb y.block.ptr ptr ≡ false
    → find_from ptr (blocks_of (pre ++ (x ∷ (y ∷ post))))
      ≡ (if y.block.ptr == ptr then some y.block else none)
unfolding find_from
find_from-Found ptr [] x y post passed at past = rw (at, past) refl
find_from-Found ptr (z ∷ pre) x y post passed at past =
    rw passed.0 (find_from-Found ptr pre x y post passed.1 at past)

pub unlink-Found :
    (ptr : ℕ) (pre : List Item) (x y : Item) (post : List Item)
    → All (λ (z : Item). ltb z.block.ptr ptr ≡ true) pre
    → ltb x.block.ptr ptr ≡ true
    → ltb y.block.ptr ptr ≡ false
    → unlink ptr (blocks_of (pre ++ (x ∷ (y ∷ post)))) ≡ blocks_of (pre ++ (x ∷ post))
unfolding unlink
unlink-Found ptr [] x y post passed at past = rw (at, past) refl
unlink-Found ptr (z ∷ pre) x y post passed at past =
    rw passed.0 (ap (λ bs. z.block ∷ bs) (unlink-Found ptr pre x y post passed.1 at past))
