-- ===== src/Tree/Sorting.antt =====
-- lab-2-io/dirtree.c: the steps of the insertion sort that stands for qsort.
use snu_2021_fall_sys_prog.Common.{ℕ, ◌≡◌, ◌≢◌, refl, sym, inl, inr, true, false, List, Bool-cases}
use snu_2021_fall_sys_prog.Tree.{Kind, Stat, Dir, Entries, end, entry, insert}
use snu_2021_fall_sys_prog.Tree.Comparison.{
  is_after, is_after-asymmetric, is_after-total, is_after-before,
}

module _ (s : List ℕ) (k : Kind) (a : Stat) (d : Dir) (u : List ℕ) (j : Kind) (c : Stat) (f : Dir)
    (es : Entries) where
  pub insert-after :
      is_after k s j u ≡ true
      → insert s k a d (entry u j c f es) ≡ entry u j c f (insert s k a d es)
  unfolding insert
  insert-after h = rw h refl

  pub insert-here :
      is_after k s j u ≡ false
      → insert s k a d (entry u j c f es) ≡ entry s k a d (entry u j c f es)
  unfolding insert
  insert-here h = rw h refl

-- Two entries with different names can be inserted in either order.
module _ (s : List ℕ) (k : Kind) (a : Stat) (d : Dir) (t : List ℕ) (l : Kind) (b : Stat)
    (e : Dir) where
  insert_before :
      (es : Entries)
      → is_after k s l t ≡ false
      → is_after l t k s ≡ true
      → insert s k a d (insert t l b e es) ≡ insert t l b e (insert s k a d es)
  unfolding insert
  insert_before end h back = rw (h, back) refl
  insert_before (entry u j c f es) h back = elim (Bool-cases (is_after k s j u)) [
    | inl x ↦ elim (Bool-cases (is_after l t j u)) [
      | inl y ↦
          let ih = insert_before es h back in
          cc (
            ih,
            insert-after s k a d u j c f es x,
            insert-after t l b e u j c f es y,
            insert-after s k a d u j c f (insert t l b e es) x,
            insert-after t l b e u j c f (insert s k a d es) y,
          )
      | inr y ↦ absurd (cc (is_after-before l k j t s u y x, h))
    ]
    | inr x ↦ elim (Bool-cases (is_after l t j u)) [
      | inl y ↦ cc (
        insert-here s k a d u j c f es x,
        insert-after t l b e u j c f es y,
        insert-here s k a d u j c f (insert t l b e es) x,
        insert-after t l b e s k a d (entry u j c f es) back,
      )
      | inr y ↦ cc (
        insert-here s k a d u j c f es x,
        insert-here t l b e u j c f es y,
        insert-here s k a d t l b e (entry u j c f es) h,
        insert-after t l b e s k a d (entry u j c f es) back,
      )
    ]
  ]

pub insert_comm :
    (s : List ℕ) (k : Kind) (a : Stat) (d : Dir) (t : List ℕ) (l : Kind) (b : Stat) (e : Dir)
    (es : Entries)
    → s ≢ t
    → insert s k a d (insert t l b e es) ≡ insert t l b e (insert s k a d es)
insert_comm s k a d t l b e es differ = elim (Bool-cases (is_after k s l t)) [
  | inl h ↦ sym (insert_before t l b e s k a d es (is_after-asymmetric k l s t h) h)
  | inr h ↦ insert_before s k a d t l b e es h (is_after-total k l s t differ h)
]
