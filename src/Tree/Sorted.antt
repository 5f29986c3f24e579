-- ===== src/Tree/Sorted.antt =====
-- lab-2-io/dirtree.c: the entries of a directory behind qsort.
use snu_2021_fall_sys_prog.Common.{
  true, ◌⊎◌, ◌<◌, ◌∙◌, sym, subst, ◌==◌, ==→eq, arith, [], ◌∷◌, ℕ, ◌≡◌, ◌≢◌, inl, inr, false, List,
  Bool-cases,
}
use snu_2021_fall_sys_prog.Tree.{
  Kind, Stat, Dir, Entries, unreadable, listing, end, entry, insert, qsort, is_directory,
  is_greater, strcmp, dirent_compare,
}
use snu_2021_fall_sys_prog.Tree.Comparison.{is_after, is_after-asymmetric, is_after-before}
use snu_2021_fall_sys_prog.Tree.Sorting.{insert-after, insert-here}
use snu_2021_fall_sys_prog.Tree.Reordering.{
  SameDir, SameEntries, denied, opened, nothing, kept, swapped, chained,
}

-- Every entry has `P`.
abbrev pub Every : (P : List ℕ → Kind → Type 0) → Entries → Type 0
Every P end = Unit
Every P (entry name k st d es) = P name k × Every P es

-- No entry comes after a later one by dirent_compare.
abbrev IsOrdered : Entries → Type 0
IsOrdered end = Unit
IsOrdered (entry name k st d es) = Every (λ t l. is_after k name l t ≡ false) es × IsOrdered es

-- The names in the order of their characters, a beginning before its continuations.
pub data NameLe : List ℕ → List ℕ → Type 0 where
  name_end : (t : List ℕ) → NameLe [] t
  name_less : (c d : ℕ) (s t : List ℕ) → c < d → NameLe (c ∷ s) (d ∷ t)
  name_same : (c : ℕ) (s t : List ℕ) → NameLe s t → NameLe (c ∷ s) (c ∷ t)

-- A directory stands before what is none, and two entries that are alike in this by their names.
abbrev pub Precedes : (k : Kind) (s : List ℕ) (l : Kind) (t : List ℕ) → Type 0
Precedes k s l t =
    ((is_directory k ≡ true) × (is_directory l ≡ false))
    ⊎ ((is_directory k ≡ is_directory l) × NameLe s t)

-- Every entry precedes the later ones.
abbrev pub IsSorted : Entries → Type 0
IsSorted end = Unit
IsSorted (entry name k st d es) = Every (λ t l. Precedes k name l t) es × IsSorted es

-- The names differ, as those of a directory do.
abbrev pub IsDistinct : Entries → Type 0
IsDistinct end = Unit
IsDistinct (entry name k st d es) = Every (λ t l. name ≢ t) es × IsDistinct es

Every-mono :
    (P Q : List ℕ → Kind → Type 0) (es : Entries)
    → ((t : List ℕ) (l : Kind) → P t l → Q t l)
    → Every P es
    → Every Q es
Every-mono P Q end f h = tt
Every-mono P Q (entry name k st d es) f h = (f name k h.0, Every-mono P Q es f h.1)

insert-Every :
    (P : List ℕ → Kind → Type 0) (name : List ℕ) (k : Kind) (st : Stat) (d : Dir) (es : Entries)
    → P name k
    → Every P es
    → Every P (insert name k st d es)
insert-Every P name k st d end p h = unfold insert in (p, tt)
insert-Every P name k st d (entry u j c f es) p h = elim (Bool-cases (is_after k name j u)) [
  | inl x ↦ rw (insert-after name k st d u j c f es x) (h.0, insert-Every P name k st d es p h.1)
  | inr x ↦ rw (insert-here name k st d u j c f es x) (p, h)
]

insert-IsOrdered :
    (name : List ℕ) (k : Kind) (st : Stat) (d : Dir) (es : Entries)
    → IsOrdered es
    → IsOrdered (insert name k st d es)
insert-IsOrdered name k st d end h = unfold insert in (tt, tt)
insert-IsOrdered name k st d (entry u j c f es) h = elim (Bool-cases (is_after k name j u)) [
  | inl x ↦ rw (insert-after name k st d u j c f es x) (
    insert-Every (λ t l. is_after j u l t ≡ false) name k st d es (is_after-asymmetric k j name u x)
        h.0,
    insert-IsOrdered name k st d es h.1,
  )
  | inr x ↦ rw (insert-here name k st d u j c f es x) (
    (
      x,
      Every-mono (λ t l. is_after j u l t ≡ false) (λ t l. is_after k name l t ≡ false) es
          (λ t l later. elim (Bool-cases (is_after k name l t)) [
            | inl y ↦ absurd (cc (is_after-before j k l u name t later y, x))
            | inr y ↦ y
          ])
          h.0,
    ),
    h,
  )
]

strcmp-NameLe : (s t : List ℕ) → is_greater (strcmp s t) ≡ false → NameLe s t
unfolding strcmp
strcmp-NameLe [] t h = name_end t
strcmp-NameLe (c ∷ cs) [] h = absurd (cc (h))
strcmp-NameLe (c ∷ cs) (d ∷ ds) h = elim (Bool-cases (c == d)) [
  | inl e ↦
      subst (λ x. NameLe (c ∷ cs) (x ∷ ds)) (==→eq c d e)
        (name_same c cs ds (strcmp-NameLe cs ds (ground (arith, e))))
  | inr e ↦ name_less c d cs ds (ground (arith, e))
]

is_after-Precedes : (k l : Kind) (s t : List ℕ) → is_after k s l t ≡ false → Precedes k s l t
unfolding dirent_compare
is_after-Precedes k l s t h = elim (Bool-cases (is_directory k)) [
  | inl a ↦ elim (Bool-cases (is_directory l)) [
    | inl b ↦ inr (a ∙ sym b, strcmp-NameLe s t (ground (arith, a, b)))
    | inr b ↦ inl (a, b)
  ]
  | inr a ↦ elim (Bool-cases (is_directory l)) [
    | inl b ↦ absurd (ground (arith, a, b))
    | inr b ↦ inr (a ∙ sym b, strcmp-NameLe s t (ground (arith, a, b)))
  ]
]

IsOrdered-IsSorted : (es : Entries) → IsOrdered es → IsSorted es
IsOrdered-IsSorted end h = tt
IsOrdered-IsSorted (entry name k st d es) h = (
  Every-mono (λ t l. is_after k name l t ≡ false) (λ t l. Precedes k name l t) es
      (λ t l ordered. is_after-Precedes k l name t ordered) h.0,
  IsOrdered-IsSorted es h.1,
)

mutual
  SameDir-refl : (d : Dir) → SameDir d d
  SameDir-refl (unreadable errno) = denied errno
  SameDir-refl (listing es) = opened (SameEntries-refl es)

  SameEntries-refl : (es : Entries) → SameEntries es es
  SameEntries-refl end = nothing
  SameEntries-refl (entry name k st d es) = kept name k st (SameDir-refl d) (SameEntries-refl es)

insert-SameEntries :
    (name : List ℕ) (k : Kind) (st : Stat) (d : Dir) (es : Entries)
    → Every (λ t l. name ≢ t) es
    → SameEntries (entry name k st d es) (insert name k st d es)
insert-SameEntries name k st d end h = unfold insert in SameEntries-refl (entry name k st d end)
insert-SameEntries name k st d (entry u j c f es) h = elim (Bool-cases (is_after k name j u)) [
  | inl x ↦ rw (insert-after name k st d u j c f es x) (
      chained (swapped name k st d u j c f h.0)
        (kept u j c (SameDir-refl f) (insert-SameEntries name k st d es h.1)))
  | inr x ↦
      rw (insert-here name k st d u j c f es x)
        (SameEntries-refl (entry name k st d (entry u j c f es)))
]

qsort-Every : (P : List ℕ → Kind → Type 0) (es : Entries) → Every P es → Every P (qsort es)
unfolding qsort
qsort-Every P end h = tt
qsort-Every P (entry name k st d es) h =
    insert-Every P name k st d (qsort es) h.0 (qsort-Every P es h.1)

qsort-IsOrdered : (es : Entries) → IsOrdered (qsort es)
unfolding qsort
qsort-IsOrdered end = tt
qsort-IsOrdered (entry name k st d es) =
    insert-IsOrdered name k st d (qsort es) (qsort-IsOrdered es)

qsort-SameEntries : (es : Entries) → IsDistinct es → SameEntries es (qsort es)
unfolding qsort
qsort-SameEntries end h = nothing
qsort-SameEntries (entry name k st d es) h =
    chained (kept name k st (SameDir-refl d) (qsort-SameEntries es h.1))
      (insert-SameEntries name k st d (qsort es) (qsort-Every (λ t l. name ≢ t) es h.0))

-- Entries whose names differ are only reordered by the sort with dirent_compare, and then the
-- directories stand before all other entries, and the entries of either sort in the order of the
-- characters of their names.
pub qsort-IsSorted :
    (es : Entries) → IsDistinct es → SameEntries es (qsort es) × IsSorted (qsort es)
qsort-IsSorted es h = (qsort-SameEntries es h, IsOrdered-IsSorted (qsort es) (qsort-IsOrdered es))
