-- ===== src/Tree/Main/Sums.antt =====
-- The totals of main in lab-2-io/dirtree.c.
use snu_2021_fall_sys_prog.Common.{ℕ, ◌+◌, ◌%◌, ◌≤◌, ◌≡◌, refl, ap, ◌∙◌, List, [], ◌∷◌, All, arith}
use snu_2021_fall_sys_prog.Common.Run.{ok, ◌>>=◌, Returns, Returns-bind}
use snu_2021_fall_sys_prog.Tree.{Dir, Summary, Flags, process_dir}
use snu_2021_fall_sys_prog.Tree.Totals.{
  Counter, dirs, value, modulus, InRange, Grown, Grown-zero, Grown-add, Grown-InRange, total_dir,
  depth, IsNamed, process_dir-total_dir,
}
use snu_2021_fall_sys_prog.Tree.Main.{cleared, add_summary, Report, list_directories}

pub cleared-InRange : InRange cleared
cleared-InRange dirs = omega arith
cleared-InRange _ = omega arith

add_summary-Grown :
    (t s : Summary) (c : Counter) → value c (add_summary t s) ≡ (value c t + value c s) % modulus c
unfolding add_summary
add_summary-Grown t s dirs = refl
add_summary-Grown t s _ = refl

-- A counter that started at 0 is its growth.
from_zero :
    (c : Counter) (a b d n : ℕ)
    → b ≡ (0 + n) % modulus c
    → d ≡ (a + b) % modulus c
    → d ≡ (a + n) % modulus c
from_zero dirs a b d n e f = omega (arith, e, f)
from_zero _ a b d n e f = omega (arith, e, f)

cleared-value : (c : Counter) → value c cleared ≡ 0
cleared-value dirs = refl
cleared-value _ = refl

module _ (root : List ℕ → Dir) where
  -- The total over all entries of the directories.
  pub total_names : Flags → Counter → List (List ℕ) → ℕ
  total_names flags c [] = 0
  total_names flags c (name ∷ names) = total_dir flags c (root name) + total_names flags c names

  -- A report for each name, in order, with the totals of its directory.
  pub Reported : Flags → List (List ℕ) → List Report → Type 0
  Reported flags [] [] = Unit
  Reported flags [] (r ∷ rs) = ⊥
  Reported flags (name ∷ names) [] = ⊥
  Reported flags (name ∷ names) (r ∷ rs) =
      (r.name ≡ name)
      × Grown (λ c. total_dir flags c (root name)) cleared r.dstat
      × Reported flags names rs

  add_summary-total :
      (flags : Flags) (d : Dir) (tstat dstat : Summary)
      → Grown (λ c. total_dir flags c d) cleared dstat
      → Grown (λ c. total_dir flags c d) tstat (add_summary tstat dstat)
  add_summary-total flags d tstat dstat grown c =
      from_zero c (value c tstat) (value c dstat) (value c (add_summary tstat dstat))
        (total_dir flags c d)
        (grown c ∙ ap (λ n. (n + total_dir flags c d) % modulus c) (cleared-value c))
        (add_summary-Grown tstat dstat c)

  -- With fuel for the depth of each directory and, in the verbose mode, known owners and groups, main
  -- lists all its directories in order and comes to the end. The summary of each has the totals of
  -- the tree below it, and the grand total has grown by their sum, modulo the types of the counters;
  -- the sizes and blocks of the verbose mode are added as they are cast to int.
  pub list_directories-total_names :
      (fuel : ℕ) (flags : Flags) (names : List (List ℕ)) (tstat : Summary)
      → All (λ name. depth (root name) ≤ fuel) names
      → All (λ name. IsNamed flags (root name)) names
      → InRange tstat
      → Returns
          (λ r. Reported flags names r.0 × Grown (λ c. total_names flags c names) tstat r.1)
          (list_directories root fuel flags names tstat)
  unfolding list_directories total_names Reported
  list_directories-total_names fuel flags [] tstat deep named range = (tt, Grown-zero tstat range)
  list_directories-total_names fuel flags (name ∷ names) tstat deep named range =
      Returns-bind P (process_dir fuel flags (root name) [] cleared)
        (λ shown. list_directories root fuel flags names (add_summary tstat shown.1) >>= (λ rest.
          ok (record { name = name; output = shown.0; dstat = shown.1 } ∷ rest.0, rest.1)))
        (process_dir-total_dir fuel flags (root name) [] cleared deep.0 named.0 cleared-InRange)
        (λ shown grown.
          let added = add_summary-total flags (root name) tstat shown.1 grown in
          let total = add_summary tstat shown.1 in
          Returns-bind P (list_directories root fuel flags names total)
            (λ rest.
              ok (record { name = name; output = shown.0; dstat = shown.1 } ∷ rest.0, rest.1))
            (list_directories-total_names fuel flags names total deep.1 named.1 (λ c.
              Grown-InRange c (value c tstat) (value c total) (total_dir flags c (root name))
                (added c)))
            (λ rest h. (
              (refl, grown, h.0),
              λ c.
                  Grown-add c (value c tstat) (value c total) (value c rest.1)
                    (total_dir flags c (root name)) (total_names flags c names) (added c) (h.1 c),
            )))
    where
      P : List Report × Summary → Type 0
      P r =
          Reported flags (name ∷ names) r.0
          × Grown (λ c. total_names flags c (name ∷ names)) tstat r.1
