-- ===== src/Tree/Tests.antt =====
-- The theorem on lab-2-io/dirtree.c at a small tree, and its output.
use snu_2021_fall_sys_prog.Common.{
  ℕ, ◌≡◌, ◌≢◌, ◌==◌, ==→ne, ap, false, refl, true, false, Option, some, List, [], ◌∷◌, arith,
}
use snu_2021_fall_sys_prog.Common.Run.{Run, Returns, ok, panic, ◌>>=◌}
use snu_2021_fall_sys_prog.Tree.{
  directory, regular, link, stat, Dir, Entries, unreadable, listing, end, entry, Summary, Flags,
  line, no_dir, process_dir, process_entries, qsort, insert, dirent_compare, strcmp, column, branch,
  indent, count_entry, add_kind,
}
use snu_2021_fall_sys_prog.Tree.Reordering.{SameEntries, opened, swapped, process_dir-SameDir}
use snu_2021_fall_sys_prog.Tree.Sorted.{IsSorted, qsort-IsSorted}
use snu_2021_fall_sys_prog.Tree.Main.{
  main, parse_arguments, parse_argument, switch, add_directory, chosen, list_directories,
  add_summary,
}
use snu_2021_fall_sys_prog.Tree.Main.Sums.{Reported, total_names, list_directories-total_names}
use snu_2021_fall_sys_prog.Tree.Totals.{dirs, InRange, Grown, depth, IsNamed}

-- Names of one character differ if the characters do.
differ : (c d : ℕ) → (c == d) ≡ false → (c ∷ []) ≢ (d ∷ [])
differ c d h e = ==→ne c d h (ap (λ (cs : List ℕ). elim cs [ [] ↦ 0 | x ∷ xs ↦ x ]) e)

-- b, a/ with c in it, and the unreadable d/.
abbrev sample : Dir
sample = listing (
    entry (b'b' ∷ []) regular (stat 100 8) (unreadable 0) (
      entry (b'd' ∷ []) directory (stat 4096 8) (unreadable 13) (
        entry (b'a' ∷ []) directory (stat 4096 8)
          (listing (entry (b'c' ∷ []) link (stat 1 0) (unreadable 0) end)) end)))

abbrev clear : Summary
clear = record { dirs = 0; files = 0; links = 0; fifos = 0; socks = 0; size = 0; blocks = 0 }

abbrev tree_view : Flags
tree_view = record { tree = true; verbose = false }

prints :
    process_dir 3 tree_view sample [] clear
    ≡ ok (
      line (b'|' ∷ b'-' ∷ b'a' ∷ [])
          ∷ line (b'|' ∷ b' ' ∷ b'`' ∷ b'-' ∷ b'c' ∷ [])
          ∷ line (b'|' ∷ b'-' ∷ b'd' ∷ [])
          ∷ no_dir (b'|' ∷ b' ' ∷ b'`' ∷ b'-' ∷ []) 13
          ∷ line (b'`' ∷ b'-' ∷ b'b' ∷ [])
          ∷ [],
      record clear { dirs = 2; files = 1; links = 1 },
    )
unfolding process_dir process_entries qsort insert dirent_compare strcmp column branch indent
    count_entry add_kind
prints = refl

-- The directory with its entries b, d/ and a/ in the order d/, b, a/.
abbrev sample_entries : Entries
sample_entries = entry (b'b' ∷ []) regular (stat 100 8) (unreadable 0) (
    entry (b'd' ∷ []) directory (stat 4096 8) (unreadable 13) (
      entry (b'a' ∷ []) directory (stat 4096 8)
        (listing (entry (b'c' ∷ []) link (stat 1 0) (unreadable 0) end)) end))

abbrev moved : Dir
moved = listing (
    entry (b'd' ∷ []) directory (stat 4096 8) (unreadable 13) (
      entry (b'b' ∷ []) regular (stat 100 8) (unreadable 0) (
        entry (b'a' ∷ []) directory (stat 4096 8)
          (listing (entry (b'c' ∷ []) link (stat 1 0) (unreadable 0) end)) end)))

process_dir-SameDir_example :
    process_dir 3 tree_view sample [] clear ≡ process_dir 3 tree_view moved [] clear
process_dir-SameDir_example = process_dir-SameDir 3 tree_view sample moved [] clear (
    opened (
      swapped (b'b' ∷ []) regular (stat 100 8) (unreadable 0) (b'd' ∷ []) directory (stat 4096 8)
        (unreadable 13) (differ 98 100 refl)))

qsort-IsSorted_example :
    SameEntries sample_entries (qsort sample_entries) × IsSorted (qsort sample_entries)
qsort-IsSorted_example =
    qsort-IsSorted sample_entries
      ((differ 98 100 refl, (differ 98 97 refl, tt)), ((differ 100 97 refl, tt), (tt, tt)))

clear-InRange : InRange clear
clear-InRange dirs = omega arith
clear-InRange _ = omega arith

-- The file system with the sample behind every name.
abbrev everywhere : List ℕ → Dir
everywhere name = sample

named : IsNamed tree_view sample
unfolding IsNamed
named = (refl, tt, (refl, tt, (refl, (refl, tt, tt), tt)))

list_directories-total_names_example :
    Returns
      (λ r.
        Reported everywhere tree_view ((b'x' ∷ []) ∷ (b'y' ∷ []) ∷ []) r.0
        × Grown
            (λ c. total_names everywhere tree_view c ((b'x' ∷ []) ∷ (b'y' ∷ []) ∷ []))
            clear
            r.1)
      (list_directories everywhere 3 tree_view ((b'x' ∷ []) ∷ (b'y' ∷ []) ∷ []) clear)
unfolding depth
list_directories-total_names_example =
    list_directories-total_names everywhere 3 tree_view ((b'x' ∷ []) ∷ (b'y' ∷ []) ∷ []) clear
      (omega arith, (omega arith, tt)) (named, (named, tt)) clear-InRange

-- dirtree -s x y: two directories, two files and two links for each directory.
grand_total : Run (Option Summary)
unfolding main
grand_total = do r ← main everywhere 3 ((b'-' ∷ b's' ∷ []) ∷ (b'x' ∷ []) ∷ (b'y' ∷ []) ∷ []); ok r.1

adds_up : grand_total ≡ ok (some (record clear { dirs = 4; files = 2; links = 2 }))
unfolding grand_total main parse_arguments parse_argument switch add_directory chosen
    list_directories add_summary process_dir process_entries qsort insert dirent_compare strcmp
    column branch indent count_entry add_kind
adds_up = refl

-- dirtree -h
usage : main everywhere 3 ((b'-' ∷ b'h' ∷ []) ∷ []) ≡ panic
unfolding main parse_arguments parse_argument switch
usage = refl
