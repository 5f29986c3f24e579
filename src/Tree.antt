-- ===== src/Tree.antt =====
-- lab-2-io/dirtree.c: processDir. The file system is the tree that opendir, readdir and lstat show:
-- a directory that cannot be opened with its error, or its entries in the order of readdir without
-- `.` and `..`, each with its type, what lstat returns for it, and the directory behind it. Memory
-- suffices. Of the verbose output the columns behind the name are left out.
pub mod Totals
pub mod Main
pub mod Comparison
pub mod Sorting
pub mod Reordering
pub mod Sorted
mod Tests
use snu_2021_fall_sys_prog.Common.{
  ℕ, zero, suc, ◌+◌, ◌-◌, ◌%◌, ◌^◌, ◌&&◌, ◌||◌, not, Bool, true, false, List, [], ◌∷◌, ◌++◌, ltb,
  ◌==◌, if◌then◌else◌, length, take, replicate,
}
use snu_2021_fall_sys_prog.Common.Run.{Run, ok, fault, out_of_fuel, ◌>>=◌}

-- d_type
pub data Kind : Type 0 where
  directory regular link fifo socket other : Kind

abbrev pub is_directory : Kind → Bool
is_directory directory = true
is_directory k = false

-- st_size and st_blocks, of an owner and a group that getpwuid and getgrgid know or do not both know,
-- or errno.
pub data Stat : Type 0 where
  stat : (size blocks : ℕ) → Stat
  stat_unnamed : (size blocks : ℕ) → Stat
  stat_error : (errno : ℕ) → Stat

mutual
  pub data Dir : Type 0 where
    unreadable : (errno : ℕ) → Dir
    listing : Entries → Dir

  pub data Entries : Type 0 where
    end : Entries
    entry : (name : List ℕ) → Kind → Stat → Dir → Entries → Entries

pub record Summary : Type 0 where
  pub dirs : ℕ
  pub files : ℕ
  pub links : ℕ
  pub fifos : ℕ
  pub socks : ℕ
  pub size : ℕ
  pub blocks : ℕ

-- F_TREE and F_VERBOSE
pub record Flags : Type 0 where
  pub tree : Bool
  pub verbose : Bool

-- One line of output: an entry, an entry with the error of lstat, or the error of opendir.
pub data Printed : Type 0 where
  line : List ℕ → Printed
  no_stat : List ℕ → (errno : ℕ) → Printed
  no_dir : List ℕ → (errno : ℕ) → Printed

-- The sign of strcmp and of dirent_compare.
pub data Sign : Type 0 where
  less equal greater : Sign

unfoldable pub strcmp : (s t : List ℕ) → Sign
strcmp [] [] = equal
strcmp [] (d ∷ ds) = less
strcmp (c ∷ cs) [] = greater
strcmp (c ∷ cs) (d ∷ ds) =
    let rest = strcmp cs ds in if c == d then rest else if ltb c d then less else greater

unfoldable pub dirent_compare : (k₁ : Kind) (s : List ℕ) (k₂ : Kind) (t : List ℕ) → Sign
dirent_compare k₁ s k₂ t =
    if is_directory k₁ && not (is_directory k₂)
    then less
    else if not (is_directory k₁) && is_directory k₂
    then greater
    else strcmp s t

abbrev pub is_greater : Sign → Bool
is_greater greater = true
is_greater s = false

-- qsort by dirent_compare; the names in a directory differ, so that the order is determined.
unfoldable pub insert : (name : List ℕ) → Kind → Stat → Dir → Entries → Entries
insert name k st d end = entry name k st d end
insert name k st d (entry name' k' st' d' es) =
    let rest = insert name k st d es in
    if is_greater (dirent_compare k name k' name')
    then entry name' k' st' d' rest
    else entry name k st d (entry name' k' st' d' es)

unfoldable pub qsort : Entries → Entries
qsort end = end
qsort (entry name k st d es) = insert name k st d (qsort es)

-- (int)n, added to an unsigned long long.
abbrev pub int_cast : ℕ → ℕ
int_cast n = let r = n % 2 ^ 32 in if ltb r (2 ^ 31) then r else r + (2 ^ 64 - 2 ^ 32)

unfoldable pub add_stat : Stat → Summary → Summary
add_stat (stat size blocks) s = record s {
  size = (s.size + int_cast size) % 2 ^ 64;
  blocks = (s.blocks + int_cast blocks) % 2 ^ 64;
}
add_stat (stat_unnamed size blocks) s = s
add_stat (stat_error errno) s = s

-- The switch on d_type.
unfoldable pub add_kind : Kind → Summary → Summary
add_kind directory s = record s { dirs = (s.dirs + 1) % 2 ^ 32 }
add_kind fifo s = record s { fifos = (s.fifos + 1) % 2 ^ 32 }
add_kind regular s = record s { files = (s.files + 1) % 2 ^ 32 }
add_kind link s = record s { links = (s.links + 1) % 2 ^ 32 }
add_kind socket s = record s { socks = (s.socks + 1) % 2 ^ 32 }
add_kind other s = s

-- i == n - 1
abbrev pub is_end : Entries → Bool
is_end end = true
is_end (entry name k st d es) = false

unfoldable pub branch : Flags → (last : Bool) → List ℕ
branch flags last =
    if flags.tree then if last then b'`' ∷ b'-' ∷ [] else b'|' ∷ b'-' ∷ [] else b' ' ∷ b' ' ∷ []

unfoldable pub indent : Flags → (last : Bool) → List ℕ
indent flags last = if flags.tree && not last then b'|' ∷ b' ' ∷ [] else b' ' ∷ b' ' ∷ []

-- The name as it is printed: in the verbose mode in 54 places, shortened if it is longer.
unfoldable pub column : Flags → List ℕ → List ℕ
column flags text =
    if not flags.verbose
    then text
    else if ltb 54 (length text)
    then take 51 text ++ b'.' ∷ b'.' ∷ b'.' ∷ b' ' ∷ b' ' ∷ []
    else text ++ replicate (54 - length text) b' ' ++ b' ' ∷ b' ' ∷ []

abbrev pub is_error : Stat → Bool
is_error (stat size blocks) = false
is_error (stat_unnamed size blocks) = false
is_error (stat_error errno) = true

-- getpwuid or getgrgid is NULL.
abbrev pub is_unnamed : Stat → Bool
is_unnamed (stat_unnamed size blocks) = true
is_unnamed st = false

abbrev pub errno_of : Stat → ℕ
errno_of (stat size blocks) = 0
errno_of (stat_unnamed size blocks) = 0
errno_of (stat_error errno) = errno

-- The counters behind an entry whose meta data is not needed or could be read.
unfoldable pub count_entry : Flags → Kind → Stat → Summary → Summary
count_entry flags k st s = add_kind k (if flags.verbose then add_stat st s else s)

-- The loop over the sorted entries; `call` is the recursive call for a sub-directory.
unfoldable pub process_entries :
    (call : Dir → List ℕ → Summary → Run (List Printed × Summary))
    → Flags
    → (pstr : List ℕ) → Entries
    → Summary
    → Run (List Printed × Summary)
process_entries call flags pstr end s = ok ([], s)
process_entries call flags pstr (entry name k st d es) s =
    let text = column flags (pstr ++ branch flags (is_end es) ++ name) in
    let counted = count_entry flags k st s in
    let after = λ (s' : Summary). process_entries call flags pstr es s' in
    if flags.verbose && is_error st
    then (do (out, s') ← after s; ok (no_stat text (errno_of st) ∷ out, s'))
    else if flags.verbose && is_unnamed st
    then fault
    else if is_directory k
    then (do
      (inner, s') ← call d (pstr ++ indent flags (is_end es)) counted
      (out, s'') ← after s'
      ok (line text ∷ inner ++ out, s''))
    else (do (out, s') ← after counted; ok (line text ∷ out, s'))

-- The fuel bounds the depth of the recursion.
unfoldable pub process_dir :
    ℕ → Flags → Dir → (pstr : List ℕ) → Summary → Run (List Printed × Summary)
process_dir zero flags d pstr s = out_of_fuel
process_dir (suc fuel) flags (unreadable errno) pstr s =
    ok (no_dir (pstr ++ branch flags true) errno ∷ [], s)
process_dir (suc fuel) flags (listing es) pstr s =
    process_entries (process_dir fuel flags) flags pstr (qsort es) s
