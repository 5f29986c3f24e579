-- ===== src/Tree/Main.antt =====
-- lab-2-io/dirtree.c: main. An argument is the list of its characters; `root` gives the directory
-- that opendir finds under a name. syntax ends the program (`panic`).
pub mod Sums
use snu_2021_fall_sys_prog.Common.{
  ℕ, ◌+◌, ◌%◌, ◌^◌, ◌&&◌, Bool, true, false, Option, none, some, List, [], ◌∷◌, ◌++◌, ltb, ◌==◌,
  if◌then◌else◌, length,
}
use snu_2021_fall_sys_prog.Common.Run.{Run, ok, panic, ◌>>=◌}
use snu_2021_fall_sys_prog.Tree.{Dir, Summary, Flags, Printed, process_dir}

abbrev pub max_dir : ℕ
max_dir = 64

-- flags, with F_SUMMARY apart, and the array `directories`.
pub record Options : Type 0 where
  pub flags : Flags
  pub summary : Bool
  pub directories : List (List ℕ)

-- What the switches "-t", "-s" and "-v" set; all others end the program.
unfoldable pub switch : List ℕ → Options → Run Options
switch [] o = panic
switch (c ∷ []) o =
    let flags = o.flags in
    if c == b't'
    then ok (record o { flags = record flags { tree = true } })
    else if c == b's'
    then ok (record o { summary = true })
    else if c == b'v'
    then ok (record o { flags = record flags { verbose = true } })
    else panic
switch (c ∷ d ∷ cs) o = panic

-- A directory beyond the first MAX_DIR is ignored, with a warning.
unfoldable pub add_directory : List ℕ → Options → Options
add_directory name o =
    if ltb (length o.directories) max_dir
    then record o { directories = o.directories ++ name ∷ [] }
    else o

unfoldable pub parse_argument : List ℕ → Options → Run Options
parse_argument [] o = ok (add_directory [] o)
parse_argument (c ∷ cs) o = if c == b'-' then switch cs o else ok (add_directory (c ∷ cs) o)

unfoldable pub parse_arguments : List (List ℕ) → Options → Run Options
parse_arguments [] o = ok o
parse_arguments (arg ∷ args) o = do o' ← parse_argument arg o; parse_arguments args o'

-- CURDIR if no directory was given
unfoldable pub chosen : List (List ℕ) → List (List ℕ)
chosen [] = (b'.' ∷ []) ∷ []
chosen (name ∷ names) = name ∷ names

-- memset to 0
abbrev pub cleared : Summary
cleared = record { dirs = 0; files = 0; links = 0; fifos = 0; socks = 0; size = 0; blocks = 0 }

-- tstat += dstat
unfoldable pub add_summary : (tstat dstat : Summary) → Summary
add_summary tstat dstat = record {
  dirs = (tstat.dirs + dstat.dirs) % 2 ^ 32;
  files = (tstat.files + dstat.files) % 2 ^ 32;
  links = (tstat.links + dstat.links) % 2 ^ 32;
  fifos = (tstat.fifos + dstat.fifos) % 2 ^ 32;
  socks = (tstat.socks + dstat.socks) % 2 ^ 32;
  size = (tstat.size + dstat.size) % 2 ^ 64;
  blocks = (tstat.blocks + dstat.blocks) % 2 ^ 64;
}

-- What is printed for one directory: its name, its entries and its summary.
pub record Report : Type 0 where
  pub name : List ℕ
  pub output : List Printed
  pub dstat : Summary

module _ (root : List ℕ → Dir) (fuel : ℕ) where
  -- The loop over the directories.
  unfoldable pub list_directories : Flags → List (List ℕ) → Summary → Run (List Report × Summary)
  list_directories flags [] tstat = ok ([], tstat)
  list_directories flags (name ∷ names) tstat = do
    shown ← process_dir fuel flags (root name) [] cleared
    rest ← list_directories flags names (add_summary tstat shown.1)
    ok (record { name = name; output = shown.0; dstat = shown.1 } ∷ rest.0, rest.1)

  -- The reports, and the grand total if it is printed.
  unfoldable pub main : List (List ℕ) → Run (List Report × Option Summary)
  main args = do
    o ← parse_arguments args (record {
      flags = record { tree = false; verbose = false };
      summary = false;
      directories = [];
    })
    listed ← list_directories o.flags (chosen o.directories) cleared
    ok (
      listed.0,
      if o.summary && ltb 1 (length (chosen o.directories)) then some listed.1 else none,
    )
