-- ===== src/Tree/Totals.antt =====
-- lab-2-io/dirtree.c: processDir ends, and its counters are the totals of the tree.
use snu_2021_fall_sys_prog.Common.{
  false, ℕ, zero, suc, ◌+◌, ◌%◌, ◌^◌, ◌≤◌, ◌<◌, ◌≡◌, ◌∙◌, refl, inl, inr, ap, ◌&&◌, List, ◌++◌,
  arith, if◌then◌else◌, Bool-cases,
}
use Prim.Native.Nat.{max}
use snu_2021_fall_sys_prog.Common.Run.{Run, Returns, Returns-bind, Returns-mono}
use snu_2021_fall_sys_prog.Tree.{
  Kind, directory, regular, link, fifo, socket, is_directory, Stat, stat, Dir, Entries, unreadable,
  listing, end, entry, Summary, Flags, Printed, insert, qsort, int_cast, add_stat, add_kind,
  is_error, is_unnamed, count_entry, process_entries, process_dir, dirent_compare, is_greater,
  is_end, indent,
}

-- The counters of a summary.
pub data Counter : Type 0 where
  dirs files links fifos socks size blocks : Counter

abbrev pub value : Counter → Summary → ℕ
value dirs s = s.dirs
value files s = s.files
value links s = s.links
value fifos s = s.fifos
value socks s = s.socks
value size s = s.size
value blocks s = s.blocks

-- unsigned int and unsigned long long
abbrev pub modulus : Counter → ℕ
modulus size = 2 ^ 64
modulus blocks = 2 ^ 64
modulus c = 2 ^ 32

-- What one entry adds to a counter.
abbrev pub share : Flags → Counter → Kind → Stat → ℕ
share flags dirs directory st = 1
share flags files regular st = 1
share flags links link st = 1
share flags fifos fifo st = 1
share flags socks socket st = 1
share flags size k (stat n b) = if flags.verbose then int_cast n else 0
share flags blocks k (stat n b) = if flags.verbose then int_cast b else 0
share flags c k st = 0

-- The total over all entries at any depth, in any order; in the verbose mode an entry whose meta
-- data cannot be read counts for nothing, and neither does what is below it.
mutual
  pub total_dir : Flags → Counter → Dir → ℕ
  total_dir flags c (unreadable errno) = 0
  total_dir flags c (listing es) = total_entries flags c es

  pub total_entries : Flags → Counter → Entries → ℕ
  total_entries flags c end = 0
  total_entries flags c (entry name k st d es) =
      (if flags.verbose && is_error st
        then 0
        else share flags c k st + (if is_directory k then total_dir flags c d else 0))
      + total_entries flags c es

-- In the verbose mode getpwuid and getgrgid know the owner and the group of every entry.
unfoldable mutual
  pub IsNamed : Flags → Dir → Type 0
  IsNamed flags (unreadable errno) = Unit
  IsNamed flags (listing es) = AreNamed flags es

  pub AreNamed : Flags → Entries → Type 0
  AreNamed flags end = Unit
  AreNamed flags (entry name k st d es) =
      ((flags.verbose && is_unnamed st) ≡ false) × IsNamed flags d × AreNamed flags es

unfoldable mutual
  pub depth : Dir → ℕ
  depth (unreadable errno) = 1
  depth (listing es) = suc (depth_entries es)

  pub depth_entries : Entries → ℕ
  depth_entries end = 0
  depth_entries (entry name k st d es) = max (depth d) (depth_entries es)

total-insert :
    (flags : Flags) (c : Counter) (name : List ℕ) (k : Kind) (st : Stat) (d : Dir) (es : Entries)
    → total_entries flags c (insert name k st d es) ≡ total_entries flags c (entry name k st d es)
unfolding insert total_dir
total-insert flags c name k st d end = refl
total-insert flags c name k st d (entry name' k' st' d' es) =
    elim (Bool-cases (is_greater (dirent_compare k name k' name'))) [
      | inl later ↦ rw later (omega (arith, total-insert flags c name k st d es))
      | inr here ↦ rw here refl
    ]

total-qsort :
    (flags : Flags) (c : Counter) (es : Entries)
    → total_entries flags c (qsort es) ≡ total_entries flags c es
unfolding qsort total_dir
total-qsort flags c end = refl
total-qsort flags c (entry name k st d es) =
    total-insert flags c name k st d (qsort es) ∙ omega (arith, total-qsort flags c es)

AreNamed-insert :
    (flags : Flags) (name : List ℕ) (k : Kind) (st : Stat) (d : Dir) (es : Entries)
    → (flags.verbose && is_unnamed st) ≡ false
    → IsNamed flags d
    → AreNamed flags es
    → AreNamed flags (insert name k st d es)
unfolding insert IsNamed
AreNamed-insert flags name k st d end a b h = (a, b, tt)
AreNamed-insert flags name k st d (entry name' k' st' d' es) a b h =
    elim (Bool-cases (is_greater (dirent_compare k name k' name'))) [
      | inl later ↦ rw later (h.0, h.1, AreNamed-insert flags name k st d es a b h.2)
      | inr here ↦ rw here (a, b, h)
    ]

AreNamed-qsort : (flags : Flags) (es : Entries) → AreNamed flags es → AreNamed flags (qsort es)
unfolding qsort IsNamed
AreNamed-qsort flags end h = tt
AreNamed-qsort flags (entry name k st d es) h =
    AreNamed-insert flags name k st d (qsort es) h.0 h.1 (AreNamed-qsort flags es h.2)

depth-insert :
    (name : List ℕ) (k : Kind) (st : Stat) (d : Dir) (es : Entries)
    → depth_entries (insert name k st d es) ≤ max (depth d) (depth_entries es)
unfolding insert depth
depth-insert name k st d end = omega arith
depth-insert name k st d (entry name' k' st' d' es) =
    elim (Bool-cases (is_greater (dirent_compare k name k' name'))) [
      | inl later ↦ rw later (omega (arith, depth-insert name k st d es))
      | inr here ↦ rw here (omega arith)
    ]

depth-qsort : (es : Entries) → depth_entries (qsort es) ≤ depth_entries es
unfolding qsort depth
depth-qsort end = omega arith
depth-qsort (entry name k st d es) =
    omega (arith, depth-insert name k st d (qsort es), depth-qsort es)

-- The counters do not exceed their types.
abbrev pub InRange : Summary → Type 0
InRange s = (c : Counter) → value c s < modulus c

-- The counters have grown by `n c`, modulo their types.
abbrev pub Grown : (n : Counter → ℕ) (s s' : Summary) → Type 0
Grown n s s' = (c : Counter) → value c s' ≡ (value c s + n c) % modulus c

pub Grown-zero : (s : Summary) → InRange s → (c : Counter) → value c s ≡ (value c s + 0) % modulus c
Grown-zero s h dirs = omega (arith, h dirs)
Grown-zero s h c = omega (arith, h c)

pub Grown-add :
    (c : Counter) (a b d m n : ℕ)
    → b ≡ (a + m) % modulus c
    → d ≡ (b + n) % modulus c
    → d ≡ (a + (m + n)) % modulus c
Grown-add dirs a b d m n e f = omega (arith, e, f)
Grown-add _ a b d m n e f = omega (arith, e, f)

pub Grown-InRange : (c : Counter) (a b m : ℕ) → b ≡ (a + m) % modulus c → b < modulus c
Grown-InRange dirs a b m e = omega (arith, e)
Grown-InRange _ a b m e = omega (arith, e)

count_entry-Grown :
    (flags : Flags) (k : Kind) (st : Stat) (s : Summary)
    → InRange s
    → Grown (λ c. share flags c k st) s (count_entry flags k st s)
unfolding count_entry add_kind add_stat
count_entry-Grown flags directory (stat n b) s h dirs = ground (arith, h dirs)
count_entry-Grown flags k st s h c = ground (arith, h c)

-- The totals of what is printed, for the counters.
Counts : (n : Counter → ℕ) → Summary → List Printed × Summary → Type 0
Counts n s r = Grown n s r.1

-- The loop over the entries, if the recursive call counts the directories that it is made for.
process_entries-Grown :
    (fuel : ℕ) (flags : Flags) (call : Dir → List ℕ → Summary → Run (List Printed × Summary))
    → ((d : Dir) (pstr : List ℕ) (s : Summary)
        → depth d ≤ fuel
        → IsNamed flags d
        → InRange s
        → Returns (Counts (λ c. total_dir flags c d) s) (call d pstr s))
    → (pstr : List ℕ) (es : Entries) (s : Summary) → depth_entries es ≤ fuel
    → AreNamed flags es
    → InRange s
    → Returns (Counts (λ c. total_entries flags c es) s) (process_entries call flags pstr es s)
unfolding process_entries Counts total_dir depth IsNamed
process_entries-Grown fuel flags call calls pstr end s deep named h = Grown-zero s h
process_entries-Grown fuel flags call calls pstr (entry name k st d es) s deep named h =
    elim (Bool-cases (flags.verbose && is_error st)) [
      | inl failed ↦ rw failed (
          Returns-bind (Counts (λ c. 0 + total_entries flags c es) s)
            (process_entries call flags pstr es s) _
            (process_entries-Grown fuel flags call calls pstr es s (omega (arith, deep)) named.2 h)
            (λ r g c. g c ∙ ap (λ n. (value c s + n) % modulus c) (omega arith)))
      | inr shown ↦
          rw (shown, named.0)
            (let counted = count_entry flags k st s in
              let own = count_entry-Grown flags k st s h in
              let range : InRange counted =
                λ c. Grown-InRange c (value c s) (value c counted) (share flags c k st) (own c) in
              elim (Bool-cases (is_directory k)) [
                | inl sub ↦ rw sub (
                    Returns-bind
                      (Counts
                        (λ c. share flags c k st + total_dir flags c d + total_entries flags c es)
                        s)
                      (call d (pstr ++ indent flags (is_end es)) counted) _
                      (calls d (pstr ++ indent flags (is_end es)) counted (omega (arith, deep))
                        named.1 range)
                      (λ r g.
                        Returns-bind
                          (Counts
                            (λ c.
                              share flags c k st + total_dir flags c d + total_entries flags c es)
                            s)
                          (process_entries call flags pstr es r.1) _
                          (process_entries-Grown fuel flags call calls pstr es r.1
                            (omega (arith, deep)) named.2
                            (λ c.
                              Grown-InRange c (value c counted) (value c r.1) (total_dir flags c d)
                                (g c)))
                          (λ r' g' c.
                            Grown-add c (value c s) (value c r.1) (value c r'.1)
                              (share flags c k st + total_dir flags c d) (total_entries flags c es)
                              (Grown-add c (value c s) (value c counted) (value c r.1)
                                (share flags c k st) (total_dir flags c d) (own c) (g c))
                              (g' c))))
                | inr plain ↦ rw plain (
                    Returns-bind (Counts (λ c. share flags c k st + 0 + total_entries flags c es) s)
                      (process_entries call flags pstr es counted) _
                      (process_entries-Grown fuel flags call calls pstr es counted
                        (omega (arith, deep)) named.2 range)
                      (λ r g c.
                        Grown-add c (value c s) (value c counted) (value c r.1)
                          (share flags c k st + 0) (total_entries flags c es)
                          (own c ∙ ap (λ n. (value c s + n) % modulus c) (omega arith)) (g c)))
              ])
    ]

process_dir-Grown :
    (fuel : ℕ) (flags : Flags) (d : Dir) (pstr : List ℕ) (s : Summary)
    → depth d ≤ fuel
    → IsNamed flags d
    → InRange s
    → Returns (Counts (λ c. total_dir flags c d) s) (process_dir fuel flags d pstr s)
unfolding process_dir Counts total_dir depth IsNamed
process_dir-Grown zero flags (unreadable errno) pstr s deep named h = absurd (omega (arith, deep))
process_dir-Grown zero flags (listing es) pstr s deep named h = absurd (omega (arith, deep))
process_dir-Grown (suc fuel) flags (unreadable errno) pstr s deep named h = Grown-zero s h
process_dir-Grown (suc fuel) flags (listing es) pstr s deep named h =
    Returns-mono (Counts (λ c. total_entries flags c (qsort es)) s)
      (Counts (λ c. total_entries flags c es) s)
      (process_entries (process_dir fuel flags) flags pstr (qsort es) s)
      (process_entries-Grown fuel flags (process_dir fuel flags) (process_dir-Grown fuel flags) pstr
        (qsort es) s (omega (arith, deep, depth-qsort es)) (AreNamed-qsort flags es named) h)
      (λ r g c. g c ∙ ap (λ n. (value c s + n) % modulus c) (total-qsort flags c es))

-- On a tree that is no deeper than the fuel and, in the verbose mode, has no entry of an unknown owner
-- or group, and counters in the range of their types, processDir
-- ends, for every prefix and all flags. Each of its seven counters has grown by the total over the
-- entries of the tree at any depth, whatever the order of readdir, modulo the counter's type:
-- directories, regular files, links, pipes and sockets by one for each, and in the verbose mode the
-- size and the blocks by those of each entry as an int. In the verbose mode an entry whose meta data
-- cannot be read, with all that is below it, counts for nothing.
pub process_dir-total_dir :
    (fuel : ℕ) (flags : Flags) (d : Dir) (pstr : List ℕ) (s : Summary)
    → depth d ≤ fuel
    → IsNamed flags d
    → InRange s
    → Returns (λ r. Grown (λ c. total_dir flags c d) s r.1) (process_dir fuel flags d pstr s)
unfolding Counts
process_dir-total_dir fuel flags d pstr s deep named h =
    process_dir-Grown fuel flags d pstr s deep named h
