-- ===== src/Tree/Reordering.antt =====
-- lab-2-io/dirtree.c: processDir and the order in which readdir gives the entries.
use mathlib.Core.Path.{fun_ext}
use snu_2021_fall_sys_prog.Common.{
  ℕ, zero, suc, ◌≡◌, ◌≢◌, ◌∙◌, refl, ap, subst, inl, inr, Bool, ◌&&◌, List, ◌∷◌, ◌++◌,
  if◌then◌else◌, Bool-cases,
}
use snu_2021_fall_sys_prog.Common.Run.{Run, ok, fault, ◌>>=◌}
use snu_2021_fall_sys_prog.Tree.{
  Kind, is_directory, Stat, is_error, is_unnamed, errno_of, Dir, Entries, unreadable, listing, end,
  entry, Summary, Flags, Printed, line, no_stat, insert, qsort, is_end, branch, indent, column,
  count_entry, process_entries, process_dir,
}
use snu_2021_fall_sys_prog.Tree.Comparison.{is_after}
use snu_2021_fall_sys_prog.Tree.Sorting.{insert_comm}

-- The same directories, but for the order of entries with different names at any depth.
mutual
  pub data SameDir : Dir → Dir → Type 0 where
    denied : (errno : ℕ) → SameDir (unreadable errno) (unreadable errno)
    opened : {es es' : Entries} → SameEntries es es' → SameDir (listing es) (listing es')

  pub data SameEntries : Entries → Entries → Type 0 where
    nothing : SameEntries end end
    kept :
        {es es' : Entries} (name : List ℕ) (k : Kind) (st : Stat) {d d' : Dir}
        → SameDir d d'
        → SameEntries es es'
        → SameEntries (entry name k st d es) (entry name k st d' es')
    swapped :
        {es : Entries} (name : List ℕ) (k : Kind) (st : Stat) (d : Dir) (name' : List ℕ) (k' : Kind)
        (st' : Stat) (d' : Dir)
        → name ≢ name'
        → SameEntries
            (entry name k st d (entry name' k' st' d' es))
            (entry name' k' st' d' (entry name k st d es))
    chained :
        {es es' es'' : Entries} → SameEntries es es' → SameEntries es' es'' → SameEntries es es''

module _ (flags : Flags) (fuel : ℕ) where
  -- Entry by entry the same, up to directories for which processDir does the same.
  data Aligned : Entries → Entries → Type 0 where
    aligned_end : Aligned end end
    aligned_entry :
        {es es' : Entries} (name : List ℕ) (k : Kind) (st : Stat) {d d' : Dir}
        → process_dir fuel flags d ≡ process_dir fuel flags d'
        → Aligned es es'
        → Aligned (entry name k st d es) (entry name k st d' es')

  Aligned-refl : (es : Entries) → Aligned es es
  Aligned-refl end = aligned_end
  Aligned-refl (entry name k st d es) = aligned_entry name k st refl (Aligned-refl es)

  Aligned-trans : {es es' es'' : Entries} → Aligned es es' → Aligned es' es'' → Aligned es es''
  Aligned-trans aligned_end h = h
  Aligned-trans (aligned_entry name k st e r) (aligned_entry _ _ _ e' r') =
      aligned_entry name k st (e ∙ e') (Aligned-trans r r')

  insert-Aligned :
      {es es' : Entries} (name : List ℕ) (k : Kind) (st : Stat) (d d' : Dir)
      → process_dir fuel flags d ≡ process_dir fuel flags d'
      → Aligned es es'
      → Aligned (insert name k st d es) (insert name k st d' es')
  unfolding insert
  insert-Aligned name k st d d' e aligned_end = aligned_entry name k st e aligned_end
  insert-Aligned name k st d d' e (aligned_entry name' k' st' e' r) =
      elim (Bool-cases (is_after k name k' name')) [
        | inl h ↦ rw h ((aligned_entry name' k' st' e' (insert-Aligned name k st d d' e r)))
        | inr h ↦ rw h ((aligned_entry name k st e (aligned_entry name' k' st' e' r)))
      ]

  qsort-Aligned :
      {es es' : Entries}
      → ((d d' : Dir) → SameDir d d' → process_dir fuel flags d ≡ process_dir fuel flags d')
      → SameEntries es es'
      → Aligned (qsort es) (qsort es')
  unfolding qsort
  qsort-Aligned same nothing = aligned_end
  qsort-Aligned same (kept name k st {d} {d'} r rs) =
      insert-Aligned name k st d d' (same d d' r) (qsort-Aligned same rs)
  qsort-Aligned same (swapped {es} name k st d name' k' st' d' differ) =
      subst (Aligned (insert name k st d (insert name' k' st' d' (qsort es))))
        (insert_comm name k st d name' k' st' d' (qsort es) differ) (Aligned-refl _)
  qsort-Aligned same (chained r r') = Aligned-trans (qsort-Aligned same r) (qsort-Aligned same r')

  is_end-Aligned : {es es' : Entries} → Aligned es es' → is_end es ≡ is_end es'
  is_end-Aligned aligned_end = refl
  is_end-Aligned (aligned_entry name k st e r) = refl

  -- One round of the loop, over the recursive call and the rounds behind it.
  entry_round :
      List ℕ
      → List ℕ
      → Kind
      → Stat
      → (last : Bool) → (call : List ℕ → Summary → Run (List Printed × Summary))
      → (after : Summary → Run (List Printed × Summary)) → Summary
      → Run (List Printed × Summary)
  entry_round pstr name k st last call after s =
      let text = column flags (pstr ++ branch flags last ++ name) in
      let counted = count_entry flags k st s in
      if flags.verbose && is_error st
      then (do (out, s') ← after s; ok (no_stat text (errno_of st) ∷ out, s'))
      else if flags.verbose && is_unnamed st
      then fault
      else if is_directory k
      then (do
        (inner, s') ← call (pstr ++ indent flags last) counted
        (out, s'') ← after s'
        ok (line text ∷ inner ++ out, s''))
      else (do (out, s') ← after counted; ok (line text ∷ out, s'))

  process_entries_round :
      (pstr name : List ℕ) (k : Kind) (st : Stat) (d : Dir) (es : Entries) (s : Summary)
      → process_entries (process_dir fuel flags) flags pstr (entry name k st d es) s
        ≡ entry_round pstr name k st
            (is_end es)
            (process_dir fuel flags d)
            (process_entries (process_dir fuel flags) flags pstr es)
            s
  unfolding process_entries entry_round
  process_entries_round pstr name k st d es s = refl

  process_entries-Aligned :
      (pstr : List ℕ) {es es' : Entries}
      → Aligned es es'
      → process_entries (process_dir fuel flags) flags pstr es
        ≡ process_entries (process_dir fuel flags) flags pstr es'
  process_entries-Aligned pstr aligned_end = refl
  process_entries-Aligned pstr (aligned_entry {es} {es'} name k st {d} {d'} e r) =
      let rest = process_entries-Aligned pstr r in
      let last = is_end-Aligned r in
      fun_ext (λ s. cc (
        process_entries_round pstr name k st d es s,
        process_entries_round pstr name k st d' es' s,
        e,
        rest,
        last,
      ))

same_calls :
    (flags : Flags) (fuel : ℕ) (d d' : Dir)
    → SameDir d d'
    → process_dir fuel flags d ≡ process_dir fuel flags d'
unfolding process_dir
same_calls flags zero d d' r = refl
same_calls flags (suc fuel) _ _ (denied errno) = refl
same_calls flags (suc fuel) _ _ (opened r) =
    fun_ext (λ p.
      process_entries-Aligned flags fuel p (qsort-Aligned flags fuel (same_calls flags fuel) r))

-- processDir prints the same lines and counts the same for two directories that differ only in the
-- order in which readdir gives entries with different names, at any depth.
pub process_dir-SameDir :
    (fuel : ℕ) (flags : Flags) (d d' : Dir) (pstr : List ℕ) (s : Summary)
    → SameDir d d'
    → process_dir fuel flags d pstr s ≡ process_dir fuel flags d' pstr s
process_dir-SameDir fuel flags d d' pstr s r =
    ap (λ (f : List ℕ → Summary → Run (List Printed × Summary)). f pstr s)
      (same_calls flags fuel d d' r)
