-- ===== src/Shell/Pipeline/Wiring.antt =====
-- The descriptors of the children of eval in lab-4-shell/csapsh.c.
use snu_2021_fall_sys_prog.Common.{
  ℕ, zero, suc, ◌-◌, ◌≡◌, ◌≢◌, ◌≤◌, ◌<◌, true, inl, inr, refl, sym, ◌∙◌, ap, Option, none, some,
  List, [], ◌∷◌, ◌==◌, if◌then◌else◌, get_elem?, length, arith, eq→==, subst, ==→eq, ==→ne, ne→==,
  Bool-cases, Option-cases,
}
use snu_2021_fall_sys_prog.Common.Run.{ok, Returns, Returns-bind, Returns-mono, ◌>>=◌}
use snu_2021_fall_sys_prog.Shell.Parser.{Text}
use snu_2021_fall_sys_prog.Shell.Pipeline.{
  Descriptors, IsLawful, make_pipes, close_pipes, redirect, connect_input, save_output,
  connect_output, child,
}
use snu_2021_fall_sys_prog.Shell.Pipeline.Closing.{
  is_end, close_pipes-stream, Made, Made-close_pipes, Made-is_end, make_pipes-Made,
}

get_elem?-is_end :
    (ps : List (ℕ × ℕ)) (i : ℕ) (p : ℕ × ℕ)
    → get_elem? ps i ≡ some p
    → (is_end p.0 ps ≡ true) × (is_end p.1 ps ≡ true)
get_elem?-is_end [] i p e = absurd (cc (e))
get_elem?-is_end (q ∷ ps) zero p e = let same : q ≡ p = cc in rw same (ground arith, ground arith)
get_elem?-is_end (q ∷ ps) (suc i) p e =
    let h = get_elem?-is_end ps i p e in rw (h.0, h.1) (ground arith, ground arith)

get_elem?-some {ℓ} :
    {A : Type ℓ} (xs : List A) (i : ℕ) → i < length xs → (x : A) × (get_elem? xs i ≡ some x)
get_elem?-some [] i h = absurd (omega (arith, h))
get_elem?-some (x ∷ xs) zero h = (x, refl)
get_elem?-some (x ∷ xs) (suc i) h = get_elem?-some xs i (omega (arith, h))

module _ (D : Descriptors) where
  -- What descriptor 0 of child i is to be: the input of the shell or the read end of pipe i - 1.
  abbrev pub input : (t made : D.Files) → List (ℕ × ℕ) → ℕ → Option D.Stream
  input t made fp zero = D.stream t 0
  input t made fp (suc i) = elim (get_elem? fp i) [ none ↦ none | some p ↦ D.stream made p.0 ]

  -- What descriptor 1 of child i is to be: the write end of pipe i, and for the last command the
  -- file or the output of the shell.
  abbrev pub saved : D.Files → Option Text → Option D.Stream
  saved t none = D.stream t 1
  saved t (some path) = some (D.file path)

  abbrev pub output :
      (t made : D.Files) → List (ℕ × ℕ) → (count i : ℕ) → Option Text → Option D.Stream
  output t made fp count i outfile =
      if suc i == count
      then saved t outfile
      else elim (get_elem? fp i) [ none ↦ none | some p ↦ D.stream made p.1 ]

  -- The descriptors of child i: its input, its output, and else those of the shell before the pipes.
  pub record IsWired (t made u : D.Files) (fp : List (ℕ × ℕ)) (count i : ℕ) (outfile : Option Text)
      : Type 0 where
    pub reads : D.stream u 0 ≡ input t made fp i
    pub writes : D.stream u 1 ≡ output t made fp count i outfile
    pub others : (fd : ℕ) → fd ≢ 0 → fd ≢ 1 → D.stream u fd ≡ D.stream t fd

  -- One descriptor has been set, and no other has changed.
  abbrev Set : ℕ → Option D.Stream → (t u : D.Files) → Type 0
  Set new s t u = (fd : ℕ) → D.stream u fd ≡ (if fd == new then s else D.stream t fd)

  Set-same : (new : ℕ) (s : Option D.Stream) (u : D.Files) → D.stream u new ≡ s → Set new s u u
  Set-same new s u e fd = elim (Bool-cases (fd == new)) [
    | inl self ↦ rw self (ap (D.stream u) (==→eq fd new self) ∙ e)
    | inr other ↦ rw other refl
  ]

module _ (D : Descriptors) (lawful : IsLawful D) where
  redirect-Set :
      (t : D.Files) (old new : ℕ)
      → D.stream t old ≢ none
      → Returns (Set D new (D.stream t old) t) (redirect D t old new)
  unfolding redirect
  redirect-Set t old new used = elim (Option-cases (D.dup2 t old new)) [
    | inl failed ↦ absurd (lawful.dup2_succeeds t old new used failed)
    | inr (u, e) ↦ rw (e, redirect) (λ fd. lawful.stream-dup2 t u old new fd e)
  ]

  connect_input-Set :
      (t made : D.Files) (fp : List (ℕ × ℕ)) (i : ℕ)
      → Made D lawful t made fp
      → D.stream t 0 ≢ none
      → i ≤ length fp
      → Returns (Set D 0 (input D t made fp i) made) (connect_input D fp i made)
  unfolding connect_input
  connect_input-Set t made fp zero h used small =
      Set-same D 0 (D.stream t 0) made (h.kept 0 (Made-is_end D lawful t made fp 0 h used))
  connect_input-Set t made fp (suc i) h used small =
      let (p, e) = get_elem?-some fp i (omega (arith, small)) in
      rw (e, input, connect_input)
        (redirect-Set made p.0 0 (h.opened p.0 (get_elem?-is_end fp i p e).0))

  -- The descriptor that open gave is closed again.
  Set-close :
      (u opened v : D.Files) (path : Text) (new : ℕ)
      → D.open_file u path ≡ some (new, opened)
      → D.stream u 1 ≢ none
      → Set D 1 (D.stream opened new) opened v
      → Set D 1 (some (D.file path)) u (D.close v new)
  Set-close u opened v path new e used set fd =
      rw
        (
          lawful.stream-close v new fd,
          set fd,
          lawful.stream-open_file u opened path new new e,
          lawful.stream-open_file u opened path new fd e,
          eq→== new new refl,
        )
        (elim (Bool-cases (fd == new)) [
          | inl self ↦
              let apart : new ≢ 1 = λ same. used (ap (D.stream u) (sym same) ∙ unused) in
              rw (self, ==→eq fd new self, ne→== new 1 apart) (sym unused)
          | inr other ↦ rw other refl
        ])
    where
      unused : D.stream u new ≡ none
      unused = lawful.open_unused u opened path new e

  opened-stream :
      (u opened : D.Files) (path : Text) (new : ℕ)
      → D.open_file u path ≡ some (new, opened)
      → D.stream opened new ≢ none
  opened-stream u opened path new e shut =
      let given : D.stream opened new ≡ some (D.file path) =
        lawful.stream-open_file u opened path new new e ∙ rw (eq→== new new refl) refl in
      cc (given, shut)

  save_output-Set :
      (t u : D.Files) (outfile : Option Text)
      → D.stream u 1 ≡ D.stream t 1
      → D.stream t 1 ≢ none
      → ((path : Text) (v : D.Files) → outfile ≡ some path → D.open_file v path ≢ none)
      → Returns (Set D 1 (saved D t outfile) u) (save_output D outfile u)
  unfolding save_output
  save_output-Set t u none same used opens = Set-same D 1 (D.stream t 1) u same
  save_output-Set t u (some path) same used opens = elim (Option-cases (D.open_file u path)) [
    | inl failed ↦ absurd (opens path u refl failed)
    | inr (opened, e) ↦
        rw (e, save_output)
          (Returns-bind (Set D 1 (some (D.file path)) u) (redirect D opened.1 opened.0 1)
            (λ v. ok (D.close v opened.0))
            (redirect-Set opened.1 opened.0 1 (opened-stream u opened.1 path opened.0 e))
            (λ v set. Set-close u opened.1 v path opened.0 e (λ shut. used (sym same ∙ shut)) set))
  ]

  connect_output-Set :
      (t made u : D.Files) (fp : List (ℕ × ℕ)) (count i : ℕ) (outfile : Option Text)
      → Made D lawful t made fp
      → D.stream t 0 ≢ none
      → D.stream t 1 ≢ none
      → Set D 0 (input D t made fp i) made u
      → i < count
      → length fp ≡ count - 1
      → ((path : Text) (v : D.Files) → outfile ≡ some path → D.open_file v path ≢ none)
      → Returns
          (Set D 1 (output D t made fp count i outfile) u)
          (connect_output D count i fp outfile u)
  unfolding connect_output
  connect_output-Set t made u fp count i outfile h used0 used1 set small size opens =
      elim (Bool-cases (suc i == count)) [
        | inl last ↦ rw last (save_output-Set t u outfile (set 1 ∙ old 1 used1) used1 opens)
        | inr inner ↦
            let (p, e) =
              get_elem?-some fp i (omega (arith, ==→ne (suc i) count inner, small, size)) in
            let end = (get_elem?-is_end fp i p e).1 in
            let apart : p.1 ≢ 0 = λ same.
              absurd (
                cc (end, ap (λ fd. is_end fd fp) same, Made-is_end D lawful t made fp 0 h used0)) in
            let kept : D.stream u p.1 ≡ D.stream made p.1 = set p.1 ∙ rw (ne→== p.1 0 apart) refl in
            rw (inner, e)
              (subst (λ s. Returns (Set D 1 s u) (redirect D u p.1 1)) kept
                (redirect-Set u p.1 1 (λ shut. h.opened p.1 end (sym kept ∙ shut))))
      ]
    where
      old : (fd : ℕ) → D.stream t fd ≢ none → D.stream made fd ≡ D.stream t fd
      old fd used = h.kept fd (Made-is_end D lawful t made fp fd h used)

  close_pipes-IsWired :
      (t made u v : D.Files) (fp : List (ℕ × ℕ)) (count i : ℕ) (outfile : Option Text)
      → Made D lawful t made fp
      → D.stream t 0 ≢ none
      → D.stream t 1 ≢ none
      → Set D 0 (input D t made fp i) made u
      → Set D 1 (output D t made fp count i outfile) u v
      → IsWired D t made (close_pipes D fp v) fp count i outfile
  close_pipes-IsWired t made u v fp count i outfile h used0 used1 set0 set1 = record {
    reads = at 0 used0 ∙ set1 0 ∙ set0 0;
    writes = at 1 used1 ∙ set1 1;
    others = λ fd n m.
        Made-close_pipes D lawful t made v fp fd h
          (λ inner. set1 fd ∙ rw (ne→== fd 1 m) (set0 fd ∙ rw (ne→== fd 0 n) (h.kept fd inner)));
  }
    where
      at : (fd : ℕ) → D.stream t fd ≢ none → D.stream (close_pipes D fp v) fd ≡ D.stream v fd
      at fd used =
          close_pipes-stream D lawful fp v fd ∙ rw (Made-is_end D lawful t made fp fd h used) refl

  child-IsWired :
      (t made : D.Files) (fp : List (ℕ × ℕ)) (count i : ℕ) (outfile : Option Text)
      → Made D lawful t made fp
      → D.stream t 0 ≢ none
      → D.stream t 1 ≢ none
      → i < count
      → length fp ≡ count - 1
      → ((path : Text) (v : D.Files) → outfile ≡ some path → D.open_file v path ≢ none)
      → Returns (λ u. IsWired D t made u fp count i outfile) (child D count i fp outfile made)
  unfolding child
  child-IsWired t made fp count i outfile h used0 used1 small size opens =
      Returns-bind (λ u. IsWired D t made u fp count i outfile) (connect_input D fp i made)
        (λ t1. connect_output D count i fp outfile t1 >>= (λ t2. ok (close_pipes D fp t2)))
        (connect_input-Set t made fp i h used0 (omega (arith, small, size)))
        (λ t1 set0.
          Returns-bind (λ u. IsWired D t made u fp count i outfile)
            (connect_output D count i fp outfile t1) (λ t2. ok (close_pipes D fp t2))
            (connect_output-Set t made t1 fp count i outfile h used0 used1 set0 small size opens)
            (λ t2. close_pipes-IsWired t made t1 t2 fp count i outfile h used0 used1 set0))

  -- With at most 513 commands, the descriptors 0 and 1 of the shell in use, no failure of pipe, and
  -- none of open on the output file: child i of the pipeline comes to execve. Its descriptor 0 is the
  -- read end of pipe i - 1, for the first child that of the shell; its descriptor 1 is the write end
  -- of pipe i, for the last child the output file or that of the shell; each other descriptor is what
  -- it was in the shell before the pipes, so that no end of a pipe is left open.
  pub make_pipes-child :
      (t : D.Files) (count i : ℕ) (outfile : Option Text)
      → D.stream t 0 ≢ none
      → D.stream t 1 ≢ none
      → i < count
      → count ≤ 513
      → ((u : D.Files) → D.pipe u ≢ none)
      → ((path : Text) (v : D.Files) → outfile ≡ some path → D.open_file v path ≢ none)
      → Returns
          (λ made.
            Returns
              (λ u. IsWired D t made.1 u made.0 count i outfile)
              (child D count i made.0 outfile made.1))
          (make_pipes D (count - 1) 0 t)
  make_pipes-child t count i outfile used0 used1 small bound pipes opens =
      Returns-mono (λ made. Made D lawful t made.1 made.0 × (length made.0 ≡ count - 1))
        (λ made.
          Returns (λ u. IsWired D t made.1 u made.0 count i outfile)
            (child D count i made.0 outfile made.1))
        (make_pipes D (count - 1) 0 t)
        (make_pipes-Made D lawful (count - 1) 0 t pipes (omega (arith, bound)))
        (λ made h. child-IsWired t made.1 made.0 count i outfile h.0 used0 used1 small h.1 opens)
