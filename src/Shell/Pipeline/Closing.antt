-- ===== src/Shell/Pipeline/Closing.antt =====
-- The pipes of eval in lab-4-shell/csapsh.c: what their calls of pipe and close leave open.
use snu_2021_fall_sys_prog.Common.{
  ℕ, zero, suc, ◌+◌, ◌-◌, ◌≡◌, ◌≢◌, ◌≤◌, ◌⊎◌, ◌||◌, Bool, true, false, inl, inr, refl, sym, ◌∙◌, ap,
  Option, none, some, List, [], ◌∷◌, ◌==◌, if◌then◌else◌, length, arith, ==→eq, ==→ne, lt→leb,
  Bool-cases, Option-cases,
}
use snu_2021_fall_sys_prog.Common.Run.{ok, Returns, Returns-bind}
use snu_2021_fall_sys_prog.Shell.Parser.{Text}
use snu_2021_fall_sys_prog.Shell.Pipeline.{
  Descriptors, IsLawful, make_pipes, close_pipes, children, pipeline,
}

-- The descriptor is an end of one of the pipes.
abbrev pub is_end : ℕ → List (ℕ × ℕ) → Bool
is_end fd [] = false
is_end fd (p ∷ ps) = fd == p.0 || fd == p.1 || is_end fd ps

module _ (D : Descriptors) (lawful : IsLawful D) where
  pub close_pipes-stream :
      (ps : List (ℕ × ℕ)) (t : D.Files) (fd : ℕ)
      → D.stream (close_pipes D ps t) fd ≡ (if is_end fd ps then none else D.stream t fd)
  unfolding close_pipes
  close_pipes-stream [] t fd = refl
  close_pipes-stream (p ∷ ps) t fd =
      rw
        (
          close_pipes-stream ps (D.close (D.close t p.1) p.0) fd,
          lawful.stream-close (D.close t p.1) p.0 fd,
          lawful.stream-close t p.1 fd,
        )
        (ground arith)

  -- The ends of the pipes were not open before, and are open now; no other descriptor has changed.
  pub record Made (t t' : D.Files) (ps : List (ℕ × ℕ)) : Type 0 where
    pub unused : (fd : ℕ) → is_end fd ps ≡ true → D.stream t fd ≡ none
    pub opened : (fd : ℕ) → is_end fd ps ≡ true → D.stream t' fd ≢ none
    pub kept : (fd : ℕ) → is_end fd ps ≡ false → D.stream t' fd ≡ D.stream t fd

  -- What pipe does to a descriptor.
  pipe-cases :
      (t t1 : D.Files) (p : ℕ × ℕ) (ps : List (ℕ × ℕ)) (fd : ℕ)
      → D.pipe t ≡ some (p, t1)
      → (D.stream t fd ≡ none) × (D.stream t1 fd ≢ none) × (is_end fd (p ∷ ps) ≡ true)
        ⊎ (D.stream t1 fd ≡ D.stream t fd) × (is_end fd (p ∷ ps) ≡ is_end fd ps)
  pipe-cases t t1 p ps fd e = elim (Bool-cases (fd == p.0)) [
    | inl first ↦ inl (
        rw (==→eq fd p.0 first)
          ((lawful.pipe_unused t t1 p e).0, (lawful.pipe_opens t t1 p e).0, ground arith))
    | inr h ↦ elim (Bool-cases (fd == p.1)) [
      | inl second ↦ inl (
          rw (==→eq fd p.1 second)
            ((lawful.pipe_unused t t1 p e).1, (lawful.pipe_opens t t1 p e).1, ground arith))
      | inr h' ↦
          inr (lawful.pipe_keeps t t1 p fd e (==→ne fd p.0 h) (==→ne fd p.1 h'), rw (h, h') refl)
    ]
  ]

  Made-cons :
      (t t1 t' : D.Files) (p : ℕ × ℕ) (ps : List (ℕ × ℕ))
      → D.pipe t ≡ some (p, t1)
      → Made t1 t' ps
      → Made t t' (p ∷ ps)
  Made-cons t t1 t' p ps e made = record {
    unused = λ fd h. elim (pipe-cases t t1 p ps fd e) [
      | inl fresh ↦ fresh.0
      | inr old ↦ sym old.0 ∙ made.unused fd (sym old.1 ∙ h)
    ];
    opened = λ fd h. elim (pipe-cases t t1 p ps fd e) [
      | inl fresh ↦ elim (Bool-cases (is_end fd ps)) [
        | inl again ↦ absurd (fresh.1 (made.unused fd again))
        | inr once ↦ λ closed. fresh.1 (sym (made.kept fd once) ∙ closed)
      ]
      | inr old ↦ made.opened fd (sym old.1 ∙ h)
    ];
    kept = λ fd h. elim (pipe-cases t t1 p ps fd e) [
      | inl fresh ↦ absurd (cc (fresh.2, h))
      | inr old ↦ made.kept fd (sym old.1 ∙ h) ∙ old.0
    ];
  }

  pub make_pipes-Made :
      (n i : ℕ) (t : D.Files)
      → ((u : D.Files) → D.pipe u ≢ none)
      → n + i ≤ 512
      → Returns (λ made. Made t made.1 made.0 × (length made.0 ≡ n)) (make_pipes D n i t)
  unfolding make_pipes
  make_pipes-Made zero i t pipes small = (
    record {
      unused = λ fd h. absurd (cc (h));
      opened = λ fd h. absurd (cc (h));
      kept = λ fd h. refl;
    },
    refl,
  )
  make_pipes-Made (suc n) i t pipes small =
      rw (lt→leb 512 i (omega arith)) (elim (Option-cases (D.pipe t)) [
        | inl failed ↦ absurd (pipes t failed)
        | inr (opened, e) ↦ rw e (
            Returns-bind (λ made. Made t made.1 made.0 × (length made.0 ≡ suc n))
              (make_pipes D n (suc i) opened.1) (λ made. ok (opened.0 ∷ made.0, made.1))
              (make_pipes-Made n (suc i) opened.1 pipes (omega (arith, small)))
              (λ made h. (Made-cons t opened.1 made.1 opened.0 made.0 e h.0, ap suc h.1)))
      ])

  -- Closing the pipes leaves the descriptors of the time before the pipes, where those that are no
  -- ends have not changed.
  pub Made-close_pipes :
      (t t' u : D.Files) (ps : List (ℕ × ℕ)) (fd : ℕ)
      → Made t t' ps
      → (is_end fd ps ≡ false → D.stream u fd ≡ D.stream t fd)
      → D.stream (close_pipes D ps u) fd ≡ D.stream t fd
  Made-close_pipes t t' u ps fd made same =
      close_pipes-stream ps u fd ∙ elim (Bool-cases (is_end fd ps)) [
        | inl closed ↦ rw closed (sym (made.unused fd closed))
        | inr other ↦ rw other (same other)
      ]

  -- A descriptor that was open before the pipes is no end of them.
  pub Made-is_end :
      (t t' : D.Files) (ps : List (ℕ × ℕ)) (fd : ℕ)
      → Made t t' ps
      → D.stream t fd ≢ none
      → is_end fd ps ≡ false
  Made-is_end t t' ps fd made used = elim (Bool-cases (is_end fd ps)) [
    | inl end ↦ absurd (used (made.unused fd end))
    | inr other ↦ other
  ]

  -- With at most 513 commands and no failure of pipe, eval makes its pipes within the bounds of fp,
  -- and behind the loop each descriptor of the shell is what it was before the pipeline.
  pub pipeline-close_pipes :
      (commands : List (List Text)) (outfile : Option Text) (t : D.Files)
      → ((u : D.Files) → D.pipe u ≢ none)
      → length commands ≤ 513
      → Returns (λ r. (fd : ℕ) → D.stream r.1 fd ≡ D.stream t fd) (pipeline D commands outfile t)
  unfolding pipeline
  pipeline-close_pipes commands outfile t pipes small =
      Returns-bind (λ r. (fd : ℕ) → D.stream r.1 fd ≡ D.stream t fd)
        (make_pipes D (length commands - 1) 0 t)
        (λ made. ok (
          children D (length commands) (length commands) 0 made.0 outfile made.1,
          close_pipes D made.0 made.1,
        ))
        (make_pipes-Made (length commands - 1) 0 t pipes (omega (arith, small)))
        (λ made h fd. Made-close_pipes t made.1 made.1 made.0 fd h.0 (h.0.kept fd))
