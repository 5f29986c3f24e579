-- ===== src/Shell/Pipeline/Memory.antt =====
-- Descriptors as a list of changes, the last one first.
use snu_2021_fall_sys_prog.Common.{
  ℕ, suc, ◌+◌, ◌≡◌, ◌≢◌, ◌≤◌, refl, Option, none, some, List, [], ◌∷◌, ◌==◌, if◌then◌else◌, arith,
  sym, ◌∙◌,
}
use snu_2021_fall_sys_prog.Shell.Parser.{Text}
use snu_2021_fall_sys_prog.Shell.Pipeline.{Descriptors, IsLawful}

pub data Stream : Type 0 where
  terminal : Stream
  read_end : ℕ → Stream
  write_end : ℕ → Stream
  saved : Text → Stream

abbrev pub Changes : Type 0
Changes = List (ℕ × Option Stream)

abbrev pub stream_of : Changes → ℕ → Option Stream
stream_of [] fd = none
stream_of ((k, s) ∷ t) fd = if fd == k then s else stream_of t fd

-- More than any descriptor in use.
abbrev pub unused : Changes → ℕ
unused [] = 0
unused ((k, s) ∷ t) = suc k + unused t

abbrev pub duplicate : Option Stream → ℕ → Changes → Option Changes
duplicate none new t = none
duplicate (some s) new t = some ((new, some s) ∷ t)

abbrev pub memory : Descriptors
memory = record {
  Files = Changes;
  Stream = Stream;
  stream = stream_of;
  pipe = λ t. some (
    (unused t, unused t + 1),
    (unused t, some (read_end (unused t))) ∷ (unused t + 1, some (write_end (unused t))) ∷ t,
  );
  dup2 = λ t old new. duplicate (stream_of t old) new t;
  open_file = λ t path. some (unused t, (unused t, some (saved path)) ∷ t);
  close = λ t fd. (fd, none) ∷ t;
  file = saved;
}

stream_of-unused : (t : Changes) (fd : ℕ) → unused t ≤ fd → stream_of t fd ≡ none
stream_of-unused [] fd h = refl
stream_of-unused ((k, s) ∷ t) fd h = grind (arith, stream_of-unused t fd)

opens_two :
    (t : Changes) (k : ℕ)
    → (stream_of ((k, some (read_end k)) ∷ (k + 1, some (write_end k)) ∷ t) k ≢ none)
      × (stream_of ((k, some (read_end k)) ∷ (k + 1, some (write_end k)) ∷ t) (k + 1) ≢ none)
opens_two t k = (ground arith, ground arith)

keeps_others :
    (t : Changes) (k fd : ℕ) (s s' : Option Stream)
    → fd ≢ k
    → fd ≢ k + 1
    → stream_of ((k, s) ∷ (k + 1, s') ∷ t) fd ≡ stream_of t fd
keeps_others t k fd s s' n m = ground arith

duplicate-stream_of :
    (s : Option Stream) (new fd : ℕ) (t t' : Changes)
    → duplicate s new t ≡ some t'
    → stream_of t' fd ≡ (if fd == new then s else stream_of t fd)
duplicate-stream_of none new fd t t' e = absurd (cc (e))
duplicate-stream_of (some s) new fd t t' e =
    let same : t' ≡ (new, some s) ∷ t = cc (e) in rw same refl

duplicate_succeeds :
    (s : Option Stream) (new : ℕ) (t : Changes) → s ≢ none → duplicate s new t ≢ none
duplicate_succeeds none new t h e = h refl
duplicate_succeeds (some s) new t h e = cc (e)

pipe_result :
    (t t' : Changes) (p : ℕ × ℕ)
    → memory.pipe t ≡ some (p, t')
    → (p.0 ≡ unused t)
      × (p.1 ≡ unused t + 1)
      × (t'
          ≡ (unused t, some (read_end (unused t)))
            ∷ (unused t + 1, some (write_end (unused t)))
            ∷ t)
pipe_result t t' p e = (cc, cc, cc)

open_result :
    (t t' : Changes) (path : Text) (fd : ℕ)
    → memory.open_file t path ≡ some (fd, t')
    → (fd ≡ unused t) × (t' ≡ (unused t, some (saved path)) ∷ t)
open_result t t' path fd e = (cc, cc)

pub memory-IsLawful : IsLawful memory
memory-IsLawful = record {
  pipe_unused = λ t t' p e.
      let r = pipe_result t t' p e in
      rw (r.0, r.1)
        (
          stream_of-unused t (unused t) (omega arith),
          stream_of-unused t (unused t + 1) (omega arith),
        );
  pipe_opens =
      λ t t' p e. let r = pipe_result t t' p e in rw (r.0, r.1, r.2) (opens_two t (unused t));
  pipe_keeps = λ t t' p fd e n m.
      let r = pipe_result t t' p e in
      rw (r.2) (
        keeps_others t (unused t) fd (some (read_end (unused t))) (some (write_end (unused t)))
          (λ h. n (h ∙ sym r.0)) (λ h. m (h ∙ sym r.1)));
  dup2_succeeds = λ t old new h. duplicate_succeeds (stream_of t old) new t h;
  stream-dup2 = λ t t' old new fd e. duplicate-stream_of (stream_of t old) new fd t t' e;
  open_unused = λ t t' path fd e.
      rw ((open_result t t' path fd e).0) (stream_of-unused t (unused t) (omega arith));
  stream-open_file =
      λ t t' path new fd e. let r = open_result t t' path new e in rw (r.0, r.1) refl;
  stream-close = λ t old fd. refl;
}
