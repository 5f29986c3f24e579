-- ===== src/Memory/Manager/Checking.antt =====
-- mm_check of lab-3-memory/src/memmgr.c on memory whose footers may be wrong.
use snu_2021_fall_sys_prog.Common.{
  ℕ, zero, suc, ◌+◌, ◌-◌, ◌≤◌, ◌<◌, ◌≡◌, ◌⊎◌, refl, inl, inr, true, false, List, [], ◌∷◌, arith,
  ◌==◌, ◌||◌, not, if◌then◌else◌, Bool-cases,
}
use snu_2021_fall_sys_prog.Common.Run.{ok}
use snu_2021_fall_sys_prog.Memory.Manager.{Manager, Words, size, status, prev_ptr}
use snu_2021_fall_sys_prog.Memory.Manager.Layout.{get_lem}
use snu_2021_fall_sys_prog.Memory.Manager.Operations.{check_loop, mm_check}

-- Headers with the sizes `ns` lead from `p` to `end`; nothing is said of the footers.
abbrev pub Chained : Words → (p : ℕ) → List ℕ → (end : ℕ) → Type 0
Chained w p [] end = p ≡ end
Chained w p (n ∷ ns) end = (size (w p) ≡ n) × (8 ≤ n) × Chained w (p + n) ns end

-- Each footer has the size and the status of its header.
abbrev pub TagsAgree : Words → (p : ℕ) → List ℕ → Type 0
TagsAgree w p [] = Unit
TagsAgree w p (n ∷ ns) =
    ((size (w (p + n - 8)) ≡ n) × (status (w (p + n - 8)) ≡ status (w p))) × TagsAgree w (p + n) ns

Chained-le : (w : Words) (p : ℕ) (ns : List ℕ) (end : ℕ) → Chained w p ns end → p ≤ end
Chained-le w p [] end h = omega arith
Chained-le w p (n ∷ ns) end h = omega (arith, Chained-le w (p + n) ns end h.2)

-- The number of wrong footers.
wrong : Words → (p : ℕ) → List ℕ → ℕ
wrong w p [] = 0
wrong w p (n ∷ ns) =
    let rest = wrong w (p + n) ns in
    if not (n == size (w (p + n - 8))) || not (status (w p) == status (w (p + n - 8)))
    then 1 + rest
    else rest

wrong-TagsAgree :
    (w : Words) (p : ℕ) (ns : List ℕ)
    → ((wrong w p ns ≡ 0) × TagsAgree w p ns) ⊎ ((0 < wrong w p ns) × ¬ TagsAgree w p ns)
unfolding wrong
wrong-TagsAgree w p [] = inl (refl, tt)
wrong-TagsAgree w p (n ∷ ns) =
    elim (Bool-cases
      (not (n == size (w (p + n - 8))) || not (status (w p) == status (w (p + n - 8))))) [
        | inl bad ↦ rw bad (inr (omega arith, λ (tags, rest). ground (arith, bad, tags.0, tags.1)))
        | inr good ↦ rw good (elim (wrong-TagsAgree w (p + n) ns) [
          | inl (none_wrong, rest) ↦
              inl (none_wrong, ((ground (arith, good), ground (arith, good)), rest))
          | inr (some_wrong, differ) ↦ inr (some_wrong, λ (tags, rest). differ rest)
        ])
      ]

check_loop-wrong :
    (fuel : ℕ) (m : Manager) (p errors : ℕ) (ns : List ℕ)
    → m.ds.heap_start ≤ p
    → m.heap_end + 8 ≤ m.ds.rw_end
    → Chained m.words p ns m.heap_end
    → m.heap_end < fuel + p
    → check_loop fuel m p errors ≡ ok (m.heap_end, errors + wrong m.words p ns)
unfolding check_loop wrong
check_loop-wrong zero m p errors ns lo hi h f =
    absurd (omega (arith, f, Chained-le m.words p ns m.heap_end h))
check_loop-wrong (suc fuel) m p errors [] lo hi h f = ground (arith, h)
check_loop-wrong (suc fuel) m p errors (n ∷ ns) lo hi h f =
    let le = Chained-le m.words (p + n) ns m.heap_end h.2 in
    let least = h.1 in
    let hdr = get_lem m p lo (omega arith) in
    let ftr = get_lem m (p + n - 8) (omega arith) (omega arith) in
    elim (Bool-cases (
      not (n == size (m.words (p + n - 8)))
      || not (status (m.words p) == status (m.words (p + n - 8))))) [
        | inl bad ↦ ground (
          arith,
          le,
          h.0,
          h.1,
          bad,
          hdr,
          ftr,
          check_loop-wrong fuel m (p + n) (errors + 1) ns (omega arith) hi h.2 (omega arith),
        )
        | inr good ↦ ground (
          arith,
          le,
          h.0,
          h.1,
          good,
          hdr,
          ftr,
          check_loop-wrong fuel m (p + n) errors ns (omega arith) hi h.2 (omega arith),
        )
      ]

-- The heap is initialised and its headers lead from heap_start to heap_end, whose sentinel and that
-- below heap_start are accessible. Then mm_check ends, and it reports a coherent block structure
-- exactly if each footer has the size and the status of its header.
pub mm_check-TagsAgree :
    (m : Manager) (ns : List ℕ)
    → m.mm_initialized ≡ true
    → m.ds.heap_start + 8 ≤ m.heap_start
    → m.heap_end + 8 ≤ m.ds.rw_end
    → Chained m.words m.heap_start ns m.heap_end
    → ((mm_check m ≡ ok true) × TagsAgree m.words m.heap_start ns)
      ⊎ ((mm_check m ≡ ok false) × ¬ TagsAgree m.words m.heap_start ns)
unfolding mm_check prev_ptr
mm_check-TagsAgree m ns ready lo hi h =
    let le = Chained-le m.words m.heap_start ns m.heap_end h in
    let first = get_lem m (m.heap_start - 8) (omega arith) (omega arith) in
    let last = get_lem m m.heap_end (omega arith) (omega arith) in
    let loop =
      check_loop-wrong (m.heap_end + 1) m m.heap_start 0 ns (omega arith) hi h (omega arith) in
    elim (wrong-TagsAgree m.words m.heap_start ns) [
      | inl (none_wrong, agree) ↦ inl (ground (arith, ready, first, last, loop, none_wrong), agree)
      | inr (some_wrong, differ) ↦
          inr (ground (arith, ready, first, last, loop, some_wrong), differ)
    ]
