-- ===== src/Memory/Manager/BestFit.antt =====
-- bf_get_free_block of lab-3-memory/src/memmgr.c: the block that it returns is a best fit.
use snu_2021_fall_sys_prog.Common.{
  ℕ, zero, suc, ◌+◌, ◌-◌, ◌≤◌, ◌<◌, ◌≡◌, ◌⊎◌, refl, sym, subst, inl, inr, true, false, List, [],
  ◌∷◌, arith, ◌==◌, if◌then◌else◌, All, Bool-cases, le→ltb,
}
use snu_2021_fall_sys_prog.Common.Run.{ok, Returns, Returns-mono, Returns-bind, ◌>>=◌}
use snu_2021_fall_sys_prog.Memory.DataSegment.{null}
use snu_2021_fall_sys_prog.Memory.Manager.{Manager}
use snu_2021_fall_sys_prog.Memory.Manager.Layout.{Block, BlockAt, IsHeap, BlockAt-bounds, Layout-le}
use snu_2021_fall_sys_prog.Memory.Manager.Search.{
  fits, IsTail, IsTail-rest, IsHeap-IsTail, header_inside, get_size_header, get_status_header,
}
use snu_2021_fall_sys_prog.Memory.Manager.Policies.{bf_loop, better, bf_get_free_block}

-- No block of the list fits and has fewer than `least` bytes.
abbrev pub NoneBelow : (wanted least : ℕ) → List Block → Type 0
NoneBelow wanted least = All (λ b. fits wanted b ≡ true → least ≤ b.bytes)

-- `q` is the header of a block that fits, has fewer than `least` bytes, and no fitting block has
-- fewer bytes than it.
pub record IsBest (wanted least p : ℕ) (bs : List Block) (q : ℕ) : Type 0 where
  pub chosen : Block
  pub at : BlockAt p bs q chosen
  pub fit : fits wanted chosen ≡ true
  pub smaller : chosen.bytes < least
  pub best : NoneBelow wanted chosen.bytes bs

NoneBelow-mono :
    (wanted a b : ℕ) (bs : List Block) → a ≤ b → NoneBelow wanted b bs → NoneBelow wanted a bs
NoneBelow-mono wanted a b [] h n = tt
NoneBelow-mono wanted a b (x ∷ bs) h n =
    (λ fit. omega (arith, n.0 fit), NoneBelow-mono wanted a b bs h n.1)

-- What the loop returns: a better block among those that are left, or the one that it had.
abbrev Outcome : (wanted p least best : ℕ) → List Block → ℕ → Type 0
Outcome wanted p least best bs r =
    ((r ≡ best) × NoneBelow wanted least bs) ⊎ IsBest wanted least p bs r

Outcome-better :
    (wanted p least best : ℕ) (b : Block) (bs : List Block)
    → better wanted least b.bytes b.flag ≡ true
    → (r : ℕ) → Outcome wanted (p + b.bytes) b.bytes p bs r
    → Outcome wanted p least best (b ∷ bs) r
Outcome-better wanted p least best b bs e r (inl (same, none)) = inr record {
  chosen = b;
  at = inl (sym same, refl);
  fit = ground arith;
  smaller = ground arith;
  best = (λ fit. omega arith, none);
}
Outcome-better wanted p least best b bs e r (inr k) = inr record {
  chosen = k.chosen;
  at = inr k.at;
  fit = k.fit;
  smaller = ground (arith, k.smaller);
  best = (λ fit. omega (arith, k.smaller), k.best);
}

Outcome-keep :
    (wanted p least best : ℕ) (b : Block) (bs : List Block)
    → better wanted least b.bytes b.flag ≡ false
    → (r : ℕ) → Outcome wanted (p + b.bytes) least best bs r
    → Outcome wanted p least best (b ∷ bs) r
Outcome-keep wanted p least best b bs e r (inl (same, none)) =
    inl (same, (λ fit. ground arith, none))
Outcome-keep wanted p least best b bs e r (inr k) = inr record {
  chosen = k.chosen;
  at = inr k.at;
  fit = k.fit;
  smaller = k.smaller;
  best = (λ fit. ground (arith, k.smaller), k.best);
}

bf_loop-step :
    (fuel : ℕ) (m : Manager) (p wanted least best : ℕ) (b : Block) (bs : List Block)
    → IsTail m p (b ∷ bs)
    → bf_loop (suc fuel) m p wanted least best ≡ (
        if better wanted least b.bytes b.flag
        then bf_loop fuel m (p + b.bytes) wanted b.bytes p
        else bf_loop fuel m (p + b.bytes) wanted least best)
unfolding bf_loop
bf_loop-step fuel m p wanted least best b bs t =
    ground
      (arith, header_inside m p b bs t, get_size_header m p b bs t, get_status_header m p b bs t)

bf_loop-Outcome :
    (fuel : ℕ) (m : Manager) (p wanted least best : ℕ) (bs : List Block)
    → IsTail m p bs
    → m.heap_end < fuel + p
    → Returns (Outcome wanted p least best bs) (bf_loop fuel m p wanted least best)
unfolding bf_loop
bf_loop-Outcome zero m p wanted least best bs t f =
    absurd (omega (arith, Layout-le m.words p bs m.heap_end t.layout))
bf_loop-Outcome (suc fuel) m p wanted least best [] t f =
    rw (le→ltb p m.heap_end (omega (arith, t.layout))) (inl (refl, tt))
bf_loop-Outcome (suc fuel) m p wanted least best (b ∷ bs) t f =
    rw (bf_loop-step fuel m p wanted least best b bs t)
      (elim (Bool-cases (better wanted least b.bytes b.flag)) [
        | inl e ↦ rw e (
            Returns-mono (Outcome wanted (p + b.bytes) b.bytes p bs)
              (Outcome wanted p least best (b ∷ bs)) (bf_loop fuel m (p + b.bytes) wanted b.bytes p)
              (bf_loop-Outcome fuel m (p + b.bytes) wanted b.bytes p bs (IsTail-rest m p b bs t)
                (omega arith))
              (Outcome-better wanted p least best b bs e))
        | inr e ↦ rw e (
            Returns-mono (Outcome wanted (p + b.bytes) least best bs)
              (Outcome wanted p least best (b ∷ bs))
              (bf_loop fuel m (p + b.bytes) wanted least best)
              (bf_loop-Outcome fuel m (p + b.bytes) wanted least best bs (IsTail-rest m p b bs t)
                (omega arith))
              (Outcome-keep wanted p least best b bs e))
      ])
  where
    least_size : 32 ≤ b.bytes
    least_size = t.layout.0.least

-- What bf_get_free_block returns for a search of the blocks `bs`.
abbrev pub BestFit : (m : Manager) (wanted : ℕ) → List Block → ℕ × Manager → Type 0
BestFit m wanted bs (found, m') =
    (m' ≡ m)
    × (((found ≡ null) × NoneBelow wanted (m.heap_end - m.heap_start) bs)
        ⊎ ((q : ℕ) × (found ≡ q + 8) × IsBest wanted (m.heap_end - m.heap_start) m.heap_start bs q))

found-BestFit :
    (m : Manager) (wanted : ℕ) (bs : List Block)
    → IsHeap m bs
    → (r : ℕ) → Outcome wanted m.heap_start (m.heap_end - m.heap_start) null bs r
    → BestFit m wanted bs (if r == null then null else r + 8, m)
found-BestFit m wanted bs h r (inl (e, none)) = (refl, inl (ground arith, none))
found-BestFit m wanted bs h r (inr k) =
    let first = h.first in
    let (low, high, is) =
      BlockAt-bounds m.words m.heap_start m.heap_end r bs k.chosen h.layout k.at in
    (refl, inr (r, ground arith, k))

-- On a heap of blocks `bs` the best-fit search returns without an error and changes nothing.
-- Either it returns NULL, and every free block of the wanted size is at least as large as the whole
-- heap, or it returns the pointer of a free block of at least the wanted size that is smaller than
-- the heap, and no free block of the wanted size is smaller.
pub bf_get_free_block-BestFit :
    (m : Manager) (bs : List Block) (wanted : ℕ)
    → IsHeap m bs
    → Returns (BestFit m wanted bs) (bf_get_free_block m wanted)
unfolding bf_get_free_block
bf_get_free_block-BestFit m bs wanted h =
    subst (Returns (BestFit m wanted bs)) (sym (run_search h.ready)) (
      Returns-bind (BestFit m wanted bs)
        (bf_loop (m.heap_end + 1) m m.heap_start wanted (m.heap_end - m.heap_start) null)
        (λ r. ok (if r == null then null else r + 8, m))
        (bf_loop-Outcome (m.heap_end + 1) m m.heap_start wanted (m.heap_end - m.heap_start) null bs
          (IsHeap-IsTail m bs h) (omega arith))
        (found-BestFit m wanted bs h))
  where
    run_search :
        m.mm_initialized ≡ true
        → bf_get_free_block m wanted ≡ (
            bf_loop (m.heap_end + 1) m m.heap_start wanted (m.heap_end - m.heap_start) null >>= λ r.
            ok (if r == null then null else r + 8, m))
    run_search e = ground arith
