-- ===== src/Memory/Manager/Clearing.antt =====
-- mm_calloc of lab-3-memory/src/memmgr.c: memset of the payload, and the bytes of the result.
use snu_2021_fall_sys_prog.Common.{
  ℕ, zero, suc, ◌+◌, ◌-◌, ◌*◌, ◌/◌, ◌%◌, ◌≤◌, ◌<◌, ◌≡◌, ◌⊎◌, ◌∙◌, refl, sym, subst, ap, inl, inr,
  List, [], ◌∷◌, some, arith, ◌==◌, ltb, ltb→lt, ltb→le, ne→==, Bool-cases, if◌then◌else◌,
}
use snu_2021_fall_sys_prog.Common.Run.{ok, Returns, ◌>>=◌, Returns-bind}
use snu_2021_fall_sys_prog.Memory.DataSegment.{DataSegment, u64, null}
use snu_2021_fall_sys_prog.Memory.Manager.Placing.{carve}
use snu_2021_fall_sys_prog.Memory.Manager.Payload.{Outside, IsHeap-Payload}
use snu_2021_fall_sys_prog.Memory.Manager.Malloc.{IsServed, adjust_bounds, mm_malloc-first_fit}
use snu_2021_fall_sys_prog.Memory.Manager.Search.{first_fit}
use snu_2021_fall_sys_prog.Memory.Manager.{Manager, Policy, Words, update, alloc, free}
use snu_2021_fall_sys_prog.Memory.Manager.Layout.{
  Block, block, BlockAt, BlockAt-bounds, BlockAt-replace, IsHeap, replace, get_lem, put_lem,
}
use snu_2021_fall_sys_prog.Memory.Manager.Operations.{
  clear_low, clear_words, memset, mm_malloc, mm_calloc, adjust,
}

-- Byte `i` of a word, and of the memory from `p` on: the machine is little-endian.
unfoldable pub byte_of : (v i : ℕ) → ℕ
byte_of v zero = v % 256
byte_of v (suc i) = byte_of (v / 256) i

unfoldable pub byte_at : Words → (p i : ℕ) → ℕ
byte_at w p i = byte_of (w (p + i / 8 * 8)) (i % 8)

byte_of-zero : (i : ℕ) → byte_of 0 i ≡ 0
unfolding byte_of
byte_of-zero zero = refl
byte_of-zero (suc i) = byte_of-zero i

byte_of-clear_low : (v count i : ℕ) → i < count → byte_of (clear_low v count) i ≡ 0
unfolding byte_of clear_low
byte_of-clear_low v zero i h = absurd (omega arith)
byte_of-clear_low v (suc count) zero h = omega arith
byte_of-clear_low v (suc count) (suc i) h =
    let quotient : clear_low (v / 256) count * 256 / 256 ≡ clear_low (v / 256) count =
      omega arith in
    rw quotient (byte_of-clear_low (v / 256) count i (omega arith))

-- The words after clear_words and after memset.
wiped : Words → (count p : ℕ) → Words
wiped w zero p = w
wiped w (suc count) p = wiped (update w p 0) count (p + 8)

wiped-outside :
    (w : Words) (count p a : ℕ) → (a < p) ⊎ (p + 8 * count ≤ a) → wiped w count p a ≡ w a
unfolding wiped update
wiped-outside w zero p a o = refl
wiped-outside w (suc count) p a (inl o) =
    wiped-outside (update w p 0) count (p + 8) a (inl (omega arith)) ∙ ground arith
wiped-outside w (suc count) p a (inr o) =
    wiped-outside (update w p 0) count (p + 8) a (inr (omega arith)) ∙ ground arith

wiped-inside : (w : Words) (count p j : ℕ) → j < count → wiped w count p (p + j * 8) ≡ 0
unfolding wiped update
wiped-inside w zero p j h = absurd (omega arith)
wiped-inside w (suc count) p zero h =
    wiped-outside (update w p 0) count (p + 8) (p + 0 * 8) (inl (omega arith)) ∙ ground arith
wiped-inside w (suc count) p (suc j) h =
    let move : p + suc j * 8 ≡ p + 8 + j * 8 = omega arith in
    ap (wiped (update w p 0) count (p + 8)) move
    ∙ wiped-inside (update w p 0) count (p + 8) j (omega arith)

clear_words_lem :
    (count p : ℕ) (m : Manager)
    → m.ds.heap_start ≤ p
    → p + 8 * count ≤ m.ds.rw_end
    → clear_words count p m ≡ ok (record m { words = wiped m.words count p })
unfolding clear_words wiped
clear_words_lem zero p m lo hi = refl
clear_words_lem (suc count) p m lo hi = rw (put_lem m p 0 lo (omega arith)) (
    clear_words_lem count (p + 8) (record m { words = update m.words p 0 }) (omega arith)
      (omega arith))

cleared : Words → (p n : ℕ) → Words
cleared w p n =
    if n % 8 == 0
    then wiped w (n / 8) p
    else update (wiped w (n / 8) p) (p + n / 8 * 8)
        (clear_low (wiped w (n / 8) p (p + n / 8 * 8)) (n % 8))

memset_lem :
    (p n : ℕ) (m : Manager)
    → m.ds.heap_start ≤ p
    → p + (n + 7) / 8 * 8 ≤ m.ds.rw_end
    → memset p n m ≡ ok (record m { words = cleared m.words p n })
unfolding memset cleared
memset_lem p n m lo hi =
    let m₁ : Manager = record m { words = wiped m.words (n / 8) p } in
    rw (clear_words_lem (n / 8) p m lo (omega arith)) (elim (Bool-cases (n % 8 == 0)) [
      | inl e ↦ rw e refl
      | inr e ↦
          let rest : 0 < n % 8 = ground arith in
          let top : p + n / 8 * 8 + 8 ≤ m.ds.rw_end = omega arith in
          rw e (
            rw (get_lem m₁ (p + n / 8 * 8) (omega arith) top) (
              put_lem m₁ (p + n / 8 * 8)
                (clear_low (wiped m.words (n / 8) p (p + n / 8 * 8)) (n % 8)) (omega arith) top))
    ])

cleared-outside :
    (w : Words) (p n a : ℕ) → (a < p) ⊎ (p + (n + 7) / 8 * 8 ≤ a) → cleared w p n a ≡ w a
unfolding cleared update
cleared-outside w p n a (inl o) =
    let rest = wiped-outside w (n / 8) p a (inl o) in ground (arith, rest)
cleared-outside w p n a (inr o) =
    let rest = wiped-outside w (n / 8) p a (inr (omega arith)) in ground (arith, rest)

-- memset clears the first `n` bytes from `p` on.
cleared-byte : (w : Words) (p n i : ℕ) → i < n → byte_at (cleared w p n) p i ≡ 0
unfolding cleared byte_at update
cleared-byte w p n i h = elim (Bool-cases (ltb (i / 8) (n / 8))) [
  | inl e ↦
      let whole = wiped-inside w (n / 8) p (i / 8) (ltb→lt (i / 8) (n / 8) e) in
      let same : cleared w p n (p + i / 8 * 8) ≡ 0 = ground (arith, whole) in
      ap (λ v. byte_of v (i % 8)) same ∙ byte_of-zero (i % 8)
  | inr e ↦
      let last : i / 8 ≡ n / 8 = omega (arith, ltb→le (i / 8) (n / 8) e) in
      let low : i % 8 < n % 8 = omega arith in
      let same : cleared w p n (p + i / 8 * 8)
          ≡ clear_low (wiped w (n / 8) p (p + n / 8 * 8)) (n % 8) =
        ground (arith, last, low) in
      ap (λ v. byte_of v (i % 8)) same
      ∙ byte_of-clear_low (wiped w (n / 8) p (p + n / 8 * 8)) (n % 8) (i % 8) low
]

-- What mm_calloc gives for `k` bytes in the block of `room` bytes at `q`: the pointer behind its
-- header, the block carved in the heap, zero bytes, and no change outside the block.
pub record IsCleared (m : Manager) (bs : List Block) (q k : ℕ) (r : ℕ × Manager) : Type 0 where
  pub room : ℕ
  pub at : BlockAt m.heap_start bs q (block room free)
  pub enough : k + 16 ≤ room
  pub result : r.0 ≡ q + 8
  pub heap : IsHeap r.1 (replace (carve (adjust k) room) q m.heap_start bs)
  pub zeros : (i : ℕ) → i < k → byte_at r.1.words r.0 i ≡ 0
  pub outside : (x : ℕ) → (x < q) ⊎ (q + room ≤ x) → r.1.words x ≡ m.words x

-- The first block of a carved one is allocated.
carved_at :
    (m : Manager) (bs : List Block) (q asize room : ℕ)
    → IsHeap m bs
    → BlockAt m.heap_start bs q (block room free)
    → BlockAt m.heap_start (replace (carve asize room) q m.heap_start bs) q (block asize alloc)
carved_at m bs q asize room h at = elim (Bool-cases (ltb asize room)) [
  | inl e ↦ rw e (
      BlockAt-replace m.words m.heap_start m.heap_end q bs (block (room - asize) free ∷ [])
        (block room free) (block asize alloc) h.layout at)
  | inr e ↦ rw e (
      BlockAt-replace m.words m.heap_start m.heap_end q bs [] (block room free) (block asize alloc)
        h.layout at)
]

memset-IsCleared :
    (m : Manager) (bs : List Block) (q k : ℕ) (r : ℕ × Manager)
    → IsHeap m bs
    → k + 47 < u64
    → IsServed m bs q k r
    → Returns
        (IsCleared m bs q k)
        (if r.0 == null then ok (r.0, r.1) else (do m₂ ← memset r.0 k r.1; ok (r.0, m₂)))
memset-IsCleared m bs q k (payload, m₁) h small s =
    let heap = s.carved.heap in
    let bounds = adjust_bounds k small in
    let start : m.heap_start ≡ m₁.heap_start =
      omega (arith, h.first, heap.first, ap (λ (d : DataSegment). d.heap_start) s.carved.segment) in
    let at : BlockAt m₁.heap_start (replace (carve (adjust k) s.room) q m.heap_start bs) q
        (block (adjust k) alloc) =
      subst
        (λ b.
          BlockAt b (replace (carve (adjust k) s.room) q m.heap_start bs) q
            (block (adjust k) alloc))
        start (carved_at m bs q (adjust k) s.room h s.at) in
    let (low, high, tags) =
      BlockAt-bounds m₁.words m₁.heap_start m₁.heap_end q
        (replace (carve (adjust k) s.room) q m.heap_start bs) (block (adjust k) alloc) heap.layout
        at in
    let lo : m₁.ds.heap_start ≤ q + 8 = omega (arith, low, heap.first) in
    let hi : q + 8 + (k + 7) / 8 * 8 ≤ m₁.ds.rw_end = omega (arith, high, heap.last, bounds.1) in
    subst
      (λ p.
        Returns (IsCleared m bs q k)
          (if p == null then ok (p, m₁) else (do m₂ ← memset p k m₁; ok (p, m₂))))
      (sym s.result)
      (rw (ne→== (q + 8) null (λ e. omega arith), memset_lem (q + 8) k m₁ lo hi)
        record {
          room = s.room;
          at = s.at;
          enough = s.enough;
          result = refl;
          heap =
              IsHeap-Payload m₁ (cleared m₁.words (q + 8) k)
                (replace (carve (adjust k) s.room) q m.heap_start bs) q (block (adjust k) alloc)
                heap at (λ a o. cleared-outside m₁.words (q + 8) k a (payload_of a o));
          zeros = λ i lt. cleared-byte m₁.words (q + 8) k i lt;
          outside = λ x o. cleared-outside m₁.words (q + 8) k x (beyond x o) ∙ s.carved.outside x o;
        })
  where
    size : (adjust k % 32 ≡ 0) × (k + 16 ≤ adjust k) × (adjust k < k + 48)
    size = adjust_bounds k small

    payload_of : (a : ℕ) → Outside q (adjust k) a → (a < q + 8) ⊎ (q + 8 + (k + 7) / 8 * 8 ≤ a)
    payload_of a (inl o) = inl o
    payload_of a (inr o) = inr (omega (arith, size.0, size.1))

    beyond : (x : ℕ) → (x < q) ⊎ (q + s.room ≤ x) → (x < q + 8) ⊎ (q + 8 + (k + 7) / 8 * 8 ≤ x)
    beyond x (inl o) = inl (omega arith)
    beyond x (inr o) = inr (omega (arith, s.enough))

-- With the first-fit policy on a heap of blocks `bs`, a positive request for `nmemb` elements of
-- `n` bytes, whose product and 47 are below 2 ^ 64 and for which some free block is large enough,
-- returns the payload of the first such block with all its bytes 0. The block is carved as for
-- mm_malloc, the heap stays a heap of blocks, and no word outside the block changes.
pub mm_calloc-IsCleared :
    (m : Manager) (bs : List Block) (q nmemb n : ℕ)
    → IsHeap m bs
    → m.get_free_block ≡ Policy.first_fit
    → 0 < nmemb * n
    → nmemb * n + 47 < u64
    → first_fit (adjust (nmemb * n)) m.heap_start bs ≡ some q
    → Returns (IsCleared m bs q (nmemb * n)) (mm_calloc nmemb n m)
unfolding mm_calloc
mm_calloc-IsCleared m bs q nmemb n h policy pos small first =
    let exact : nmemb * n % u64 ≡ nmemb * n = omega arith in
    simp (h.ready, exact)
      (Returns-bind (IsCleared m bs q (nmemb * n)) (mm_malloc (nmemb * n) m)
        (λ r.
          if r.0 == null then ok (r.0, r.1) else (do m₂ ← memset r.0 (nmemb * n) r.1; ok (r.0, m₂)))
        (mm_malloc-first_fit m bs q (nmemb * n) h policy pos small first)
        (λ r s. memset-IsCleared m bs q (nmemb * n) r h small s))
