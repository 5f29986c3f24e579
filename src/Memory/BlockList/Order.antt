-- ===== src/Memory/BlockList/Order.antt =====
-- lab-3-memory/src/blocklist.c: the order of the list, and the map from payload pointers to blocks.
use snu_2021_fall_sys_prog.Common.{
  ℕ, ◌<◌, ◌≤◌, ◌≡◌, refl, inl, inr, none, some, List, [], ◌∷◌, arith, ltb, leb, ◌==◌, if◌then◌else◌,
  Bool-cases,
}
use snu_2021_fall_sys_prog.Memory.BlockList.{Block, tail_ptr, insert_at, find_from, unlink}

-- The payload pointers grow strictly from `low` to below the tail.
abbrev pub IsSorted : (low : ℕ) → List Block → Type 0
IsSorted low [] = Unit
IsSorted low (b ∷ bs) = (low < b.ptr) × (b.ptr < tail_ptr) × IsSorted b.ptr bs

find_from-below :
    (ptr low : ℕ) (bs : List Block) → IsSorted low bs → ptr ≤ low → find_from ptr bs ≡ none
unfolding find_from
find_from-below ptr low [] h below = refl
find_from-below ptr low (b ∷ bs) (above, small, sorted) below = ground (arith, above, below)

pub insert_at-IsSorted :
    (b : Block) (low : ℕ) (bs : List Block)
    → IsSorted low bs
    → low < b.ptr
    → b.ptr < tail_ptr
    → find_from b.ptr bs ≡ none
    → IsSorted low (insert_at b bs)
unfolding insert_at find_from
insert_at-IsSorted b low [] h above small new = (above, small, tt)
insert_at-IsSorted b low (s ∷ bs) (s_above, s_small, sorted) above small new =
    elim (Bool-cases (leb s.ptr b.ptr)) [
      | inl before ↦ rw before (
        s_above,
        s_small,
        insert_at-IsSorted b s.ptr bs sorted (ground (arith, new, before)) small
            (ground (arith, new, before)),
      )
      | inr behind ↦ rw behind (above, small, (ground (arith, behind), s_small, sorted))
    ]

pub insert_at-find_from :
    (b : Block) (low : ℕ) (bs : List Block)
    → IsSorted low bs
    → find_from b.ptr bs ≡ none
    → (ptr : ℕ)
    → find_from ptr (insert_at b bs) ≡ (if b.ptr == ptr then some b else find_from ptr bs)
unfolding insert_at find_from
insert_at-find_from b low [] h new ptr = ground arith
insert_at-find_from b low (s ∷ bs) (s_above, s_small, sorted) new ptr =
    elim (Bool-cases (leb s.ptr b.ptr)) [
      | inl before ↦ rw before (
          ground (
            arith,
            before,
            new,
            insert_at-find_from b s.ptr bs sorted (ground (arith, new, before)) ptr,
          ))
      | inr behind ↦ rw behind (ground (arith, behind, new, find_from-below ptr s.ptr bs sorted))
    ]

IsSorted-weaken : (low high : ℕ) (bs : List Block) → low < high → IsSorted high bs → IsSorted low bs
IsSorted-weaken low high [] h sorted = tt
IsSorted-weaken low high (b ∷ bs) h (above, small, sorted) =
    (omega (arith, h, above), small, sorted)

pub unlink-IsSorted :
    (ptr low : ℕ) (bs : List Block) → IsSorted low bs → IsSorted low (unlink ptr bs)
unfolding unlink
unlink-IsSorted ptr low [] h = tt
unlink-IsSorted ptr low (b ∷ bs) (above, small, sorted) = elim (Bool-cases (ltb b.ptr ptr)) [
  | inl before ↦ rw before (above, small, unlink-IsSorted ptr b.ptr bs sorted)
  | inr here ↦ rw here (IsSorted-weaken low b.ptr bs above sorted)
]

pub unlink-find_from :
    (ptr low : ℕ) (b : Block) (bs : List Block)
    → IsSorted low bs
    → find_from ptr bs ≡ some b
    → (q : ℕ) → find_from q (unlink ptr bs) ≡ (if ptr == q then none else find_from q bs)
unfolding unlink find_from
unlink-find_from ptr low b [] h found q = cc
unlink-find_from ptr low b (c ∷ bs) (above, small, sorted) found q =
    elim (Bool-cases (ltb c.ptr ptr)) [
      | inl before ↦
          rw before
            (ground (arith, before, unlink-find_from ptr c.ptr b bs sorted (rw before at found) q))
      | inr here ↦ rw here (ground (arith, here, found, find_from-below q c.ptr bs sorted))
    ]
