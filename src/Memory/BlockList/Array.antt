-- ===== src/Memory/BlockList/Array.antt =====
-- lab-3-memory/src/blocklist.c: the loops over the whole list.
use snu_2021_fall_sys_prog.Common.{
  ℕ, ◌+◌, ◌≡◌, refl, ap, true, some, List, [], ◌∷◌, arith, length, lt→ltb, eq→==,
}
use snu_2021_fall_sys_prog.Common.Run.{ok}
use snu_2021_fall_sys_prog.Memory.BlockList.{
  Block, blocks, count_from, num_blocks, fill_array, array_of, get_block_array,
}

count_from-length : (res : ℕ) (bs : List Block) → count_from res bs ≡ res + length bs
unfolding count_from
count_from-length res [] = omega arith
count_from-length res (b ∷ bs) = omega (arith, count_from-length (res + 1) bs)

fill_array-all :
    (nblocks idx : ℕ) (bs : List Block)
    → idx + length bs ≡ nblocks
    → fill_array nblocks idx bs ≡ (nblocks, bs)
unfolding fill_array
fill_array-all nblocks idx [] h = ap (λ n. (n, [])) (omega (arith, h))
fill_array-all nblocks idx (b ∷ bs) h =
    rw
      (
        lt→ltb idx nblocks (omega (arith, h)),
        fill_array-all nblocks (idx + 1) bs (omega (arith, h)),
      )
      refl

count_from-start : (bs : List Block) → count_from 0 bs ≡ length bs
count_from-start bs = omega (arith, count_from-length 0 bs)

-- num_blocks counts the blocks of the list, and with memory get_block_array passes its assertion and holds every block in the
-- order of the list.
get_block_array-num_blocks :
    (bs : List Block)
    → (num_blocks (some bs) ≡ ok (length bs)) × (get_block_array true (some bs) ≡ ok (some bs))
unfolding num_blocks get_block_array blocks array_of
get_block_array-num_blocks bs =
    rw
      (
        count_from-start bs,
        fill_array-all (length bs) 0 bs (omega arith),
        eq→== (length bs) (length bs) refl,
      )
      (refl, refl)
