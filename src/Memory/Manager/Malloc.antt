-- ===== src/Memory/Manager/Malloc.antt =====
-- mm_malloc of lab-3-memory/src/memmgr.c: the size adjustment, and allocation in a fitting block.
use snu_2021_fall_sys_prog.Common.{
  ℕ, ◌+◌, ◌%◌, ◌≤◌, ◌<◌, ◌≡◌, refl, inl, inr, true, some, List, [], ◌∷◌, arith, subst, sym,
}
use snu_2021_fall_sys_prog.Common.Run.{ok, Returns, ◌>>=◌, Returns-bind}
use snu_2021_fall_sys_prog.Memory.DataSegment.{u64}
use snu_2021_fall_sys_prog.Memory.Manager.{Manager, Words, Policy, free}
use snu_2021_fall_sys_prog.Memory.Manager.Layout.{Block, block, Layout, BlockAt, IsHeap}
use snu_2021_fall_sys_prog.Memory.Manager.Carving.{IsCarved, place-IsCarved}
use snu_2021_fall_sys_prog.Memory.Manager.Search.{
  fits, first_fit, first_fit-BlockAt, ff_get_free_block-first_fit,
}
use snu_2021_fall_sys_prog.Memory.Manager.Policies.{find_block}
use snu_2021_fall_sys_prog.Memory.Manager.Operations.{adjust, place, malloc_at, mm_malloc}

-- For a request of n bytes with n + 47 < 2 ^ 64 the block size is a multiple of 32, has room for
-- the request and the two tags, and is the least such multiple.
pub adjust_bounds :
    (n : ℕ) → n + 47 < u64 → (adjust n % 32 ≡ 0) × (n + 16 ≤ adjust n) × (adjust n < n + 48)
unfolding adjust
adjust_bounds n h = (omega arith, omega arith, omega arith)

-- A request of at least 2 ^ 64 - 15 bytes overflows in size_t, and gets a block of 32 bytes.
adjust_overflow : (n : ℕ) → u64 ≤ n + 15 → n < u64 → adjust n ≡ 32
unfolding adjust
adjust_overflow n h k = omega arith

-- A block that fits is free.
block_of_fit :
    (p q : ℕ) (bs : List Block) (wanted : ℕ) (b : Block)
    → BlockAt p bs q b
    → fits wanted b ≡ true
    → BlockAt p bs q (block b.bytes free) × (wanted ≤ b.bytes)
block_of_fit p q bs wanted b at fit =
    let flag : b.flag ≡ free = ground arith in
    let same : b ≡ block b.bytes free = ground arith in
    (subst (BlockAt p bs q) same at, ground arith)

-- Headers lie on 32-byte boundaries.
BlockAt-aligned :
    (w : Words) (p end q : ℕ) (bs : List Block) (b : Block)
    → Layout w p bs end
    → BlockAt p bs q b
    → p % 32 ≡ 0
    → q % 32 ≡ 0
BlockAt-aligned w p end q [] b l at a = absurd at
BlockAt-aligned w p end q (x ∷ bs) b l (inl e) a = omega (arith, e.0)
BlockAt-aligned w p end q (x ∷ bs) b l (inr at) a =
    BlockAt-aligned w (p + x.bytes) end q bs b l.1 at (omega (arith, l.0.aligned))

-- What mm_malloc gives for a request of `n` bytes that is served by the block at `q`: the pointer
-- behind its header, and the heap with the block carved.
pub record IsServed (m : Manager) (bs : List Block) (q n : ℕ) (r : ℕ × Manager) : Type 0 where
  pub room : ℕ
  pub at : BlockAt m.heap_start bs q (block room free)
  pub enough : n + 16 ≤ room
  pub result : r.0 ≡ q + 8
  pub aligned : r.0 % 32 ≡ 8
  pub carved : IsCarved m bs q (adjust n) room r.1

-- Whatever the policy: if the search for the adjusted size finds a block of the heap that fits,
-- and leaves the manager a heap of the same blocks, then mm_malloc of a positive request returns
-- without an error the pointer behind the block's header, 8 modulo 32, and carves the block.
pub mm_malloc-IsServed :
    (m m₁ : Manager) (bs : List Block) (q n : ℕ) (b : Block)
    → IsHeap m bs
    → 0 < n
    → n + 47 < u64
    → find_block m.get_free_block m (adjust n) ≡ ok (q + 8, m₁)
    → IsHeap m₁ bs
    → BlockAt m₁.heap_start bs q b
    → fits (adjust n) b ≡ true
    → Returns (IsServed m₁ bs q n) (mm_malloc n m)
unfolding mm_malloc malloc_at
mm_malloc-IsServed m m₁ bs q n b h pos small found h₁ at fit =
    subst (Returns (IsServed m₁ bs q n)) (sym run_place) (
      Returns-bind (IsServed m₁ bs q n) (place m₁ (q + 8) (adjust n)) (λ m₂. ok (q + 8, m₂))
        (place-IsCarved m₁ bs q (adjust n) b.bytes h₁ free_block.0 (omega (arith, size.0, size.1))
          size.0 free_block.1)
        (λ m₂ carved. record {
          room = b.bytes;
          at = free_block.0;
          enough = omega (arith, size.1, free_block.1);
          result = refl;
          aligned = omega (arith, on_boundary);
          carved = carved;
        }))
  where
    size : (adjust n % 32 ≡ 0) × (n + 16 ≤ adjust n) × (adjust n < n + 48)
    size = adjust_bounds n small

    free_block : BlockAt m₁.heap_start bs q (block b.bytes free) × (adjust n ≤ b.bytes)
    free_block = block_of_fit m₁.heap_start q bs (adjust n) b at fit

    on_boundary : q % 32 ≡ 0
    on_boundary = BlockAt-aligned m₁.words m₁.heap_start m₁.heap_end q bs b h₁.layout at h₁.aligned

    run_place : mm_malloc n m ≡ (place m₁ (q + 8) (adjust n) >>= λ m₂. ok (q + 8, m₂))
    run_place = ground (arith, h.ready, found)

-- With the first-fit policy on a heap of blocks `bs`, a positive request for which some free block
-- is large enough is served by the first such block in address order.
pub mm_malloc-first_fit :
    (m : Manager) (bs : List Block) (q n : ℕ)
    → IsHeap m bs
    → m.get_free_block ≡ Policy.first_fit
    → 0 < n
    → n + 47 < u64
    → first_fit (adjust n) m.heap_start bs ≡ some q
    → Returns (IsServed m bs q n) (mm_malloc n m)
unfolding find_block
mm_malloc-first_fit m bs q n h policy pos small first =
    let (b, at, fit) = first_fit-BlockAt (adjust n) m.heap_start q bs first in
    mm_malloc-IsServed m m bs q n b h pos small
      (ground (arith, policy, first, ff_get_free_block-first_fit m bs (adjust n) h)) h at fit
