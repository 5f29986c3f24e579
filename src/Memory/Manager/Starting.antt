-- ===== src/Memory/Manager/Starting.antt =====
-- mm_init and mm_check of lab-3-memory/src/memmgr.c.
use snu_2021_fall_sys_prog.Common.{
  ℕ, zero, suc, ◌+◌, ◌-◌, ◌%◌, ◌*◌, ◌/◌, ◌≤◌, ◌<◌, ◌≡◌, ◌≢◌, refl, true, List, [], ◌∷◌, arith,
  subst, sym, ap,
}
use snu_2021_fall_sys_prog.Common.Run.{ok, Returns}
use snu_2021_fall_sys_prog.Memory.DataSegment.{DataSegment, ds_getpagesize, u64}
use snu_2021_fall_sys_prog.Memory.DataSegment.Sbrk.{
  IsSegment, Grants, moved_to, ds_sbrk-moved_to, ds_sbrk-zero,
}
use snu_2021_fall_sys_prog.Memory.Manager.{Manager, Words, Policy, free, pack, prev_ptr, update}
use snu_2021_fall_sys_prog.Memory.Manager.Layout.{
  Block, block, IsHeap, Layout-le, get_lem, put_lem, size_tag, status_tag,
}
use snu_2021_fall_sys_prog.Memory.Manager.Search.{IsTail, IsTail-rest, IsHeap-IsTail, header_inside}
use snu_2021_fall_sys_prog.Memory.Manager.Operations.{
  mm_init, grow, set_up_heap, end_below, mm_check, check_loop,
}

-- A data segment that mm_init accepts: nothing allocated yet, aligned to 32 bytes, with room for
-- more than CHUNKSIZE bytes, and memory protection on.
pub record IsClean (d : DataSegment) : Type 0 where
  pub segment : IsSegment d
  pub granted : Grants d
  pub protected : d.do_mprotect ≡ true
  pub empty : d.heap_brk ≡ d.heap_start
  pub aligned : d.heap_start % 32 ≡ 0
  pub room : d.heap_start + 4096 < d.heap_end

-- At a well-formed heap mm_check finds no error and says that the block structure is coherent.
check_loop-Layout :
    (fuel : ℕ) (m : Manager) (p : ℕ) (bs : List Block)
    → IsTail m p bs
    → m.heap_end < fuel + p
    → check_loop fuel m p 0 ≡ ok (m.heap_end, 0)
unfolding check_loop
check_loop-Layout zero m p bs t f =
    absurd (omega (arith, Layout-le m.words p bs m.heap_end t.layout))
check_loop-Layout (suc fuel) m p [] t f = ground (arith, t.layout)
check_loop-Layout (suc fuel) m p (b ∷ bs) t f =
    let i = header_inside m p b bs t in
    let is = t.layout.0 in
    ground (
      arith,
      i,
      is.least,
      is.header,
      is.footer,
      get_lem m p t.low (omega (arith, i, t.high)),
      get_lem m (p + b.bytes - 8) (omega (arith, t.low, is.least)) (
          omega
            (arith, t.high, is.least, Layout-le m.words (p + b.bytes) bs m.heap_end t.layout.1)),
      size_tag b.bytes b.flag is.aligned is.flagged,
      status_tag b.bytes b.flag is.aligned is.flagged,
      check_loop-Layout fuel m (p + b.bytes) bs (IsTail-rest m p b bs t),
    )

-- On every well-formed heap mm_check ends, reads only accessible words, and reports a coherent
-- block structure.
pub mm_check-coherent : (m : Manager) (bs : List Block) → IsHeap m bs → mm_check m ≡ ok true
unfolding mm_check prev_ptr
mm_check-coherent m bs h = ground (
  arith,
  h.ready,
  get_lem m (m.heap_start - 8) (omega (arith, h.first))
      (omega (arith, h.first, h.last, Layout-le m.words m.heap_start bs m.heap_end h.layout)),
  get_lem m m.heap_end
      (omega (arith, h.first, Layout-le m.words m.heap_start bs m.heap_end h.layout))
      (omega (arith, h.last)),
  check_loop-Layout (m.heap_end + 1) m m.heap_start bs (IsHeap-IsTail m bs h),
)

-- The two calls of ds_sbrk when the brk can move to `target`.
pub grow_lem :
    (xsize target : ℕ) (m : Manager)
    → IsSegment m.ds
    → Grants m.ds
    → m.ds.do_mprotect ≡ true
    → xsize ≢ 0
    → (m.ds.heap_brk + xsize) % u64 ≡ target
    → m.ds.heap_start ≤ target
    → target < m.ds.heap_end
    → grow xsize m
      ≡ ok (m.ds.heap_brk, record m { ds = moved_to m.ds target; ds_heap_brk = target })
unfolding grow
grow_lem xsize target m s g on ne e low high = ground (
  arith,
  s.fits,
  s.high,
  ds_sbrk-moved_to xsize target m.ds s g on ne e low high,
  ds_sbrk-zero (moved_to m.ds target) s.ready,
)

-- The words that set_up_heap writes.
abbrev initial : Manager → Words
initial m =
    let n = m.heap_end - m.heap_start in
    update (update (update (update m.words (m.heap_start - 8) 1) m.heap_end 1) m.heap_start n)
      (m.heap_end - 8) n

set_up_heap_lem :
    (m : Manager)
    → m.ds.heap_start + 32 ≡ m.heap_start
    → m.heap_start + 32 ≤ m.heap_end
    → m.heap_end + 8 ≤ m.ds.rw_end
    → set_up_heap m ≡ ok (record m { words = initial m })
unfolding set_up_heap prev_ptr pack
set_up_heap_lem m first room last =
    let n : ℕ = m.heap_end - m.heap_start in
    let m₁ : Manager = record m { words = update m.words (m.heap_start - 8) 1 } in
    let m₂ : Manager = record m { words = update m₁.words m.heap_end 1 } in
    let m₃ : Manager = record m { words = update m₂.words m.heap_start n } in
    rw (put_lem m (m.heap_start - 8) 1 (omega arith) (omega arith)) (
      rw (put_lem m₁ m.heap_end 1 (omega arith) (omega arith)) (
        rw (put_lem m₂ m.heap_start n (omega arith) (omega arith))
          (put_lem m₃ (m.heap_end - 8) n (omega arith) (omega arith))))

-- mm_init on a clean data segment returns without an error, for every policy. The heap then
-- consists of one free block of 4032 bytes between the two sentinels, 32 bytes above the start of
-- the data segment, and the policy is the one asked for.
pub mm_init-IsHeap :
    (ap : Policy) (m : Manager)
    → IsClean m.ds
    → Returns
        (λ m'.
          IsHeap m' (block 4032 free ∷ [])
          × (m'.get_free_block ≡ ap)
          × (m'.heap_end ≡ m'.heap_start + 4032)
          × (m'.ds.heap_brk ≡ m.ds.heap_start + 4096))
        (mm_init ap m)
unfolding mm_init ds_getpagesize update
mm_init-IsHeap ap m c = subst (Returns Started) (sym run) started
  where
    segment : IsSegment m.ds
    segment = c.segment

    start : ℕ
    start = m.ds.heap_start

    m₀ : Manager
    m₀ = record m {
      get_free_block = ap;
      ds_heap_start = start;
      ds_heap_brk = start;
      page_size = m.ds.page_size;
    }

    m₁ : Manager
    m₁ = record m₀ {
      ds = moved_to m.ds (start + 4096);
      ds_heap_brk = start + 4096;
      heap_start = start + 32;
      heap_end = start + 4064;
    }

    m₂ : Manager
    m₂ = record m₁ { words = initial m₁; mm_initialized = true }

    Started : Manager → Type 0
    Started m' =
        IsHeap m' (block 4032 free ∷ [])
        × (m'.get_free_block ≡ ap)
        × (m'.heap_end ≡ m'.heap_start + 4032)
        × (m'.ds.heap_brk ≡ start + 4096)

    grows :
        grow 4096 m₀
        ≡ ok (
          m.ds.heap_brk,
          record m₀ { ds = moved_to m.ds (start + 4096); ds_heap_brk = start + 4096 },
        )
    grows =
        grow_lem 4096 (start + 4096) m₀ segment c.granted c.protected (omega arith)
          (omega (arith, c.empty, c.room, segment.high, segment.fits)) (omega arith) c.room

    low_end : (start + 32) / 32 * 32 ≡ start + 32
    low_end = omega (arith, c.aligned)

    high_end : end_below (start + 4096) ≡ start + 4064
    high_end = unfold end_below in omega (arith, c.aligned)

    run : mm_init ap m ≡ ok m₂
    run = ground (
      arith,
      segment.ready,
      segment.paged,
      segment.low,
      c.empty,
      grows,
      low_end,
      high_end,
      set_up_heap_lem m₁ refl (omega arith) (omega arith),
    )

    started : Started m₂
    started = (
      record {
        ready = refl;
        first = refl;
        aligned = omega (arith, c.aligned);
        positive = omega (arith, segment.low, segment.paged);
        last = omega arith;
        fits = omega (arith, c.room, segment.high, segment.fits);
        prologue = ground arith;
        epilogue = ground arith;
        layout = (
          record {
            header = ground arith;
            footer = ground arith;
            least = omega arith;
            aligned = refl;
            flagged = omega arith;
          },
          omega arith,
        );
      },
      refl,
      omega arith,
      refl,
    )
