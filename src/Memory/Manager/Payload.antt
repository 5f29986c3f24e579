-- ===== src/Memory/Manager/Payload.antt =====
-- The heap of lab-3-memory/src/memmgr.c while the program writes to the payload of a block.
use snu_2021_fall_sys_prog.Common.{
  ℕ, ◌+◌, ◌-◌, ◌≤◌, ◌<◌, ◌≡◌, ◌⊎◌, ◌∙◌, ap, inl, inr, List, [], ◌∷◌, arith,
}
use snu_2021_fall_sys_prog.Memory.Manager.{Manager, Words}
use snu_2021_fall_sys_prog.Memory.Manager.Layout.{
  Block, IsBlock-Agree, Layout, Layout-Agree, BlockAt, BlockAt-bounds, IsHeap,
}

-- The words that are not in the payload of the block of `n` bytes with its header at `q`.
abbrev pub Outside : (q n a : ℕ) → Type 0
Outside q n a = (a < q + 8) ⊎ (q + n ≤ a + 8)

Layout-Payload :
    (w w' : Words) (p end q : ℕ) (bs : List Block) (b : Block)
    → Layout w p bs end
    → BlockAt p bs q b
    → ((a : ℕ) → Outside q b.bytes a → w' a ≡ w a)
    → Layout w' p bs end
Layout-Payload w w' p end q [] b h at same = absurd at
Layout-Payload w w' p end q (x ∷ bs) b h (inl e) same =
    let bytes : x.bytes ≡ b.bytes = ap (λ (y : Block). y.bytes) e.1 in
    let tags = h.0 in
    (
      record {
        header = same p (inl (omega (arith, e.0))) ∙ tags.header;
        footer = same (p + x.bytes - 8) (inr (omega (arith, e.0, bytes, tags.least))) ∙ tags.footer;
        least = tags.least;
        aligned = tags.aligned;
        flagged = tags.flagged;
      },
      Layout-Agree w w' (p + x.bytes) bs end h.1
          (λ a lo hi. same a (inr (omega (arith, e.0, bytes)))),
    )
Layout-Payload w w' p end q (x ∷ bs) b h (inr at) same =
    let low = (BlockAt-bounds w (p + x.bytes) end q bs b h.1 at).0 in
    (
      IsBlock-Agree w w' p x h.0 (λ a lo hi. same a (inl (omega arith))),
      Layout-Payload w w' (p + x.bytes) end q bs b h.1 at same,
    )

-- A heap of blocks stays one, whatever is written to the payload of a block.
pub IsHeap-Payload :
    (m : Manager) (w : Words) (bs : List Block) (q : ℕ) (b : Block)
    → IsHeap m bs
    → BlockAt m.heap_start bs q b
    → ((a : ℕ) → Outside q b.bytes a → w a ≡ m.words a)
    → IsHeap (record m { words = w }) bs
IsHeap-Payload m w bs q b h at same =
    let (low, high, tags) = BlockAt-bounds m.words m.heap_start m.heap_end q bs b h.layout at in
    record {
      ready = h.ready;
      first = h.first;
      aligned = h.aligned;
      positive = h.positive;
      last = h.last;
      fits = h.fits;
      prologue = same (m.heap_start - 8) (inl (omega (arith, low))) ∙ h.prologue;
      epilogue = same m.heap_end (inr (omega (arith, high))) ∙ h.epilogue;
      layout = Layout-Payload m.words w m.heap_start m.heap_end q bs b h.layout at same;
    }
