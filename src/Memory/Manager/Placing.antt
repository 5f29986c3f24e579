-- ===== src/Memory/Manager/Placing.antt =====
-- `place` of the model, the allocation inside a fitting block in mm_malloc of
-- lab-3-memory/src/memmgr.c, on the list of blocks.
use snu_2021_fall_sys_prog.Common.{
  ℕ, ◌+◌, ◌-◌, ◌%◌, ◌≤◌, ◌<◌, ◌≡◌, ◌≢◌, ◌∙◌, List, [], ◌∷◌, arith, ltb, if◌then◌else◌,
}
use snu_2021_fall_sys_prog.Common.Run.{ok}
use snu_2021_fall_sys_prog.Memory.Manager.{
  Manager, Words, update, get_size, ftrp, hdrp, prev_ptr, pack, alloc, free,
}
use snu_2021_fall_sys_prog.Memory.Manager.Layout.{
  Block, block, get_lem, put_lem, size_tag, pack-free, pack-alloc,
}
use snu_2021_fall_sys_prog.Memory.Manager.Operations.{put_tags, place}

-- The tags of a block of `n` bytes and status `s` with its header at `q`.
abbrev pub tag : Words → (q n s : ℕ) → Words
tag w q n s = update (update w q (n + s)) (q + n - 8) (n + s)

-- An address at which a block of `n` bytes has its tags inside the accessible area.
pub record IsInside (m : Manager) (q n : ℕ) : Type 0 where
  pub low : m.ds.heap_start ≤ q
  pub high : q + n ≤ m.ds.rw_end
  pub least : 32 ≤ n
  pub aligned : n % 32 ≡ 0

pub get_size_lem :
    (m : Manager) (q n s : ℕ) → IsInside m q n → s < 2 → m.words q ≡ n + s → get_size m q ≡ ok n
unfolding get_size
get_size_lem m q n s i k e =
    rw (get_lem m q i.low (omega (arith, i.least, i.high)), e, size_tag n s i.aligned k)

update_self : (w : Words) (p v : ℕ) → update w p v p ≡ v
unfolding update
update_self w p v = ground arith

pub update_ne : (w : Words) (p v a : ℕ) → a ≢ p → update w p v a ≡ w a
unfolding update
update_ne w p v a h = ground arith

-- put_tags at the block pointer of the header at `q`.
pub put_tags_lem :
    (m : Manager) (q n s : ℕ)
    → IsInside m q n
    → s < 2
    → pack n s ≡ n + s
    → put_tags m (q + 8) n s ≡ ok (record m { words = tag m.words q n s })
unfolding put_tags ftrp hdrp prev_ptr
put_tags_lem m q n s i k e =
    let m₁ : Manager = record m { words = update m.words q (n + s) } in
    let i₁ : IsInside m₁ q n = record {
      low = i.low;
      high = i.high;
      least = i.least;
      aligned = i.aligned;
    } in
    let back : q + 8 - 8 ≡ q = omega arith in
    rw (back, e, put_lem m q (n + s) i.low (omega (arith, i.least, i.high)))
      (rw (get_size_lem m₁ q n s i₁ k (update_self m.words q (n + s))) (
        put_lem m₁ (q + n - 8) (n + s) (omega (arith, i.low, i.least))
          (omega (arith, i.high, i.least))))

-- The words after the rest of the block has been tagged.
abbrev pub tag_rest : Words → (q asize n : ℕ) → Words
tag_rest w q asize n =
    update (update w (q + asize) (n - asize + free)) (q + n - 8) (n - asize + free)

-- The words after `place`.
abbrev pub placed : Words → (q asize n : ℕ) → Words
placed w q asize n = tag (if ltb asize n then tag_rest w q asize n else w) q asize alloc

-- The blocks that it leaves.
abbrev pub carve : (asize n : ℕ) → List Block
carve asize n =
    if ltb asize n then block asize alloc ∷ block (n - asize) free ∷ [] else block asize alloc ∷ []

module _ (m : Manager) (q asize n : ℕ) (i : IsInside m q n) (e : m.words q ≡ n + free)
    (small : IsInside m q asize) where
  pub place_split :
      asize < n → place m (q + 8) asize ≡ ok (record m { words = placed m.words q asize n })
  unfolding place hdrp prev_ptr ftrp
  place_split lt =
      let k₀ : ℕ = n - asize + free in
      let m₁ : Manager = record m { words = update m.words (q + asize) (n - asize + free) } in
      let i₁ : IsInside m₁ q n = record {
        low = i.low;
        high = i.high;
        least = i.least;
        aligned = i.aligned;
      } in
      let m₂ : Manager = record m { words = tag_rest m.words q asize n } in
      let s₂ : IsInside m₂ q asize = record {
        low = small.low;
        high = small.high;
        least = small.least;
        aligned = small.aligned;
      } in
      let same : m₁.words q ≡ n + free =
        update_ne m.words (q + asize) (n - asize + free) q (omega (arith, small.least)) ∙ e in
      ground (
        arith,
        i.low,
        i.high,
        i.least,
        small.least,
        get_size_lem m q n free i (omega arith) e,
        get_size_lem m₁ q n free i₁ (omega arith) same,
        pack-free (n - asize),
        pack-alloc asize small.aligned,
        put_lem m (q + asize) (n - asize + free) (omega (arith, small.low))
            (omega (arith, i.high, i.aligned, small.aligned)),
        put_lem m₁ (q + n - 8) (n - asize + free) (omega (arith, small.low, i.least))
            (omega (arith, i.high, i.least)),
        put_tags_lem m₂ q asize alloc s₂ (omega arith) (pack-alloc asize small.aligned),
      )

  pub place_whole :
      asize ≡ n → place m (q + 8) asize ≡ ok (record m { words = placed m.words q asize n })
  unfolding place hdrp prev_ptr
  place_whole eq = ground (
    arith,
    get_size_lem m q n free i (omega arith) e,
    put_tags_lem m q asize alloc small (omega arith) (pack-alloc asize small.aligned),
  )
