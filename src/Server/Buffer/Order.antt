-- ===== src/Server/Buffer/Order.antt =====
-- The buffer of lab-5-network/mcdonalds.c is a queue as long as it does not overflow.
use snu_2021_fall_sys_prog.Common.{
  ℕ, ◌+◌, ◌/◌, ◌%◌, ◌^◌, lt→ltb, ◌≤◌, ◌<◌, ◌≡◌, ◌≢◌, refl, ap, List, [], ◌∷◌, ◌++◌, arith, ◌==◌,
  if◌then◌else◌, length, length-append, eq→==, ne→==,
}
use snu_2021_fall_sys_prog.Common.Run.{Returns, Returns-mono}
use native.Mathlib.Nat.{div-add-mod, mul-le-mul_left}
use native.Mathlib.Decide.{dec_lt}
use snu_2021_fall_sys_prog.Server.Buffer.{Buffer, sbuf_insert, sbuf_remove}

-- The items stand behind `front`, one after the other round the array.
abbrev pub Stored : (buf : ℕ → ℕ) (n front : ℕ) → List ℕ → Type 0
Stored buf n front [] = Unit
Stored buf n front (x ∷ xs) = (buf ((front + 1) % n) ≡ x) × Stored buf n (front + 1) xs

-- The buffer holds `xs`, the oldest first.
pub record IsFifo (b : Buffer) (xs : List ℕ) : Type 0 where
  pub sized : 0 < b.n
  pub fits : length xs ≤ b.n
  pub counted : b.rear ≡ b.front + length xs
  pub stored : Stored b.buf b.n b.front xs

not_below : (a b : ℕ) → ¬ (a < b) → b ≤ a
not_below a b h = omega (arith, h)

-- Two positions less than a round apart are different places.
mod-ne : (n a b : ℕ) → 0 < n → a < b → b < a + n → a % n ≢ b % n
mod-ne n a b size less near e = elim (dec_lt (a / n) (b / n)) [
  | yes up ↦ omega (arith, div-add-mod a n, div-add-mod b n, e, less, near, mul-le-mul_left n up)
  | no down ↦ omega (
    arith,
    div-add-mod a n,
    div-add-mod b n,
    e,
    less,
    near,
    mul-le-mul_left n (not_below (a / n) (b / n) down),
  )
]

-- A write behind the last item keeps the items.
Stored-insert :
    (buf : ℕ → ℕ) (n front : ℕ) (xs : List ℕ) (rear item : ℕ)
    → 0 < n
    → rear ≡ front + length xs
    → length xs < n
    → Stored buf n front xs
    → Stored (λ i. if i == (rear + 1) % n then item else buf i) n front (xs ++ item ∷ [])
Stored-insert buf n front [] rear item size count room s =
    (rw (ap (λ k. (k + 1) % n) count', eq→== ((front + 1) % n) ((front + 1) % n) refl) refl, tt)
  where
    count' : rear ≡ front
    count' = omega (arith, count)
Stored-insert buf n front (x ∷ xs) rear item size count room (kept, s) = (
  rw
      (ne→== ((front + 1) % n) ((rear + 1) % n)
        (mod-ne n (front + 1) (rear + 1) size (omega (arith, count)) (omega (arith, count, room))))
      kept,
  Stored-insert buf n (front + 1) xs rear item size (omega (arith, count)) (omega (arith, room)) s,
)

insert_lem :
    (b : Buffer) (xs : List ℕ) (item : ℕ)
    → IsFifo b xs
    → length xs < b.n
    → b.rear + 1 < 2 ^ 31
    → Returns (λ b'. (b'.front ≡ b.front) × IsFifo b' (xs ++ item ∷ [])) (sbuf_insert item b)
unfolding sbuf_insert
insert_lem b xs item f room small = rw (lt→ltb (b.rear + 1) (2 ^ 31) small) (
  refl,
  record {
    sized = f.sized;
    fits = omega (arith, room, length-append xs (item ∷ []));
    counted = omega (arith, f.counted, length-append xs (item ∷ []));
    stored = Stored-insert b.buf b.n b.front xs b.rear item f.sized f.counted room f.stored;
  },
)

-- What sbuf_remove returns, and that it leaves the items `xs`.
abbrev pub Removed : List ℕ → ℕ × Buffer → Type 0
Removed [] r = ⊥
Removed (x ∷ xs) r = (r.0 ≡ x) × IsFifo r.1 xs

remove_lem :
    (b : Buffer) (x : ℕ) (xs : List ℕ)
    → IsFifo b (x ∷ xs)
    → b.front + 1 < 2 ^ 31
    → Returns (Removed (x ∷ xs)) (sbuf_remove b)
unfolding sbuf_remove
remove_lem b x xs f small = rw (lt→ltb (b.front + 1) (2 ^ 31) small) (
  f.stored.0,
  record {
    sized = f.sized;
    fits = omega (arith, f.fits);
    counted = omega (arith, f.counted);
    stored = f.stored.1;
  },
)

append-Removed :
    (b : Buffer) (xs : List ℕ) (item : ℕ)
    → IsFifo b (xs ++ item ∷ [])
    → b.front + 1 < 2 ^ 31
    → Returns (Removed (xs ++ item ∷ [])) (sbuf_remove b)
append-Removed b [] item f small = remove_lem b item [] f small
append-Removed b (x ∷ xs) item f small = remove_lem b x (xs ++ item ∷ []) f small

-- Inserting an item into a buffer of the items `xs` that is not full, before 2^31 - 1 insertions,
-- puts it behind them. Removing then returns the oldest item, and leaves the others in their order.
pub sbuf_insert-sbuf_remove :
    (b : Buffer) (xs : List ℕ) (item : ℕ)
    → IsFifo b xs
    → length xs < b.n
    → b.rear + 1 < 2 ^ 31
    → Returns
        (λ b'. IsFifo b' (xs ++ item ∷ []) × Returns (Removed (xs ++ item ∷ [])) (sbuf_remove b'))
        (sbuf_insert item b)
sbuf_insert-sbuf_remove b xs item f room small =
    Returns-mono (λ b'. (b'.front ≡ b.front) × IsFifo b' (xs ++ item ∷ [])) _ (sbuf_insert item b)
      (insert_lem b xs item f room small)
      (λ b' (same, inserted).
        (inserted, append-Removed b' xs item inserted (omega (arith, same, f.counted, small))))
