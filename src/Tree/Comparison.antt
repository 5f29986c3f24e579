-- ===== src/Tree/Comparison.antt =====
-- lab-2-io/dirtree.c: dirent_compare as an order on the entries of a directory.
use snu_2021_fall_sys_prog.Common.{
  ℕ, ◌≡◌, ◌≢◌, refl, inl, inr, Bool, true, false, List, [], ◌∷◌, arith, ◌==◌, ==→eq, Bool-cases,
}
use snu_2021_fall_sys_prog.Tree.{
  Kind, Sign, less, equal, greater, strcmp, dirent_compare, is_greater,
}

-- Whether the entry of kind `k` and name `s` comes after the entry of kind `l` and name `t`.
abbrev pub is_after : (k : Kind) (s : List ℕ) (l : Kind) (t : List ℕ) → Bool
is_after k s l t = is_greater (dirent_compare k s l t)

abbrev opposite : Sign → Sign
opposite less = greater
opposite equal = equal
opposite greater = less

strcmp-opposite : (s t : List ℕ) → strcmp t s ≡ opposite (strcmp s t)
unfolding strcmp
strcmp-opposite [] [] = refl
strcmp-opposite [] (d ∷ ds) = refl
strcmp-opposite (c ∷ cs) [] = refl
strcmp-opposite (c ∷ cs) (d ∷ ds) = let rest = strcmp-opposite cs ds in ground (arith, rest)

strcmp-equal : (s t : List ℕ) → strcmp s t ≡ equal → s ≡ t
unfolding strcmp
strcmp-equal [] [] e = refl
strcmp-equal [] (d ∷ ds) e = cc (e)
strcmp-equal (c ∷ cs) [] e = cc (e)
strcmp-equal (c ∷ cs) (d ∷ ds) e = elim (Bool-cases (c == d)) [
  | inl h ↦
      let rest : strcmp cs ds ≡ equal = ground (arith, h) in
      let tail = strcmp-equal cs ds rest in let head = ==→eq c d h in cc
  | inr h ↦ ground (arith, h)
]

strcmp-after :
    (s t u : List ℕ)
    → is_greater (strcmp s u) ≡ false
    → is_greater (strcmp t u) ≡ true
    → is_greater (strcmp t s) ≡ true
unfolding strcmp
strcmp-after s [] [] h k = cc (k)
strcmp-after s [] (e ∷ es) h k = cc (k)
strcmp-after [] (d ∷ ds) u h k = refl
strcmp-after (c ∷ cs) (d ∷ ds) [] h k = cc (h)
strcmp-after (c ∷ cs) (d ∷ ds) (e ∷ es) h k = elim (Bool-cases (c == e)) [
  | inl ce ↦ elim (Bool-cases (d == e)) [
    | inl de ↦
        let rest = strcmp-after cs ds es (ground (arith, ce)) (ground (arith, de)) in
        ground (arith, rest)
    | inr de ↦ ground arith
  ]
  | inr ce ↦ ground arith
]

pub is_after-asymmetric :
    (k l : Kind) (s t : List ℕ) → is_after k s l t ≡ true → is_after l t k s ≡ false
unfolding dirent_compare
is_after-asymmetric k l s t h = let flip = strcmp-opposite s t in ground (arith, flip)

pub is_after-total :
    (k l : Kind) (s t : List ℕ) → s ≢ t → is_after k s l t ≡ false → is_after l t k s ≡ true
unfolding dirent_compare
is_after-total k l s t d h =
    let flip = strcmp-opposite s t in
    let differ : strcmp s t ≢ equal = λ e. d (strcmp-equal s t e) in ground (arith, flip, differ)

pub is_after-before :
    (k l j : Kind) (s t u : List ℕ)
    → is_after k s j u ≡ false
    → is_after l t j u ≡ true
    → is_after l t k s ≡ true
unfolding dirent_compare
is_after-before k l j s t u h i = elim (Bool-cases (is_greater (strcmp s u))) [
  | inl a ↦ ground (arith, a)
  | inr a ↦ elim (Bool-cases (is_greater (strcmp t u))) [
    | inl b ↦ let rest = strcmp-after s t u a b in ground (arith, a, b, rest)
    | inr b ↦ ground (arith, a, b)
  ]
]
