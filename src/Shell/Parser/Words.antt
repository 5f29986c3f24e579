-- ===== src/Shell/Parser/Words.antt =====
-- lab-4-shell/csapsh.c: what the rounds of parseline make of the text of a word or symbol.
use snu_2021_fall_sys_prog.Common.{
  ℕ, zero, suc, ◌≤◌, ◌<◌, ◌≡◌, ◌≢◌, ◌∙◌, ◌⊎◌, inl, inr, refl, ap, true, false, [], ◌∷◌, ◌++◌, All,
  newline, arith, ◌==◌, ◌||◌, length, length-append, ne→==, eq→==, append_assoc, lt→leb,
}
use snu_2021_fall_sys_prog.Common.Run.{ok}
use snu_2021_fall_sys_prog.Shell.Jobs.{background}
use snu_2021_fall_sys_prog.Shell.Parser.{
  Text, Parser, no_quote, isdelim, skip_whitespace, scan_argument, store_argument, close_quote,
  open_quote, read_argument, round, continue, at_newline, parse_loop,
}
use snu_2021_fall_sys_prog.Shell.Parser.Grammar.{
  Word, bare, quoted, word_text, meaning, IsWord, IsPlain,
}

-- The rest of a text behind a word: a blank or the newline, and more.
abbrev pub Follows : Text → Type 0
Follows [] = ⊥
Follows (c ∷ cs) = (c ≡ b' ') ⊎ (c ≡ newline)

-- From `t` the loop comes to `rest`, with fuel for each.
abbrev pub Leads : Text → Parser → Text → Parser → Type 0
Leads t p rest p' =
    (fuel : ℕ)
    → length t < fuel
    → (f : ℕ) × (length rest < f) × (parse_loop fuel t p ≡ parse_loop f rest p')

scan_argument-bare :
    (t : Text) (c : ℕ) (cs : Text)
    → All IsPlain t
    → Follows (c ∷ cs)
    → scan_argument no_quote (t ++ c ∷ cs) ≡ ok (t, c ∷ cs)
unfolding scan_argument isdelim
scan_argument-bare [] c cs plain follows = elim follows [
  | inl blank ↦ rw blank refl
  | inr end ↦ rw end refl
]
scan_argument-bare (d ∷ ds) c cs plain follows =
    rw (ne→== d newline plain.0.0, plain.0.1, scan_argument-bare ds c cs plain.1 follows) refl

quote_ends : (quote : ℕ) → (quote == newline || isdelim quote quote) ≡ true
unfolding isdelim
quote_ends quote = ground arith

quote_goes_on :
    (c quote : ℕ)
    → quote ≢ no_quote
    → c ≢ newline
    → c ≢ quote
    → (c == newline || isdelim c quote) ≡ false
unfolding isdelim
quote_goes_on c quote other inside apart = ground arith

scan_argument-quoted :
    (quote : ℕ) (t rest : Text)
    → quote ≢ no_quote
    → All (λ c. (c ≢ newline) × (c ≢ quote)) t
    → scan_argument quote (t ++ quote ∷ rest) ≡ ok (t, quote ∷ rest)
unfolding scan_argument
scan_argument-quoted quote [] rest other plain = rw (quote_ends quote) refl
scan_argument-quoted quote (d ∷ ds) rest other plain =
    rw
      (
        quote_goes_on d quote other plain.0.0 plain.0.1,
        scan_argument-quoted quote ds rest other plain.1,
      )
      refl

-- The first character of a word starts neither a symbol nor the end of the line.
round-read_argument :
    (c : ℕ) (cs : Text) (p : Parser)
    → c ≢ b'|'
    → c ≢ b'>'
    → c ≢ b'&'
    → c ≢ newline
    → round (c ∷ cs) p ≡ read_argument (c ∷ cs) p
unfolding round
round-read_argument c cs p pipe redirect ampersand end =
    rw (ne→== c b'|' pipe, ne→== c b'>' redirect, ne→== c b'&' ampersand, ne→== c newline end) refl

isdelim-dark : (c : ℕ) → isdelim c no_quote ≡ false → (c ≢ b'|') × (c ≢ b'>') × (c ≢ b' ') × (c ≢ 9)
unfolding isdelim
isdelim-dark c inside = (ground arith, ground arith, ground arith, ground arith)

round-bare :
    (t r : Text) (p : Parser)
    → IsWord (bare t)
    → Follows r
    → p.mode < 3
    → round (t ++ r) p ≡ ok (continue r (store_argument t p))
unfolding read_argument open_quote close_quote
round-bare [] r p word follows low = absurd word.0
round-bare (c ∷ cs) [] p word follows low = absurd follows
round-bare (c ∷ cs) (d ∷ ds) p (begins, plain) follows low =
    let dark = isdelim-dark c plain.0.1 in
    round-read_argument c (cs ++ d ∷ ds) p dark.0 dark.1 begins.2 plain.0.0
    ∙ rw
        (
          lt→leb 3 p.mode low,
          ne→== c b'\'' begins.0,
          ne→== c b'"' begins.1,
          scan_argument-bare (c ∷ cs) d ds plain follows,
        )
        refl

quote_opens :
    (quote : ℕ)
    → (quote ≡ b'\'') ⊎ (quote ≡ b'"')
    → (quote ≢ b'|')
      × (quote ≢ b'>')
      × (quote ≢ b'&')
      × (quote ≢ newline)
      × (quote ≢ no_quote)
      × ((quote == b'\'' || quote == b'"') ≡ true)
quote_opens quote h =
    (ground arith, ground arith, ground arith, ground arith, ground arith, ground arith)

round-quoted :
    (quote : ℕ) (t r : Text) (p : Parser)
    → IsWord (quoted quote t)
    → p.mode < 3
    → round (quote ∷ (t ++ quote ∷ r)) p ≡ ok (continue r (store_argument t p))
unfolding read_argument open_quote close_quote
round-quoted quote t r p (is_quote, plain) low =
    let q = quote_opens quote is_quote in
    round-read_argument quote (t ++ quote ∷ r) p q.0 q.1 q.2 q.3
    ∙ rw
        (
          lt→leb 3 p.mode low,
          q.5,
          scan_argument-quoted quote t r q.4 plain,
          ne→== quote no_quote q.4,
          eq→== quote quote refl,
        )
        refl

-- A round at a word.
pub round-word_text :
    (w : Word) (r : Text) (p : Parser)
    → IsWord w
    → Follows r
    → p.mode < 3
    → round (word_text w ++ r) p ≡ ok (continue r (store_argument (meaning w) p))
round-word_text (bare t) r p word follows low = round-bare t r p word follows low
round-word_text (quoted quote t) r p word follows low =
    ap (λ s. round (quote ∷ s) p) (append_assoc t (quote ∷ []) r)
    ∙ round-quoted quote t r p word low

-- A blank before a character that is not white: the loop takes a round.
Leads-step :
    (c : ℕ) (cs rest : Text) (p p' : Parser)
    → c ≢ b' '
    → c ≢ 9
    → length rest ≤ length (c ∷ cs)
    → round (c ∷ cs) p ≡ ok (continue rest p')
    → Leads (b' ' ∷ c ∷ cs) p rest p'
unfolding parse_loop at_newline skip_whitespace
Leads-step c cs rest p p' space tab shorter run zero enough = absurd (omega (arith, enough))
Leads-step c cs rest p p' space tab shorter run (suc fuel) enough =
    (fuel, omega (arith, shorter, enough), rw (ne→== c b' ' space, ne→== c 9 tab, run) refl)

Leads-bare :
    (t r : Text) (p : Parser)
    → IsWord (bare t)
    → Follows r
    → p.mode < 3
    → Leads (b' ' ∷ (t ++ r)) p r (store_argument t p)
Leads-bare [] r p word follows low = absurd word.0
Leads-bare (c ∷ cs) r p word follows low =
    let dark = isdelim-dark c word.1.0.1 in
    Leads-step c (cs ++ r) r p (store_argument (c ∷ cs) p) dark.2 dark.3
      (omega (arith, length-append cs r)) (round-word_text (bare (c ∷ cs)) r p word follows low)

-- The loop reads a word and stores it.
pub Leads-word_text :
    (w : Word) (r : Text) (p : Parser)
    → IsWord w
    → Follows r
    → p.mode < 3
    → Leads (b' ' ∷ (word_text w ++ r)) p r (store_argument (meaning w) p)
Leads-word_text (bare t) r p word follows low = Leads-bare t r p word follows low
Leads-word_text (quoted quote t) r p word follows low =
    Leads-step quote ((t ++ quote ∷ []) ++ r) r p (store_argument t p)
      (λ e. quote_is_dark quote word.0 (inl e)) (λ e. quote_is_dark quote word.0 (inr e))
      (omega (arith, length-append (t ++ quote ∷ []) r))
      (round-word_text (quoted quote t) r p word follows low)
  where
    quote_is_dark :
        (quote : ℕ) → (quote ≡ b'\'') ⊎ (quote ≡ b'"') → (quote ≡ b' ') ⊎ (quote ≡ 9) → ⊥
    quote_is_dark quote h k = ground arith

pub Leads-trans : (t u v : Text) (p q r : Parser) → Leads t p u q → Leads u q v r → Leads t p v r
Leads-trans t u v p q r first second fuel enough =
    let (f, more, e) = first fuel enough in let (g, left, d) = second f more in (g, left, e ∙ d)

pub Leads-pipe :
    (r : Text) (p : Parser)
    → p.mode ≡ 1
    → Leads
        (b' ' ∷ b'|' ∷ r)
        p
        r
        (record p { mode = 0; finished = p.finished ++ p.arguments ∷ []; arguments = [] })
unfolding round
Leads-pipe r p named =
    Leads-step b'|' r r p
      (record p { mode = 0; finished = p.finished ++ p.arguments ∷ []; arguments = [] })
      (λ e. omega (arith, e)) (λ e. omega (arith, e)) (omega arith) (rw (eq→== p.mode 1 named) refl)

pub Leads-redirect :
    (r : Text) (p : Parser) → p.mode ≡ 1 → Leads (b' ' ∷ b'>' ∷ r) p r (record p { mode = 2 })
unfolding round
Leads-redirect r p named =
    Leads-step b'>' r r p (record p { mode = 2 }) (λ e. omega (arith, e)) (λ e. omega (arith, e))
      (omega arith) (rw (eq→== p.mode 1 named) refl)

pub Leads-ampersand :
    (r : Text) (p : Parser)
    → (p.mode ≡ 1) ⊎ (p.mode ≡ 3)
    → Leads (b' ' ∷ b'&' ∷ r) p r (record p { mode = 4; bgnd = background })
unfolding round
Leads-ampersand r p named =
    Leads-step b'&' r r p (record p { mode = 4; bgnd = background }) (λ e. omega (arith, e))
      (λ e. omega (arith, e)) (omega arith)
      (elim named [
        | inl one ↦ rw (eq→== p.mode 1 one) refl
        | inr three ↦ rw (ne→== p.mode 1 (λ e. omega (arith, e, three)), eq→== p.mode 3 three) refl
      ])
