-- ===== src/Stdlib/Tokens.antt =====
-- strtok of Userland/SampleCodeModule/libc/stdlib.c against the words of a text.
use tpe_so_2023_tp.Base.{
  ℕ, zero, suc, ◌+◌, ◌-◌, ◌≤◌, ◌<◌, ◌≡◌, refl, sym, ap, ◌∙◌, arith, Bool, true, false, ◌&&◌, not,
  ltb, ◌==◌, if◌then◌else◌, List, [], ◌∷◌, length, take, Bool-cases, inl, inr,
}
use tpe_so_2023_tp.Stdlib.{is_token, begins_word, tokens_from, strtok}

-- Where the words of a text begin: at a character that is no token, at the start of the text or behind a token.
unfoldable pub word_starts : ℕ → Bool → List ℕ → ℕ → List ℕ
word_starts token fresh [] i = []
word_starts token fresh (c ∷ buff) i =
    let rest = word_starts token (is_token token c) buff (i + 1) in
    if c == 0 then [] else if fresh && not (is_token token c) then i ∷ rest else rest

-- The text with every token overwritten by a NUL.
unfoldable pub cut : ℕ → List ℕ → List ℕ
cut token [] = []
cut token (c ∷ buff) =
    let rest = cut token buff in
    if c == 0 then c ∷ buff else if is_token token c then 0 ∷ rest else c ∷ rest

-- A text that begins a word has its first start there.
starts_here :
    (token i : ℕ) (buff : List ℕ)
    → begins_word token buff ≡ true
    → word_starts token true buff i ≡ i ∷ word_starts token false buff i
unfolding word_starts
starts_here token i [] h = absurd (ground (arith, h))
starts_here token i (c ∷ buff) h = ground (arith, h)

starts_later :
    (token i : ℕ) (buff : List ℕ)
    → begins_word token buff ≡ false
    → word_starts token true buff i ≡ word_starts token false buff i
unfolding word_starts
starts_later token i [] h = refl
starts_later token i (c ∷ buff) h = ground (arith, h)

take_nil : (k : ℕ) → take {A = ℕ} k [] ≡ []
take_nil zero = refl
take_nil (suc k) = refl

take_cons : (k x : ℕ) (xs : List ℕ) → 0 < k → take k (x ∷ xs) ≡ x ∷ take (k - 1) xs
take_cons zero x xs h = absurd (omega arith)
take_cons (suc k) x xs h = let e : suc k - 1 ≡ k = omega arith in ap (λ z. x ∷ take z xs) (sym e)

take_none : (k : ℕ) (xs : List ℕ) → k ≡ 0 → take k xs ≡ []
take_none zero xs e = refl
take_none (suc k) xs e = absurd (omega arith)

tokens_from_lem :
    (size token : ℕ) (buff : List ℕ) (i args_len : ℕ)
    → args_len ≤ size + 1
    → (tokens_from size token buff i args_len).0
      ≡ take (size + 1 - args_len) (word_starts token false buff i)
unfolding tokens_from word_starts
tokens_from_lem size token [] i args_len le = sym (take_nil (size + 1 - args_len))
tokens_from_lem size token (c ∷ buff) i args_len le =
    let rest = tokens_from_lem size token buff (i + 1) args_len le in
    elim (Bool-cases (c == 0)) [
      | inl end ↦ rw end (sym (take_nil (size + 1 - args_len)))
      | inr on ↦ elim (Bool-cases (is_token token c)) [
        | inr plain ↦ rw (on, plain) rest
        | inl tok ↦ elim (Bool-cases (begins_word token buff)) [
          | inr none ↦
              rw (on, tok, none)
                (rest
                  ∙ ap (take (size + 1 - args_len)) (sym (starts_later token (i + 1) buff none)))
          | inl word ↦ elim (Bool-cases (ltb size args_len)) [
            | inl full ↦
                rw (on, tok, word, full)
                  (sym (
                    take_none (size + 1 - args_len) (word_starts token true buff (i + 1))
                      (ground (arith, full))))
            | inr room ↦
                let le' : args_len ≤ size = ground (arith, room) in
                let more = tokens_from_lem size token buff (i + 1) (args_len + 1) (omega arith) in
                let e : size + 1 - args_len - 1 ≡ size + 1 - (args_len + 1) = omega arith in
                rw (on, tok, word, room)
                  (ap (◌∷◌ (i + 1))
                      (more ∙ ap (λ z. take z (word_starts token false buff (i + 1))) (sym e))
                    ∙ sym (
                        take_cons (size + 1 - args_len) (i + 1)
                          (word_starts token false buff (i + 1)) (omega arith))
                    ∙ ap (take (size + 1 - args_len)) (sym (starts_here token (i + 1) buff word)))
          ]
        ]
      ]
    ]

-- Words that `args` has room for: the loop goes to the end and cuts at every token.
tokens_from-cut :
    (size token : ℕ) (buff : List ℕ) (i args_len : ℕ)
    → length (word_starts token false buff i) + args_len ≤ size + 1
    → (tokens_from size token buff i args_len).1 ≡ cut token buff
unfolding tokens_from word_starts cut
tokens_from-cut size token [] i args_len fits = refl
tokens_from-cut size token (c ∷ buff) i args_len fits =
    let rest = tokens_from-cut size token buff (i + 1) args_len in
    let more = tokens_from-cut size token buff (i + 1) (args_len + 1) in
    elim (Bool-cases (c == 0)) [
      | inl end ↦ rw end refl
      | inr on ↦ elim (Bool-cases (is_token token c)) [
        | inr plain ↦ rw (on, plain) (ap (◌∷◌ c) (rest (rw (on, plain) at fits)))
        | inl tok ↦
            let fits' : length (word_starts token true buff (i + 1)) + args_len ≤ size + 1 =
              rw (on, tok) at fits in
            elim (Bool-cases (begins_word token buff)) [
              | inr none ↦
                  rw (on, tok, none)
                    (ap (◌∷◌ 0) (rest (rw (starts_later token (i + 1) buff none) at fits')))
              | inl word ↦
                  let count = ap length (starts_here token (i + 1) buff word) in
                  let room : ltb size args_len ≡ false = ground (arith, count, fits') in
                  rw (on, tok, word, room) (ap (◌∷◌ 0) (more (omega (arith, count, fits'))))
            ]
      ]
    ]

-- strtok finds the words of a text in order, `size` + 1 of them at most: one more than `args` has room for.
pub strtok-word_starts :
    (buff : List ℕ) (token size : ℕ)
    → (strtok buff token size).0 ≡ take (size + 1) (word_starts token true buff 0)
unfolding strtok
strtok-word_starts buff token size = elim (Bool-cases (begins_word token buff)) [
  | inl word ↦
      let e : size + 1 - 1 ≡ size + 1 - 1 = refl in
      rw word (
        ap (◌∷◌ 0) (tokens_from_lem size token buff 0 1 (omega arith))
        ∙ sym (take_cons (size + 1) 0 (word_starts token false buff 0) (omega arith))
        ∙ ap (take (size + 1)) (sym (starts_here token 0 buff word)))
  | inr none ↦
      let e : size + 1 - 0 ≡ size + 1 = omega arith in
      rw none (
        tokens_from_lem size token buff 0 0 (omega arith)
        ∙ ap (λ z. take z (word_starts token false buff 0)) e
        ∙ ap (take (size + 1)) (sym (starts_later token 0 buff none)))
]

-- A text with at most `size` words is cut at every token.
pub strtok-cut :
    (buff : List ℕ) (token size : ℕ)
    → length (word_starts token true buff 0) ≤ size
    → (strtok buff token size).1 ≡ cut token buff
unfolding strtok
strtok-cut buff token size fits = elim (Bool-cases (begins_word token buff)) [
  | inl word ↦
      let count = ap length (starts_here token 0 buff word) in
      rw word (tokens_from-cut size token buff 0 1 (omega (arith, count, fits)))
  | inr none ↦
      let count = ap length (starts_later token 0 buff none) in
      rw none (tokens_from-cut size token buff 0 0 (omega (arith, count, fits)))
]
