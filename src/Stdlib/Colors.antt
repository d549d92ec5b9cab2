-- ===== src/Stdlib/Colors.antt =====
-- The colours that the shell reads with is_hex_color_code and hex_to_uint of
-- Userland/SampleCodeModule/libc/stdlib.c.
use native.Mathlib.Nat.{pow-suc, pow-le-pow_right, mod-le}
use tpe_so_2023_tp.Base.{
  ℕ, suc, ◌+◌, ◌-◌, ◌*◌, ◌%◌, ◌^◌, ◌≤◌, ◌<◌, ◌≡◌, ◌≢◌, ◌⊎◌, refl, sym, ap, ◌∙◌, arith, true, false,
  ◌==◌, ◌&&◌, List, [], ◌∷◌, All, length, Bool-cases, inl, inr, subst,
}
use tpe_so_2023_tp.Stdlib.{
  is_hex_char, hex_value, read_hex, hex_to_uint, strlen, is_hex_color_code, all_hex,
}
use tpe_so_2023_tp.Text.Compare.{text}

hex_value-lt : (c : ℕ) → is_hex_char c ≡ true → hex_value c < 16
hex_value-lt c h = ground (arith, h)

-- One more digit.
shifted : (ret v j : ℕ) → ret < 16 ^ j → v < 16 → (ret * 16) % 2 ^ 32 + v < 16 ^ suc j
shifted ret v j lt small =
    let e : 16 ^ suc j ≡ 16 ^ j * 16 = pow-suc 16 j in omega (arith, e, mod-le (ret * 16) (2 ^ 32))

more_digits : (j k : ℕ) → 16 ^ j ≤ 16 ^ (j + k)
more_digits j k = let up : j ≤ j + k = omega arith in pow-le-pow_right {n = 16} (omega arith) up

-- At most `k` more digits.
read_hex_bound :
    (ret : ℕ) (s : List ℕ) (j k : ℕ) → ret < 16 ^ j → strlen s ≤ k → read_hex ret s < 16 ^ (j + k)
unfolding read_hex strlen
read_hex_bound ret [] j k lt le = omega (arith, more_digits j k)
read_hex_bound ret (c ∷ s) j k lt le =
    let more = more_digits j k in
    elim (Bool-cases (c == 0)) [
      | inl end ↦ rw end (omega (arith, more))
      | inr other ↦ elim (Bool-cases (is_hex_char c)) [
        | inr no_digit ↦ rw (other, no_digit) (omega (arith, more))
        | inl digit ↦
            let le' : strlen s + 1 ≤ k = ground arith in
            let rest =
              read_hex_bound ((ret * 16) % 2 ^ 32 + hex_value c) s (suc j) (k - 1)
                (shifted ret (hex_value c) j lt (hex_value-lt c digit)) (omega arith) in
            let e : suc j + (k - 1) ≡ j + k = omega arith in
            rw (other, digit)
              (subst (λ z. read_hex ((ret * 16) % 2 ^ 32 + hex_value c) s < 16 ^ z) e rest)
      ]
    ]

strlen-drop_one : (c : ℕ) (s : List ℕ) → c ≢ 0 → strlen (c ∷ s) ≡ strlen s + 1
unfolding strlen
strlen-drop_one c s some_c = ground arith

six_digits : (s : List ℕ) → strlen s ≡ 6 → read_hex 0 s < 2 ^ 24
six_digits s six = read_hex_bound 0 s 0 6 (omega arith) (omega arith)

after_hash : (c : ℕ) (s : List ℕ) → strlen (c ∷ s) ≡ 7 → c ≡ b'#' → hex_to_uint (c ∷ s) < 2 ^ 24
unfolding hex_to_uint
after_hash c s len at =
    let rest : strlen s ≡ 6 = omega (arith, strlen-drop_one c s (omega arith)) in
    let bound = six_digits s rest in ground arith

after_0x :
    (c d : ℕ) (s : List ℕ)
    → strlen (c ∷ d ∷ s) ≡ 8
    → c ≡ b'0'
    → d ≡ b'x'
    → hex_to_uint (c ∷ d ∷ s) < 2 ^ 24
unfolding hex_to_uint
after_0x c d s len at at' =
    let rest : strlen s ≡ 6 =
      omega (arith, strlen-drop_one c (d ∷ s) (omega arith), strlen-drop_one d s (omega arith)) in
    let bound = six_digits s rest in ground arith

-- The characters of a colour: a digit, or a letter up to F or f.
abbrev pub IsHexDigit : ℕ → Type 0
IsHexDigit c = ((b'0' ≤ c) × (c ≤ b'9')) ⊎ ((b'A' ≤ c) × (c ≤ b'F')) ⊎ ((b'a' ≤ c) × (c ≤ b'f'))

-- `#` or `0x`, six of them, and nothing else before the NUL.
abbrev pub IsColor : List ℕ → Type 0
IsColor code =
    (digits : List ℕ) × (length digits ≡ 6)
    × All IsHexDigit digits
    × ((text code ≡ b'#' ∷ digits) ⊎ (text code ≡ b'0' ∷ b'x' ∷ digits))

-- What the answer to a text must be.
abbrev pub Judges : List ℕ → ℕ → Type 0
Judges code r = ((r ≡ 1) × IsColor code × (hex_to_uint code < 2 ^ 24)) ⊎ ((r ≡ 0) × ¬ IsColor code)

is_hex_char_cases :
    (c : ℕ) → ((is_hex_char c ≡ true) × IsHexDigit c) ⊎ ((is_hex_char c ≡ false) × ¬ IsHexDigit c)
is_hex_char_cases c = elim (Bool-cases (is_hex_char c)) [
  | inl t ↦ inl (t, ground (arith, t))
  | inr f ↦ inr (f, λ d. ground (arith, f, d))
]

all_hex_cases :
    (s : List ℕ)
    → ((all_hex s ≡ true) × All IsHexDigit (text s))
      ⊎ ((all_hex s ≡ false) × ¬ All IsHexDigit (text s))
unfolding all_hex text
all_hex_cases [] = inl (refl, tt)
all_hex_cases (c ∷ s) = elim (Bool-cases (c == 0)) [
  | inl end ↦ rw end (inl (refl, tt))
  | inr other ↦ elim (is_hex_char_cases c) [
    | inl (t, digit) ↦
        rw (other, t)
          (elim (all_hex_cases s) [
            | inl (all, digits) ↦ inl (all, (digit, digits))
            | inr (some_not, none) ↦ inr (some_not, λ (_, digits). none digits)
          ])
    | inr (f, no_digit) ↦ rw (other, f) (inr (refl, λ (digit, _). no_digit digit))
  ]
]

length-text : (s : List ℕ) → length (text s) ≡ strlen s
unfolding text strlen
length-text [] = refl
length-text (c ∷ s) = ground (arith, length-text s)

text_cons :
    (c : ℕ) (s : List ℕ) (d : ℕ) (ds : List ℕ)
    → text (c ∷ s) ≡ d ∷ ds
    → (c ≢ 0) × (c ≡ d) × (text s ≡ ds)
unfolding text
text_cons c s d ds e = (ground (arith, e), ground (arith, e), ground (arith, e))

cons_text : (c : ℕ) (s : List ℕ) → c ≢ 0 → text (c ∷ s) ≡ c ∷ text s
unfolding text
cons_text c s some_c = ground arith

hash_Judges :
    (c : ℕ) (s : List ℕ)
    → strlen (c ∷ s) ≡ 7
    → c ≡ b'#'
    → Judges (c ∷ s) (is_hex_color_code (c ∷ s))
unfolding is_hex_color_code
hash_Judges c s len at =
    let some_c : c ≢ 0 = omega arith in
    let six : strlen s ≡ 6 = omega (arith, strlen-drop_one c s some_c) in
    elim (all_hex_cases s) [
      | inl (all, digits) ↦ inl (
        ground (arith, all),
        (text s, length-text s ∙ six, digits, inl (cons_text c s some_c ∙ ap (λ h. h ∷ text s) at)),
        after_hash c s len at,
      )
      | inr (some_not, none) ↦ inr (
        ground (arith, some_not),
        λ (ds, _, digits, starts). elim starts [
          | inl e ↦ none (subst (All IsHexDigit) (sym (text_cons c s (b'#') ds e).2) digits)
          | inr e ↦ absurd (omega (arith, (text_cons c s (b'0') (b'x' ∷ ds) e).1))
        ],
      )
    ]

zero_x_Judges :
    (c d : ℕ) (s : List ℕ)
    → strlen (c ∷ d ∷ s) ≡ 8
    → c ≡ b'0'
    → d ≡ b'x'
    → Judges (c ∷ d ∷ s) (is_hex_color_code (c ∷ d ∷ s))
unfolding is_hex_color_code
zero_x_Judges c d s len at at' =
    let some_c : c ≢ 0 = omega arith in
    let some_d : d ≢ 0 = omega arith in
    let six : strlen s ≡ 6 =
      omega (arith, strlen-drop_one c (d ∷ s) some_c, strlen-drop_one d s some_d) in
    let whole : text (c ∷ d ∷ s) ≡ b'0' ∷ b'x' ∷ text s =
      cons_text c (d ∷ s) some_c
      ∙ ap (λ t. c ∷ t) (cons_text d s some_d)
      ∙ ap (λ h. h ∷ d ∷ text s) at
      ∙ ap (λ h. b'0' ∷ h ∷ text s) at' in
    elim (all_hex_cases s) [
      | inl (all, digits) ↦ inl (
        ground (arith, all),
        (text s, length-text s ∙ six, digits, inr whole),
        after_0x c d s len at at',
      )
      | inr (some_not, none) ↦ inr (
        ground (arith, some_not),
        λ (ds, _, digits, starts). elim starts [
          | inl e ↦ absurd (omega (arith, (text_cons c (d ∷ s) (b'#') ds e).1))
          | inr e ↦
              let rest = (text_cons c (d ∷ s) (b'0') (b'x' ∷ ds) e).2 in
              none (subst (All IsHexDigit) (sym (text_cons d s (b'x') ds rest).2) digits)
        ],
      )
    ]

strlen-color :
    (code : List ℕ) (n : ℕ) (ds : List ℕ) → text code ≡ ds → length ds ≡ n → strlen code ≡ n
strlen-color code n ds e len = sym (length-text code) ∙ ap length e ∙ len

neither_Judges :
    (c d : ℕ) (s : List ℕ)
    → (strlen (c ∷ d ∷ s) == 7 && c == b'#') ≡ false
    → (strlen (c ∷ d ∷ s) == 8 && c == b'0' && d == b'x') ≡ false
    → Judges (c ∷ d ∷ s) (is_hex_color_code (c ∷ d ∷ s))
unfolding is_hex_color_code
neither_Judges c d s no_hash no_0x = inr (
  ground (arith, no_hash, no_0x),
  λ (ds, six, digits, starts). elim starts [
    | inl e ↦
        let len = strlen-color (c ∷ d ∷ s) 7 _ e (omega (arith, six)) in
        let head = (text_cons c (d ∷ s) (b'#') ds e).1 in
        absurd (ground (arith, no_hash, len, head))
    | inr e ↦
        let len = strlen-color (c ∷ d ∷ s) 8 _ e (omega (arith, six)) in
        let (_, head, rest) = text_cons c (d ∷ s) (b'0') (b'x' ∷ ds) e in
        let second = (text_cons d s (b'x') ds rest).1 in
        absurd (ground (arith, no_0x, len, head, second))
  ],
)

-- A text of at most one character.
short_Judges : (code : List ℕ) → strlen code ≤ 1 → Judges code (is_hex_color_code code)
unfolding is_hex_color_code
short_Judges code short = inr (
  ground (arith, short),
  λ (ds, six, digits, starts). elim starts [
    | inl e ↦ absurd (omega (arith, strlen-color code 7 _ e (omega (arith, six)), short))
    | inr e ↦ absurd (omega (arith, strlen-color code 8 _ e (omega (arith, six)), short))
  ],
)

-- is_hex_color_code answers 1 exactly to the texts of `#` or `0x` and six hexadecimal digits, which hex_to_uint
-- reads as a colour of 24 bits, and 0 to all others.
pub is_hex_color_code-hex_to_uint : (code : List ℕ) → Judges code (is_hex_color_code code)
unfolding strlen
is_hex_color_code-hex_to_uint [] = short_Judges [] (omega arith)
is_hex_color_code-hex_to_uint (c ∷ []) = short_Judges (c ∷ []) (ground arith)
is_hex_color_code-hex_to_uint (c ∷ d ∷ s) =
    elim (Bool-cases (strlen (c ∷ d ∷ s) == 7 && c == b'#')) [
      | inl t ↦ hash_Judges c (d ∷ s) (ground (arith, t)) (ground (arith, t))
      | inr no_hash ↦ elim (Bool-cases (strlen (c ∷ d ∷ s) == 8 && c == b'0' && d == b'x')) [
        | inl t ↦ zero_x_Judges c d s (ground (arith, t)) (ground (arith, t)) (ground (arith, t))
        | inr no_0x ↦ neither_Judges c d s no_hash no_0x
      ]
    ]
