-- ===== src/Text/Digits.antt =====
-- uint_to_base of Kernel/libc/libc.c: the text that it writes reads back as the number.
use native.Mathlib.Nat.{pow-suc, div-add-mod, mul-div-le}
use tpe_so_2023_tp.Base.{
  ℕ, zero, suc, ◌+◌, ◌-◌, ◌*◌, ◌/◌, ◌%◌, ◌^◌, ◌<◌, ◌≤◌, ◌≡◌, refl, ap, sym, ◌∙◌, arith, List, [],
  ◌∷◌, ◌++◌, length, get_or, set, reverse, ltb, leb, ◌&&◌, if◌then◌else◌, length-set, get_or-set,
  list_ext, Bool-cases, inl, inr, get_or-append_left, get_or-append_right, length-append,
}
use tpe_so_2023_tp.Text.{low_digits, swap_ends, uint_to_base, digit_char}
use mathlib.Core.List.{reverse-cons}

length-swap_ends :
    (fuel : ℕ) (bs : List ℕ) (p1 p2 : ℕ) → length (swap_ends fuel bs p1 p2) ≡ length bs
unfolding swap_ends
length-swap_ends zero bs p1 p2 = refl
length-swap_ends (suc fuel) bs p1 p2 =
    let once = set bs p1 (get_or bs p2 0) in
    ground (
      arith,
      length-swap_ends fuel (set once p2 (get_or bs p1 0)) (p1 + 1) (p2 - 1),
      length-set once p2 (get_or bs p1 0),
      length-set bs p1 (get_or bs p2 0),
    )

-- The loop reverses what lies between the two pointers, both included.
get_or-swap_ends :
    (fuel : ℕ) (bs : List ℕ) (p1 p2 j : ℕ)
    → p2 < length bs
    → p2 ≤ p1 + fuel
    → j < length bs
    → get_or (swap_ends fuel bs p1 p2) j 0
      ≡ (if leb p1 j && leb j p2 then get_or bs (p1 + p2 - j) 0 else get_or bs j 0)
unfolding swap_ends
get_or-swap_ends zero bs p1 p2 j h f hj = ground arith
get_or-swap_ends (suc fuel) bs p1 p2 j h f hj =
    let once = set bs p1 (get_or bs p2 0) in
    let twice = set once p2 (get_or bs p1 0) in
    ground (
      arith,
      get_or-swap_ends fuel twice (p1 + 1) (p2 - 1) j,
      length-set once p2 (get_or bs p1 0),
      length-set bs p1 (get_or bs p2 0),
      get_or-set once p2 (get_or bs p1 0) j 0,
      get_or-set bs p1 (get_or bs p2 0) j 0,
      get_or-set once p2 (get_or bs p1 0) (p1 + p2 - j) 0,
      get_or-set bs p1 (get_or bs p2 0) (p1 + p2 - j) 0,
    )

length-reverse : (xs : List ℕ) → length (reverse xs) ≡ length xs
length-reverse [] = refl
length-reverse (x ∷ xs) =
    ap length (reverse-cons x xs)
    ∙ omega (arith, length-append (reverse xs) (x ∷ []), length-reverse xs)

get_or-reverse :
    (xs : List ℕ) (j : ℕ)
    → j < length xs
    → get_or (reverse xs) j 0 ≡ get_or xs (length xs - 1 - j) 0
get_or-reverse [] j h = absurd (omega arith)
get_or-reverse (x ∷ xs) j h =
    ap (λ l. get_or l j 0) (reverse-cons x xs) ∙ elim (Bool-cases (ltb j (length xs))) [
      | inl t ↦
          get_or-append_left (reverse xs) (x ∷ []) j 0 (ground (arith, length-reverse xs))
          ∙ get_or-reverse xs j (ground arith)
          ∙ ap (λ k. get_or (x ∷ xs) k 0)
              (let e : suc (length xs - 1 - j) ≡ suc (length xs) - 1 - j = ground arith in e)
      | inr f ↦
          get_or-append_right (reverse xs) (x ∷ []) j 0 (ground (arith, length-reverse xs))
          ∙ ap (λ k. get_or (x ∷ []) k 0)
              (let e : j - length (reverse xs) ≡ 0 = ground (arith, length-reverse xs) in e)
          ∙ ap (λ k. get_or (x ∷ xs) k 0) (let e : 0 ≡ suc (length xs) - 1 - j = ground arith in e)
    ]

swap_ends-reverse : (xs : List ℕ) → swap_ends (length xs) xs 0 (length xs - 1) ≡ reverse xs
unfolding swap_ends
swap_ends-reverse [] = refl
swap_ends-reverse (x ∷ xs) =
    list_ext _ _ 0 (length-swap_ends (length (x ∷ xs)) (x ∷ xs) 0 n ∙ sym (length-reverse (x ∷ xs)))
      same
  where
    n : ℕ
    n = length (x ∷ xs) - 1

    same :
        (j : ℕ)
        → j < length (swap_ends (length (x ∷ xs)) (x ∷ xs) 0 n)
        → get_or (swap_ends (length (x ∷ xs)) (x ∷ xs) 0 n) j 0 ≡ get_or (reverse (x ∷ xs)) j 0
    same j hj =
        let lt : j < length (x ∷ xs) =
          omega (arith, length-swap_ends (length (x ∷ xs)) (x ∷ xs) 0 n) in
        get_or-swap_ends (length (x ∷ xs)) (x ∷ xs) 0 n j (omega arith) (omega arith) lt
        ∙ sym (get_or-reverse (x ∷ xs) j lt ∙ ground arith)

-- The number that a digit's character stands for.
unfoldable pub digit_value : ℕ → ℕ
digit_value c = if leb c b'9' then c - b'0' else c + 10 - b'A'

digit_value-char : (r : ℕ) → digit_value (digit_char r) ≡ r
unfolding digit_value
digit_value-char r = ground arith

-- A text read from the left, as a reader does, and the digits from the lowest.
unfoldable pub read_number : ℕ → ℕ → List ℕ → ℕ
read_number base acc [] = acc
read_number base acc (c ∷ s) = read_number base (acc * base + digit_value c) s

low_value : ℕ → List ℕ → ℕ
low_value base [] = 0
low_value base (c ∷ s) = digit_value c + base * low_value base s

read-append :
    (base acc : ℕ) (xs ys : List ℕ)
    → read_number base acc (xs ++ ys) ≡ read_number base (read_number base acc xs) ys
unfolding read_number
read-append base acc [] ys = refl
read-append base acc (x ∷ xs) ys = read-append base (acc * base + digit_value x) xs ys

read-reverse : (base : ℕ) (xs : List ℕ) → read_number base 0 (reverse xs) ≡ low_value base xs
unfolding read_number low_value
read-reverse base [] = refl
read-reverse base (x ∷ xs) =
    ap (read_number base 0) (reverse-cons x xs)
    ∙ read-append base 0 (reverse xs) (x ∷ [])
    ∙ rw (read-reverse base xs) (grind arith)

halves : (value base f : ℕ) → 2 ≤ base → value < 2 ^ suc f → value / base < 2 ^ f
halves value base f hb h =
    let twice : value < 2 ^ f * 2 = rw pow-suc at h in
    let q = value / base in
    let parts : base * q ≤ value = omega (arith, mul-div-le value base) in grind arith

low_value-digits :
    (fuel value base : ℕ)
    → 2 ≤ base
    → value < 2 ^ fuel
    → low_value base (low_digits fuel value base) ≡ value
unfolding low_digits low_value
low_value-digits zero value base hb h = omega arith
low_value-digits (suc fuel) value base hb h = ground (
  arith,
  low_value-digits fuel (value / base) base hb (halves value base fuel hb h),
  digit_value-char (value % base),
  div-add-mod value base,
)

-- The text is the digits, the highest first.
pub uint_to_base-reverse :
    (value base : ℕ) → (uint_to_base value base).1 ≡ reverse (low_digits 64 value base)
unfolding uint_to_base
uint_to_base-reverse value base = swap_ends-reverse (low_digits 64 value base)

pub uint_to_base-length :
    (value base : ℕ) → (uint_to_base value base).0 ≡ length (low_digits 64 value base)
unfolding uint_to_base
uint_to_base-length value base = refl

-- For every base from 2 on, the text that uint_to_base writes for a uint64_t, read from the left,
-- is that number again, and the result is the number of characters of the text.
pub uint_to_base_reads_back :
    (value base : ℕ)
    → 2 ≤ base
    → value < 2 ^ 64
    → let (digits, text) = uint_to_base value base in
      (read_number base 0 text ≡ value) × (digits ≡ length text)
unfolding uint_to_base
uint_to_base_reads_back value base hb h =
    let digits = low_digits 64 value base in
    (
      rw (swap_ends-reverse digits)
          (read-reverse base digits ∙ low_value-digits 64 value base hb h),
      sym (length-swap_ends (length digits) digits 0 (length digits - 1)),
    )
