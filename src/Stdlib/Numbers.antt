-- ===== src/Stdlib/Numbers.antt =====
-- The numbers of Userland/SampleCodeModule/libc/stdlib.c: what the readers make of what the writers write.
use native.Mathlib.Nat.{mod-lt}
use mathlib.Core.List.{reverse-cons}
use tpe_so_2023_tp.Base.{
  ℕ, zero, suc, ◌+◌, ◌*◌, ◌/◌, ◌%◌, ◌^◌, ◌≤◌, ◌<◌, ◌≡◌, refl, sym, ap, ◌∙◌, arith, true, false,
  ◌&&◌, ◌||◌, leb, ◌==◌, if◌then◌else◌, List, [], ◌∷◌, ◌++◌, reverse, All, ℤ, pos, negsuc, pos_part,
  neg_part, sub_ℕ, returned, Bool-cases, inl, inr, ◌⊎◌, subst,
}
use tpe_so_2023_tp.Text.{low_digits, is_digit, digit_char}
use tpe_so_2023_tp.Text.Digits.{
  digit_value, read_number, uint_to_base_reads_back, uint_to_base-reverse, uint_to_base-length,
}
use tpe_so_2023_tp.Text as Text
use tpe_so_2023_tp.Stdlib.{
  uint_to_base, int_to_str, read_int, skip_blanks, str_to_int, is_hex_char, hex_value, read_hex,
  hex_to_uint,
}

abbrev IsDigit : ℕ → Type 0
IsDigit c = is_digit c ≡ true

abbrev IsUpperHex : ℕ → Type 0
IsUpperHex c = (is_digit c || leb b'A' c && leb c b'F') ≡ true

module _ (P : ℕ → Type 0) where
  All-append : (xs ys : List ℕ) → All P xs → All P ys → All P (xs ++ ys)
  All-append [] ys ps qs = qs
  All-append (x ∷ xs) ys (p, ps) qs = (p, All-append xs ys ps qs)

  All-reverse : (xs : List ℕ) → All P xs → All P (reverse xs)
  All-reverse [] ps = tt
  All-reverse (x ∷ xs) (p, ps) =
      subst (All P) (sym (reverse-cons x xs))
        (All-append (reverse xs) (x ∷ []) (All-reverse xs ps) (p, tt))

  All-low_digits :
      (fuel value base : ℕ)
      → 0 < base
      → ((r : ℕ) → r < base → P (digit_char r))
      → All P (low_digits fuel value base)
  unfolding low_digits
  All-low_digits zero value base some_base each = tt
  All-low_digits (suc fuel) value base some_base each = (
    each (value % base) (mod-lt value some_base),
    rest (Bool-cases (value / base == 0)) (All-low_digits fuel (value / base) base some_base each),
  )
    where
      rest :
          (((value / base == 0) ≡ true) ⊎ ((value / base == 0) ≡ false))
          → All P (low_digits fuel (value / base) base)
          → All P (if value / base == 0 then [] else low_digits fuel (value / base) base)
      rest (inl e) ps = rw e tt
      rest (inr e) ps = rw e ps

  All-uint_to_base :
      (value base : ℕ)
      → 0 < base
      → ((r : ℕ) → r < base → P (digit_char r))
      → All P (uint_to_base value base).1
  unfolding uint_to_base
  All-uint_to_base value base some_base each =
      subst (All P) (sym (uint_to_base-reverse value base))
        (All-reverse (low_digits 64 value base) (All-low_digits 64 value base some_base each))

digit_char-IsDigit : (r : ℕ) → r < 10 → IsDigit (digit_char r)
digit_char-IsDigit r lt = ground arith

digit_char-IsUpperHex : (r : ℕ) → r < 16 → IsUpperHex (digit_char r)
digit_char-IsUpperHex r lt = ground arith

read_number-ge : (base acc : ℕ) (s : List ℕ) → 0 < base → acc ≤ read_number base acc s
unfolding read_number
read_number-ge base acc [] some_base = omega arith
read_number-ge base acc (c ∷ s) some_base =
    let more : acc ≤ acc * base = grind arith in
    omega (arith, read_number-ge base (acc * base + digit_value c) s some_base)

read_int_lem :
    (acc : ℕ) (s : List ℕ)
    → All IsDigit s
    → read_number 10 acc s < 2 ^ 31
    → read_int acc s ≡ returned (read_number 10 acc s)
unfolding read_int read_number digit_value
read_int_lem acc [] ds lt = refl
read_int_lem acc (c ∷ s) (d, ds) lt =
    let rest = read_int_lem (acc * 10 + digit_value c) s ds lt in
    let ge = read_number-ge 10 (acc * 10 + digit_value c) s (omega arith) in ground (arith, rest)

read_hex_lem :
    (acc : ℕ) (s : List ℕ)
    → All IsUpperHex s
    → read_number 16 acc s < 2 ^ 32
    → read_hex acc s ≡ read_number 16 acc s
unfolding read_hex read_number digit_value
read_hex_lem acc [] ds lt = refl
read_hex_lem acc (c ∷ s) (d, ds) lt =
    let ge = read_number-ge 16 (acc * 16 + digit_value c) s (omega arith) in
    let fits : acc * 16 % 2 ^ 32 ≡ acc * 16 = omega (arith, ge, lt) in
    let value : hex_value c ≡ digit_value c = ground arith in
    let rest = read_hex_lem (acc * 16 + digit_value c) s ds lt in
    let other : (c == 0) ≡ false = ground arith in
    let hex : is_hex_char c ≡ true = ground arith in rw (fits, value, other, hex) rest

-- No sign and no blank comes before the digits of a text.
plain_int :
    (s : List ℕ) (n : ℕ)
    → All IsDigit s
    → read_int 0 s ≡ returned n
    → str_to_int s ≡ returned (pos n)
unfolding str_to_int skip_blanks
plain_int [] n ds e = ground (arith, e)
plain_int (c ∷ s) n (d, ds) e = ground (arith, e)

signed_int :
    (s : List ℕ) (n : ℕ) → read_int 0 s ≡ returned n → str_to_int (b'-' ∷ s) ≡ returned (sub_ℕ 0 n)
unfolding str_to_int skip_blanks
signed_int s n e = rw e refl

-- str_to_int reads back the text of int_to_str, of every `int` but the least, whose digits overflow.
pub str_to_int-int_to_str :
    (value : ℤ)
    → pos_part value < 2 ^ 31
    → neg_part value < 2 ^ 31
    → str_to_int (int_to_str value).1 ≡ returned value
unfolding int_to_str uint_to_base
str_to_int-int_to_str (pos n) lt ltn =
    let text = (Text.uint_to_base n 10).1 in
    let back = (uint_to_base_reads_back n 10 (omega arith) (omega arith)).0 in
    let ds = All-uint_to_base IsDigit n 10 (omega arith) digit_char-IsDigit in
    plain_int text n ds (read_int_lem 0 text ds (omega (arith, back)) ∙ ap returned back)
str_to_int-int_to_str (negsuc n) lt ltn =
    let text = (Text.uint_to_base (n + 1) 10).1 in
    let back = (uint_to_base_reads_back (n + 1) 10 (omega arith) (omega arith)).0 in
    let ds = All-uint_to_base IsDigit (n + 1) 10 (omega arith) digit_char-IsDigit in
    signed_int text (n + 1) (read_int_lem 0 text ds (omega (arith, back)) ∙ ap returned back)
    ∙ ap returned (ground arith)

-- Upper-case digits are no prefix.
plain_hex : (s : List ℕ) → All IsUpperHex s → hex_to_uint s ≡ read_hex 0 s
unfolding hex_to_uint
plain_hex [] ds = refl
plain_hex (c ∷ []) (d, ds) = ground arith
plain_hex (c ∷ c' ∷ s) (d, (d', ds)) = ground arith

-- hex_to_uint reads back every uint32_t that uint_to_base writes in base 16, as it is and with either prefix.
pub hex_to_uint-uint_to_base :
    (value : ℕ)
    → value < 2 ^ 32
    → let text = (uint_to_base value 16).1 in
      (hex_to_uint text ≡ value)
      × (hex_to_uint (b'#' ∷ text) ≡ value)
      × (hex_to_uint (b'0' ∷ b'x' ∷ text) ≡ value)
unfolding uint_to_base hex_to_uint
hex_to_uint-uint_to_base value lt =
    let text = (Text.uint_to_base value 16).1 in
    let back = (uint_to_base_reads_back value 16 (omega arith) (omega arith)).0 in
    let ds = All-uint_to_base IsUpperHex value 16 (omega arith) digit_char-IsUpperHex in
    let read = read_hex_lem 0 text ds (omega (arith, back)) ∙ back in
    (plain_hex text ds ∙ read, read, read)

-- A number below 10 has one digit.
pub one_digit : (n : ℕ) → n < 10 → (int_to_str (pos n)).0 ≡ 1
unfolding int_to_str uint_to_base low_digits
one_digit n lt =
    let none_left : n / 10 ≡ 0 = omega arith in uint_to_base-length n 10 ∙ rw none_left refl

-- From 10 to 99 it has two.
pub two_digits : (n : ℕ) → 10 ≤ n → n < 100 → (int_to_str (pos n)).0 ≡ 2
unfolding int_to_str uint_to_base low_digits
two_digits n ge lt =
    let some_left : (n / 10 == 0) ≡ false = ground arith in
    let none_left : n / 10 / 10 ≡ 0 = omega arith in
    uint_to_base-length n 10 ∙ rw some_left (rw none_left refl)
