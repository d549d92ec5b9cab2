-- ===== src/Stdlib/Tests.antt =====
-- Runs of Userland/SampleCodeModule/libc/stdlib.c, and the theorems on them.
use tpe_so_2023_tp.Base.{ℕ, ◌≡◌, refl, arith, List, [], ◌∷◌, take, negsuc, returned, fault, true}
use tpe_so_2023_tp.Stdlib.{
  strlen, strcmp, strtok, tokens_from, uint_to_base, int_to_str, str_to_int, hex_to_uint,
  is_hex_color_code, strcat, read_int, read_hex, skip_blanks,
}
use tpe_so_2023_tp.Stdlib.Numbers.{str_to_int-int_to_str, hex_to_uint-uint_to_base}
use tpe_so_2023_tp.Stdlib.Colors.{Judges, is_hex_color_code-hex_to_uint}
use tpe_so_2023_tp.Stdlib.Tokens.{word_starts, cut, strtok-word_starts, strtok-cut}

str_to_int-int_to_str_example : str_to_int (int_to_str (negsuc 41)).1 ≡ returned (negsuc 41)
str_to_int-int_to_str_example = str_to_int-int_to_str (negsuc 41) (omega arith) (omega arith)

hex_to_uint-uint_to_base_example :
    let text = (uint_to_base 48879 16).1 in
    (hex_to_uint text ≡ 48879)
    × (hex_to_uint (b'#' ∷ text) ≡ 48879)
    × (hex_to_uint (b'0' ∷ b'x' ∷ text) ≡ 48879)
hex_to_uint-uint_to_base_example = hex_to_uint-uint_to_base 48879 (omega arith)

-- "#ffA000"
abbrev orange : List ℕ
orange = b'#' ∷ b'f' ∷ b'f' ∷ b'A' ∷ b'0' ∷ b'0' ∷ b'0' ∷ []

is_hex_color_code-hex_to_uint_example : Judges orange (is_hex_color_code orange)
is_hex_color_code-hex_to_uint_example = is_hex_color_code-hex_to_uint orange

orange_value : hex_to_uint orange ≡ 16752640
unfolding hex_to_uint read_hex
orange_value = refl

-- "a b  c"
abbrev line : List ℕ
line = b'a' ∷ b' ' ∷ b'b' ∷ b' ' ∷ b' ' ∷ b'c' ∷ []

strtok-word_starts_example : (strtok line b' ' 1).0 ≡ take 2 (word_starts b' ' true line 0)
strtok-word_starts_example = strtok-word_starts line b' ' 1

-- Two arguments are stored where there is room for one.
two_of_one : (strtok line b' ' 1).0 ≡ 0 ∷ 2 ∷ []
unfolding strtok tokens_from
two_of_one = refl

strtok-cut_example : (strtok line b' ' 3).1 ≡ cut b' ' line
unfolding word_starts
strtok-cut_example = strtok-cut line b' ' 3 (omega arith)

-- "2147483648" and "-2147483648" overflow.
least :
    str_to_int (b'-' ∷ b'2' ∷ b'1' ∷ b'4' ∷ b'7' ∷ b'4' ∷ b'8' ∷ b'3' ∷ b'6' ∷ b'4' ∷ b'8' ∷ [])
    ≡ fault
unfolding str_to_int skip_blanks read_int
least = refl

compared : strcmp line line ≡ 1
unfolding strcmp
compared = refl

concatenated : strcat 4096 (b'a' ∷ []) (b'b' ∷ []) ≡ returned (b'a' ∷ b'b' ∷ [])
unfolding strcat strlen
concatenated = refl
