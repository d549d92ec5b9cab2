-- ===== src/Stdlib.antt =====
-- Userland/SampleCodeModule/libc/stdlib.c: the strings and numbers of the user programs. A C string is the list
-- of its bytes, as in Text.antt; reading past the list finds the terminating NUL.
pub mod Numbers
pub mod Colors
pub mod Tokens
mod Tests
use tpe_so_2023_tp.Base.{
  ℕ, zero, suc, ◌+◌, ◌-◌, ◌*◌, ◌^◌, ◌%◌, Bool, true, false, ◌&&◌, ◌||◌, not, ltb, leb, ◌==◌,
  if◌then◌else◌, List, [], ◌∷◌, ◌++◌, get_or, drop, take, ◌≡◌, ◌≢◌, arith, ℤ, pos, negsuc, sub_ℕ,
  Outcome, returned, fault,
}
use tpe_so_2023_tp.Text.{is_digit}
use tpe_so_2023_tp.Text as Text

-- memcpy, memset and uint_to_base are the kernel's functions word for word.
pub memcpy : ℕ → ℕ → List ℕ → ℕ → List ℕ
memcpy destination source bytes n = Text.memcpy destination source bytes n

pub memset : List ℕ → ℕ → ℕ → List ℕ
memset destination c n = Text.memset destination c n

pub uint_to_base : ℕ → ℕ → ℕ × List ℕ
uint_to_base value base = Text.uint_to_base value base

pub strlen : List ℕ → ℕ
strlen [] = 0
strlen (c ∷ buff) = let rest = strlen buff in if c == 0 then 0 else rest + 1

-- 1 for equal strings, 0 for others.
pub strcmp : List ℕ → List ℕ → ℕ
strcmp [] s2 = if get_or s2 0 0 == 0 then 1 else 0
strcmp (c ∷ s1) [] = if c == 0 then 1 else 0
strcmp (c ∷ s1) (d ∷ s2) =
    let rest = strcmp s1 s2 in
    if not (c == 0) && not (d == 0) && c == d then rest else if c == 0 && d == 0 then 1 else 0

-- `char` is signed and `token` is not, so no character from 128 on equals a token.
abbrev pub is_token : ℕ → ℕ → Bool
is_token token c = c == token && ltb c 128

-- `*(buff + 1) != token && *(buff + 1) != 0`
abbrev pub begins_word : ℕ → List ℕ → Bool
begins_word token buff = not (is_token token (get_or buff 0 0)) && not (get_or buff 0 0 == 0)

-- The while loop, `i` characters into the text with `args_len` arguments found: where the further ones begin,
-- and what the rest of the text becomes.
pub tokens_from : ℕ → ℕ → List ℕ → ℕ → ℕ → List ℕ × List ℕ
tokens_from size token [] i args_len = ([], [])
tokens_from size token (c ∷ buff) i args_len =
    let (args, text) = tokens_from size token buff (i + 1) args_len in
    let (args', text') = tokens_from size token buff (i + 1) (args_len + 1) in
    if c == 0
    then ([], c ∷ buff)
    else if not (is_token token c)
    then (args, c ∷ text)
    else if not (begins_word token buff)
    then (args, 0 ∷ text)
    else if ltb size args_len
    then ([], 0 ∷ buff)
    else ((i + 1) ∷ args', 0 ∷ text')

-- The arguments as offsets in `buff`, and `buff` with the tokens overwritten; args_len is the number of them.
pub strtok : List ℕ → ℕ → ℕ → List ℕ × List ℕ
strtok buff token size =
    let (args, text) = tokens_from size token buff 0 0 in
    let (args', text') = tokens_from size token buff 0 1 in
    if begins_word token buff then (0 ∷ args', text') else (args, text)

-- The digits are copied behind the sign.
pub int_to_str : ℤ → ℕ × List ℕ
int_to_str (pos n) = uint_to_base n 10
int_to_str (negsuc n) = let (digits, text) = uint_to_base (n + 1) 10 in (digits + 1, b'-' ∷ text)

abbrev pub is_hex_char : ℕ → Bool
is_hex_char c = is_digit c || leb b'A' c && leb c b'F' || leb b'a' c && leb c b'f'

-- The loop of is_hex_color_code, on the characters before the NUL.
pub all_hex : List ℕ → Bool
all_hex [] = true
all_hex (c ∷ code) =
    let rest = all_hex code in if c == 0 then true else if is_hex_char c then rest else false

pub is_hex_color_code : List ℕ → ℕ
is_hex_color_code code =
    let len = strlen code in
    if (not (len == 7) || not (get_or code 0 0 == b'#'))
      && (not (len == 8) || not (get_or code 0 0 == b'0') || not (get_or code 1 0 == b'x'))
    then 0
    else if all_hex (drop (if len == 7 then 1 else 2) code)
    then 1
    else 0

abbrev pub hex_value : ℕ → ℕ
hex_value c =
    if is_digit c
    then c - b'0'
    else if leb b'A' c && leb c b'F'
    then 10 + (c - b'A')
    else 10 + (c - b'a')

-- `(ret << 4) | value` of a uint32_t, where value is below 16.
pub read_hex : ℕ → List ℕ → ℕ
read_hex ret [] = ret
read_hex ret (c ∷ code) =
    let rest = read_hex ((ret * 16) % 2 ^ 32 + hex_value c) code in
    if c == 0 then ret else if is_hex_char c then rest else 0

pub hex_to_uint : List ℕ → ℕ
hex_to_uint code =
    if get_or code 0 0 == b'0' && get_or code 1 0 == b'x'
    then read_hex 0 (drop 2 code)
    else if get_or code 0 0 == b'#'
    then read_hex 0 (drop 1 code)
    else read_hex 0 code

-- The second loop of str_to_int; an `int` that leaves its range is the outcome `fault`, as the language leaves
-- it undefined.
pub read_int : ℕ → List ℕ → Outcome ℕ
read_int result [] = returned result
read_int result (c ∷ str) =
    let rest = read_int (result * 10 + (c - b'0')) str in
    if not (is_digit c)
    then returned result
    else if ltb (result * 10 + (c - b'0')) (2 ^ 31)
    then rest
    else fault

pub skip_blanks : List ℕ → List ℕ
skip_blanks [] = []
skip_blanks (c ∷ str) = let rest = skip_blanks str in if c == b' ' then rest else c ∷ str

abbrev with_sign : Bool → Outcome ℕ → Outcome ℤ
with_sign negative fault = fault
with_sign negative (returned n) = returned (if negative then sub_ℕ 0 n else pos n)

pub str_to_int : List ℕ → Outcome ℤ
str_to_int str =
    let text = skip_blanks str in
    if get_or text 0 0 == b'-'
    then with_sign true (read_int 0 (drop 1 text))
    else if get_or text 0 0 == b'+'
    then with_sign false (read_int 0 (drop 1 text))
    else with_sign false (read_int 0 text)

-- `result` is asm_malloc's answer to a request for both strings and the NUL, which nothing compares with NULL.
abbrev pub joined : List ℕ → List ℕ → List ℕ
joined s1 s2 = take (strlen s1) s1 ++ take (strlen s2) s2

pub strcat : ℕ → List ℕ → List ℕ → Outcome (List ℕ)
strcat result s1 s2 = if result == 0 then fault else returned (joined s1 s2)

pub strcat_returns :
    (result : ℕ) (s1 s2 : List ℕ) → result ≢ 0 → strcat result s1 s2 ≡ returned (joined s1 s2)
unfolding strcat
strcat_returns result s1 s2 some_block = ground arith
