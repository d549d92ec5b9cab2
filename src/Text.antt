-- ===== src/Text.antt =====
-- The string functions of Kernel/libc/libc.c. A C string is the list of its bytes; reading past the
-- list finds the terminating NUL, and a 0 inside the list ends the string before.
pub mod Compare
pub mod Digits
pub mod Words
mod Tests
use tpe_so_2023_tp.Base.{
  ℕ, zero, suc, ◌+◌, ◌-◌, ◌*◌, ◌/◌, ◌%◌, ◌^◌, List, [], ◌∷◌, ◌++◌, Bool, true, false, ◌&&◌, ◌||◌,
  not, ltb, leb, ◌==◌, if◌then◌else◌, ℤ, pos, negsuc, minus_one, take, drop, length, set, get_or,
}

-- `while (length--) dst[length] = chr`, on the bytes at `destination`.
pub memset : List ℕ → ℕ → ℕ → List ℕ
memset destination chr zero = destination
memset destination chr (suc n) = memset (set destination n (chr % 256)) chr n

-- A block as 32-bit words, each of four bytes, the low byte first, and back.
abbrev word : ℕ → ℕ → ℕ → ℕ → ℕ
word a b c d = a + 256 * (b + 256 * (c + 256 * d))

load_words : ℕ → List ℕ → List ℕ
load_words (suc n) (a ∷ b ∷ c ∷ d ∷ rest) = word a b c d ∷ load_words n rest
load_words _ _ = []

store_words : List ℕ → List ℕ
store_words [] = []
store_words (w ∷ ws) =
    w % 256 ∷ w / 256 % 256 ∷ w / 65536 % 256 ∷ w / 16777216 % 256 ∷ store_words ws

-- The bytes that memcpy stores, of those at `source`: by words if both addresses and the length are
-- multiples of four, else by bytes.
pub memcpy : ℕ → ℕ → List ℕ → ℕ → List ℕ
memcpy destination source bytes n =
    if destination % 4 == 0 && source % 4 == 0 && n % 4 == 0
    then store_words (load_words (n / 4) bytes)
    else take n bytes

unfoldable pub strlen : List ℕ → ℕ
strlen [] = 0
strlen (c ∷ s) = let rest = strlen s in if c == 0 then 0 else rest + 1

abbrev pub is_digit : ℕ → Bool
is_digit c = leb b'0' c && leb c b'9'

abbrev pub is_lower : ℕ → Bool
is_lower c = leb b'a' c && leb c b'z'

abbrev pub is_upper : ℕ → Bool
is_upper c = leb b'A' c && leb c b'Z'

unfoldable pub isalnum : ℕ → Bool
isalnum c = is_digit c || is_lower c || is_upper c

unfoldable pub isalpha : ℕ → Bool
isalpha c = is_lower c || is_upper c

-- The bytes that strcpy stores before the terminating NUL.
unfoldable pub strcpy : List ℕ → List ℕ
strcpy [] = []
strcpy (c ∷ s) = let rest = strcpy s in if c == 0 then [] else c ∷ rest

unfoldable pub strcmp : List ℕ → List ℕ → ℤ
strcmp [] [] = pos 0
strcmp [] (d ∷ t) = if d == 0 then pos 0 else minus_one
strcmp (c ∷ s) [] = if c == 0 then pos 0 else minus_one
strcmp (c ∷ s) (d ∷ t) =
    let rest = strcmp s t in
    if c == 0 && d == 0 then pos 0 else if not (c == d) then minus_one else rest

unfoldable pub strncmp : List ℕ → List ℕ → ℕ → ℤ
strncmp s t zero = pos 0
strncmp [] [] (suc n) = pos 0
strncmp [] (d ∷ t) (suc n) = if d == 0 then pos 0 else minus_one
strncmp (c ∷ s) [] (suc n) = if c == 0 then pos 0 else minus_one
strncmp (c ∷ s) (d ∷ t) (suc n) =
    let rest = strncmp s t n in
    if c == 0 && d == 0 then pos 0 else if not (c == d) then minus_one else rest

-- The character of a digit.
abbrev pub digit_char : ℕ → ℕ
digit_char r = if ltb r 10 then r + b'0' else r + b'A' - 10

-- The do-while loop: the digits, the lowest first. A `value` below 2 ^ 64 has at most 64 of them in
-- any base from 2 on.
unfoldable pub low_digits : ℕ → ℕ → ℕ → List ℕ
low_digits zero value base = []
low_digits (suc fuel) value base =
    let rest = low_digits fuel (value / base) base in
    digit_char (value % base) ∷ (if value / base == 0 then [] else rest)

-- `while (p1 < p2)`: the two pointers, as indices of `buff`, swap what they point at and step
-- towards one another.
pub swap_ends : ℕ → List ℕ → ℕ → ℕ → List ℕ
swap_ends zero buff p1 p2 = buff
swap_ends (suc fuel) buff p1 p2 =
    let tmp = get_or buff p1 0 in
    let swapped = set (set buff p1 (get_or buff p2 0)) p2 tmp in
    let rest = swap_ends fuel swapped (p1 + 1) (p2 - 1) in if ltb p1 p2 then rest else buff

-- The number of digits, and the text at `buff`.
pub uint_to_base : ℕ → ℕ → ℕ × List ℕ
uint_to_base value base =
    let digits = low_digits 64 value base in
    (length digits, swap_ends (length digits) digits 0 (length digits - 1))

-- `value` is an int64_t.
pub int_to_str : ℤ → ℕ × List ℕ
unfolding uint_to_base
int_to_str (pos n) = uint_to_base n 10
int_to_str (negsuc n) = let (digits, text) = uint_to_base (n + 1) 10 in (digits + 1, b'-' ∷ text)
