-- ===== src/Text/Tests.antt =====
-- Runs of the string functions, and their theorems at such inputs.
use tpe_so_2023_tp.Base.{ℕ, ◌≡◌, refl, List, [], ◌∷◌, negsuc, length}
use tpe_so_2023_tp.Text.{
  memcpy, strlen, strcpy, low_digits, swap_ends, uint_to_base, int_to_str, load_words, store_words,
}
use tpe_so_2023_tp.Text.Compare.{text, strlen-text}

abbrev ab : List ℕ
ab = b'a' ∷ b'b' ∷ 0 ∷ 7 ∷ []

hex_runs : uint_to_base 0x2f 16 ≡ (2, b'2' ∷ b'F' ∷ [])
unfolding uint_to_base low_digits swap_ends
hex_runs = refl

negative_runs : int_to_str (negsuc 119) ≡ (4, b'-' ∷ b'1' ∷ b'2' ∷ b'0' ∷ [])
unfolding int_to_str uint_to_base low_digits swap_ends
negative_runs = refl

memcpy_runs : memcpy 4 8 (1 ∷ 2 ∷ 3 ∷ 4 ∷ 5 ∷ []) 4 ≡ 1 ∷ 2 ∷ 3 ∷ 4 ∷ []
unfolding memcpy load_words store_words
memcpy_runs = refl

strlen-text_example : (strlen ab ≡ length (text ab)) × (strcpy ab ≡ text ab)
strlen-text_example = strlen-text ab
