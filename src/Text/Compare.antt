-- ===== src/Text/Compare.antt =====
-- The comparisons and copies of strings in Kernel/libc/libc.c against the text that a string holds.
use tpe_so_2023_tp.Base.{
  ℕ, zero, suc, ◌≡◌, ◌↔◌, ◌≢◌, refl, arith, List, [], ◌∷◌, ◌==◌, if◌then◌else◌, pos, minus_one,
  length, take, ◌⊎◌, inl, inr,
}
use tpe_so_2023_tp.Text.{strlen, strcpy, strcmp, strncmp}

-- The bytes before the terminating NUL.
unfoldable pub text : List ℕ → List ℕ
text [] = []
text (c ∷ s) = if c == 0 then [] else c ∷ text s

-- strlen is the length of the text and strcpy stores the text.
pub strlen-text : (s : List ℕ) → (strlen s ≡ length (text s)) × (strcpy s ≡ text s)
unfolding strlen strcpy text
strlen-text [] = (refl, refl)
strlen-text (c ∷ s) = (ground (arith, strlen-text s), ground (arith, strlen-text s))

strcmp_cases :
    (s t : List ℕ)
    → ((strcmp s t ≡ pos 0) × (text s ≡ text t)) ⊎ ((strcmp s t ≡ minus_one) × (text s ≢ text t))
unfolding strcmp text
strcmp_cases [] [] = inl (refl, refl)
strcmp_cases [] (d ∷ t) = ground arith
strcmp_cases (c ∷ s) [] = ground arith
strcmp_cases (c ∷ s) (d ∷ t) = ground (arith, strcmp_cases s t)

-- strcmp returns 0 exactly when the two strings hold the same text, and -1 otherwise.
pub strcmp_iff :
    (s t : List ℕ)
    → ((strcmp s t ≡ pos 0) ↔ (text s ≡ text t)) × ((strcmp s t ≡ pos 0) ⊎ (strcmp s t ≡ minus_one))
strcmp_iff s t = elim (strcmp_cases s t) [
  | inl (z, e) ↦ ((λ _. e, λ _. z), inl z)
  | inr (m, n) ↦ ((λ z. absurd (ground arith), λ e. absurd (n e)), inr m)
]

strncmp_cases :
    (s t : List ℕ) (n : ℕ)
    → ((strncmp s t n ≡ pos 0) × (take n (text s) ≡ take n (text t)))
      ⊎ ((strncmp s t n ≡ minus_one) × (take n (text s) ≢ take n (text t)))
unfolding strncmp text
strncmp_cases s t zero = inl (refl, refl)
strncmp_cases [] [] (suc n) = inl (refl, refl)
strncmp_cases [] (d ∷ t) (suc n) = ground arith
strncmp_cases (c ∷ s) [] (suc n) = ground arith
strncmp_cases (c ∷ s) (d ∷ t) (suc n) = ground (arith, strncmp_cases s t n)

-- strncmp returns 0 exactly when the first n bytes of the two texts are the same.
pub strncmp_iff :
    (s t : List ℕ) (n : ℕ) → (strncmp s t n ≡ pos 0) ↔ (take n (text s) ≡ take n (text t))
strncmp_iff s t n = elim (strncmp_cases s t n) [
  | inl (z, e) ↦ (λ _. e, λ _. z)
  | inr (m, d) ↦ (λ z. absurd (ground arith), λ e. absurd (d e))
]
