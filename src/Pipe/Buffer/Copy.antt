-- ===== src/Pipe/Buffer/Copy.antt =====
-- What a block of bytes holds after the copies of Kernel/ipc/pipe.c.
use tpe_so_2023_tp.Base.{
  ℕ, zero, suc, ◌+◌, ◌-◌, ◌<◌, ◌≡◌, refl, ap, arith, List, [], ◌∷◌, length, get_or, ltb, leb,
  if◌then◌else◌, ◌&&◌,
}
use tpe_so_2023_tp.Pipe.Buffer.{overwrite}

pub length-overwrite : (bs : List ℕ) (i : ℕ) (xs : List ℕ) → length (overwrite bs i xs) ≡ length bs
unfolding overwrite
length-overwrite [] i xs = refl
length-overwrite (b ∷ bs) zero [] = refl
length-overwrite (b ∷ bs) zero (x ∷ xs) = ap suc (length-overwrite bs zero xs)
length-overwrite (b ∷ bs) (suc i) xs = ap suc (length-overwrite bs i xs)

-- An entry in the copied range is the copied byte; any other is as it was.
pub get_or-overwrite :
    (bs : List ℕ) (i : ℕ) (xs : List ℕ) (j : ℕ)
    → j < length bs
    → get_or (overwrite bs i xs) j 0
      ≡ (if leb i j && ltb j (i + length xs) then get_or xs (j - i) 0 else get_or bs j 0)
unfolding overwrite
get_or-overwrite [] i xs j h = absurd (omega arith)
get_or-overwrite (b ∷ bs) zero [] j h = ground arith
get_or-overwrite (b ∷ bs) zero (x ∷ xs) zero h = ground arith
get_or-overwrite (b ∷ bs) zero (x ∷ xs) (suc j) h = ground (arith, get_or-overwrite bs zero xs j)
get_or-overwrite (b ∷ bs) (suc i) xs zero h = ground arith
get_or-overwrite (b ∷ bs) (suc i) xs (suc j) h = ground (arith, get_or-overwrite bs i xs j)
