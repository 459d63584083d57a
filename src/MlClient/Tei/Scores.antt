-- ===== src/MlClient/Tei/Scores.antt =====
-- The list of the scores: writes and reads at an index.

use search_and_retrieval_sys.Prelude.{
  ℕ, zero, suc, ◌<◌, ◌≡◌, ◌≢◌, refl, ap, some, List, [], ◌∷◌, length, arith,
}
use search_and_retrieval_sys.Prelude.Int.{ℤ, pos, negsuc}
use search_and_retrieval_sys.Retrieval.{nth}
use search_and_retrieval_sys.MlClient.Tei.{set, zeros}

pub length-set : {A : Type 0} (xs : List A) (i : ℕ) (v : A) → length (set xs i v) ≡ length xs
length-set [] i v = refl
length-set (x ∷ xs) zero v = refl
length-set (x ∷ xs) (suc i) v = ap suc (length-set xs i v)

pub length-zeros : {A B : Type 0} (z : A) (xs : List B) → length (zeros z xs) ≡ length xs
length-zeros z [] = refl
length-zeros z (x ∷ xs) = ap suc (length-zeros z xs)

pub nth-set :
    {A : Type 0} (xs : List A) (i : ℕ) (v : A) → i < length xs → nth (set xs i v) i ≡ some v
nth-set [] i v h = absurd (omega arith)
nth-set (x ∷ xs) zero v h = refl
nth-set (x ∷ xs) (suc i) v h = nth-set xs i v (omega arith)

pub nth-set_other :
    {A : Type 0} (xs : List A) (i j : ℕ) (v : A) → i ≢ j → nth (set xs i v) j ≡ nth xs j
nth-set_other [] i j v h = refl
nth-set_other (x ∷ xs) zero zero v h = absurd (h refl)
nth-set_other (x ∷ xs) zero (suc j) v h = refl
nth-set_other (x ∷ xs) (suc i) zero v h = refl
nth-set_other (x ∷ xs) (suc i) (suc j) v h = nth-set_other xs i j v (λ e. h (ap suc e))

-- An index of a list with `n` entries.
abbrev pub Below : ℕ → ℤ → Type 0
Below n (pos i) = i < n
Below n (negsuc i) = ⊥
