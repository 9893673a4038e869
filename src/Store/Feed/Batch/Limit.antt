-- ===== src/Store/Feed/Batch/Limit.antt =====
-- What holds of all items holds of a prefix of a part of them.
use mews.Prelude.{ℕ, zero, suc, ◌≤◌, ◌<◌, ◌≡◌, refl, List, [], ◌∷◌, All, take, length, arith}

module _ {A : Type 0} where
  pub length-take-le : (n : ℕ) (xs : List A) → length (take n xs) ≤ n
  unfolding take
  length-take-le zero xs = omega arith
  length-take-le (suc n) [] = omega arith
  length-take-le (suc n) (x ∷ xs) = omega (arith, length-take-le n xs)

  pub All-take {κ} : (P : A → Type κ) (n : ℕ) (xs : List A) → All P xs → All P (take n xs)
  unfolding take
  All-take P zero xs h = tt
  All-take P (suc n) [] h = tt
  All-take P (suc n) (x ∷ xs) h = (h.0, All-take P n xs h.1)

  pub take-ne-nil :
      (n : ℕ) (x : A) (xs : List A) → 0 < n → (ys : List A) × (take n (x ∷ xs) ≡ x ∷ ys)
  unfolding take
  take-ne-nil zero x xs h = absurd (omega arith)
  take-ne-nil (suc n) x xs h = (take n xs, refl)
