-- ===== src/Prelude/Updates.antt =====
-- Tables as lists of rows: the rows that an UPDATE changes, and what it leaves of the others.
use Prim.Native.Nat.{ℕ, ◌+◌, ◌≤◌}
use native.Mathlib.Omega.{arith}
use mathlib.Core.Logic.{inl, inr}
use mathlib.Core.Path.{◌≡◌, refl}
use mathlib.Core.Bool.{Bool, true, false}
use mathlib.Core.List.{List, [], ◌∷◌, ◌++◌}
use mews.Prelude.Tests.{if◌then◌else◌, if_cases, Bool-cases}
use mews.Prelude.Lists.{length, keep, any, All, any_imp}

module _ {A : Type 0} where
  -- `UPDATE … WHERE`
  unfoldable pub update_where : (A → Bool) → (A → A) → List A → List A
  update_where p f [] = []
  update_where p f (x ∷ xs) = let rest = update_where p f xs in if p x then f x ∷ rest else x ∷ rest

  -- The number of rows that a WHERE clause selects.
  unfoldable pub count : (A → Bool) → List A → ℕ
  count p xs = length (keep p xs)

  module _ (R : A → A → Type 0) where
    -- Each row of the first table has its successor in the second one, which may have further rows.
    abbrev pub Updated : List A → List A → Type 0
    Updated [] ys = Unit
    Updated (x ∷ xs) [] = ⊥
    Updated (x ∷ xs) (y ∷ ys) = R x y × Updated xs ys

    pub Updated-refl : ((x : A) → R x x) → (xs : List A) → Updated xs xs
    Updated-refl r [] = tt
    Updated-refl r (x ∷ xs) = (r x, Updated-refl r xs)

    pub Updated-trans :
        ((x y z : A) → R x y → R y z → R x z)
        → (xs ys zs : List A) → Updated xs ys
        → Updated ys zs
        → Updated xs zs
    Updated-trans t [] ys zs h k = tt
    Updated-trans t (x ∷ xs) [] zs h k = absurd h
    Updated-trans t (x ∷ xs) (y ∷ ys) [] h k = absurd k
    Updated-trans t (x ∷ xs) (y ∷ ys) (z ∷ zs) h k =
        (t x y z h.0 k.0, Updated-trans t xs ys zs h.1 k.1)

    pub Updated-append : ((x : A) → R x x) → (xs new : List A) → Updated xs (xs ++ new)
    Updated-append r [] new = tt
    Updated-append r (x ∷ xs) new = (r x, Updated-append r xs new)

    pub Updated-update_where :
        ((x : A) → R x x)
        → (p : A → Bool) (f : A → A) (xs : List A) → All (λ x. p x ≡ true → R x (f x)) xs
        → Updated xs (update_where p f xs)
    unfolding update_where
    Updated-update_where r p f [] h = tt
    Updated-update_where r p f (x ∷ xs) h =
        if_cases (λ (ys : List A). Updated (x ∷ xs) ys) (p x) _ _
          (λ hit. (h.0 hit, Updated-update_where r p f xs h.1))
          (λ miss. (r x, Updated-update_where r p f xs h.1))

  pub count-append :
      (p : A → Bool) (xs : List A) (x : A)
      → count p (xs ++ x ∷ []) ≡ count p xs + (if p x then 1 else 0)
  unfolding count keep
  count-append p [] x = ground arith
  count-append p (y ∷ xs) x = ground (arith, count-append p xs x)

  -- A change that makes no row pass a test selects no more of them.
  pub count-update_where :
      (p q : A → Bool) (f : A → A) (xs : List A)
      → ((x : A) → p (f x) ≡ true → p x ≡ true)
      → count p (update_where q f xs) ≤ count p xs
  unfolding count keep update_where
  count-update_where p q f [] h = ground arith
  count-update_where p q f (x ∷ xs) h = ground (arith, h x, count-update_where p q f xs h)

  pub any-update_where :
      (p q : A → Bool) (f : A → A) (xs : List A)
      → ((x : A) → p x ≡ true → p (f x) ≡ true)
      → any p xs ≡ true
      → any p (update_where q f xs) ≡ true
  unfolding any update_where
  any-update_where p q f [] h k = k
  any-update_where p q f (x ∷ xs) h k = ground (arith, h x, any-update_where p q f xs h)

  pub count-none :
      (p c : A → Bool) (xs : List A)
      → any c xs ≡ false
      → ((x : A) → p x ≡ true → c x ≡ true)
      → count p xs ≡ 0
  unfolding count keep any
  count-none p c [] h k = ground arith
  count-none p c (x ∷ xs) h k = ground (arith, k x, count-none p c xs)

  pub none-count : (p : A → Bool) (xs : List A) → count p xs ≡ 0 → any p xs ≡ false
  unfolding count keep any
  none-count p [] h = refl
  none-count p (x ∷ xs) h = ground (arith, none-count p xs)

  All-count :
      (p : A → Bool) (Q : A → Type 0) (xs : List A)
      → count p xs ≡ 0
      → All (λ x. p x ≡ true → Q x) xs
  unfolding count keep
  All-count p Q [] h = tt
  All-count p Q (x ∷ xs) h = (λ k. absurd (ground arith), All-count p Q xs (ground arith))

  -- Where at most one row passes a test, what one such row passes, all do.
  pub count-All :
      (p q r : A → Bool) (xs : List A)
      → ((x : A) → r x ≡ true → (p x ≡ true) × (q x ≡ true))
      → count p xs ≤ 1
      → any r xs ≡ true
      → All (λ x. p x ≡ true → q x ≡ true) xs
  unfolding count keep any
  count-All p q r [] h k l = tt
  count-All p q r (x ∷ xs) h k l = elim (Bool-cases (r x)) [
    | inl hit ↦ (λ z. (h x hit).1, All-count p (λ y. q y ≡ true) xs (ground (arith, h x hit)))
    | inr miss ↦ elim (Bool-cases (p x)) [
      | inl passes ↦ absurd (ground (arith, none-count p xs, any_imp r p xs))
      | inr fails ↦ (λ z. absurd (ground arith), count-All p q r xs h (ground arith) (ground arith))
    ]
  ]

  pub count-any : (p : A → Bool) (xs : List A) → count p xs ≡ 1 → any p xs ≡ true
  unfolding count keep any
  count-any p [] h = absurd (ground arith)
  count-any p (x ∷ xs) h = ground (arith, count-any p xs)

  -- What each changed row has, and each row that is left.
  pub All-update_where {κ} :
      (Q : A → Type κ) (p : A → Bool) (f : A → A) (xs : List A)
      → All (λ x. (p x ≡ true → Q (f x)) × (p x ≡ false → Q x)) xs
      → All Q (update_where p f xs)
  unfolding update_where
  All-update_where Q p f [] h = tt
  All-update_where Q p f (x ∷ xs) h =
      if_cases (λ (ys : List A). All Q ys) (p x) _ _
        (λ hit. (h.0.0 hit, All-update_where Q p f xs h.1))
        (λ miss. (h.0.1 miss, All-update_where Q p f xs h.1))

  pub All-both {κ μ} :
      (P : A → Type κ) (Q : A → Type μ) (xs : List A)
      → All P xs
      → All Q xs
      → All (λ x. P x × Q x) xs
  All-both P Q [] h k = tt
  All-both P Q (x ∷ xs) h k = ((h.0, k.0), All-both P Q xs h.1 k.1)
