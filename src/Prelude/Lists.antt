-- ===== src/Prelude/Lists.antt =====
-- Lists over the native numbers: lengths, prefixes, tests on all or on some item.
use Prim.Native.Nat.{ℕ, zero, suc, ◌+◌, ◌≤◌}
use mathlib.Core.Logic.{◌⊎◌, inl, inr, ◌↔◌}
use mathlib.Core.Path.{◌≡◌, refl, ap, sym, subst}
use mathlib.Core.Bool.{Bool, true, false, ◌&&◌, ◌||◌}
use mathlib.Core.Option.{Option, none, some}
use mathlib.Core.List.{List, [], ◌∷◌, ◌++◌, map}
use native.Mathlib.Omega.{arith}
use mews.Prelude.Tests.{if◌then◌else◌, Bool-cases}

module _ {ℓ} {A : Type ℓ} where
  abbrev pub length : List A → ℕ
  length [] = 0
  length (x ∷ xs) = suc (length xs)

  unfoldable pub drop : ℕ → List A → List A
  drop zero xs = xs
  drop (suc n) [] = []
  drop (suc n) (x ∷ xs) = drop n xs

  unfoldable pub take : ℕ → List A → List A
  take zero xs = []
  take (suc n) [] = []
  take (suc n) (x ∷ xs) = x ∷ take n xs

  abbrev pub get_elem? : List A → ℕ → Option A
  get_elem? [] i = none
  get_elem? (x ∷ xs) zero = some x
  get_elem? (x ∷ xs) (suc i) = get_elem? xs i

  unfoldable pub any : (A → Bool) → List A → Bool
  any p [] = false
  any p (x ∷ xs) = p x || any p xs

  unfoldable pub all : (A → Bool) → List A → Bool
  all p [] = true
  all p (x ∷ xs) = p x && all p xs

  -- The items that pass the test, in order: `Iterator::filter`, a `WHERE` clause.
  unfoldable pub keep : (A → Bool) → List A → List A
  keep p [] = []
  keep p (x ∷ xs) = let rest = keep p xs in if p x then x ∷ rest else rest

  -- The first item that passes the test.
  unfoldable pub find : (A → Bool) → List A → Option A
  find p [] = none
  find p (x ∷ xs) = if p x then some x else find p xs

  -- Every item has the property.
  abbrev pub All {κ} : (A → Type κ) → List A → Type κ
  All P [] = Unit
  All P (x ∷ xs) = P x × All P xs

  pub List-cases : (xs : List A) → (xs ≡ []) ⊎ ((y : A) × (ys : List A) × (xs ≡ y ∷ ys))
  List-cases [] = inl refl
  List-cases (x ∷ xs) = inr (x, xs, refl)

  pub length-append : (xs ys : List A) → length (xs ++ ys) ≡ length xs + length ys
  length-append [] ys = omega arith
  length-append (x ∷ xs) ys = omega (arith, length-append xs ys)

  pub take-drop : (n : ℕ) (xs : List A) → take n xs ++ drop n xs ≡ xs
  unfolding take drop
  take-drop zero xs = refl
  take-drop (suc n) [] = refl
  take-drop (suc n) (x ∷ xs) = ap (◌∷◌ x) (take-drop n xs)

  pub All-append {κ} : (P : A → Type κ) (xs ys : List A) → All P xs → All P ys → All P (xs ++ ys)
  All-append P [] ys h k = k
  All-append P (x ∷ xs) ys h k = (h.0, All-append P xs ys h.1 k)

  pub All-keep {κ} : (P : A → Type κ) (p : A → Bool) (xs : List A) → All P xs → All P (keep p xs)
  unfolding keep
  All-keep P p [] h = h
  All-keep P p (x ∷ xs) h = ground (arith, All-keep P p xs h.1)

  pub length-keep-le : (p : A → Bool) (xs : List A) → length (keep p xs) ≤ length xs
  unfolding keep
  length-keep-le p [] = omega arith
  length-keep-le p (x ∷ xs) = ground (arith, length-keep-le p xs)

  pub any_imp :
      (p q : A → Bool) (xs : List A)
      → any p xs ≡ true
      → ((x : A) → p x ≡ true → q x ≡ true)
      → any q xs ≡ true
  unfolding any
  any_imp p q [] h k = h
  any_imp p q (x ∷ xs) h k = ground (arith, k x, any_imp p q xs)

  -- An item that passes the test is still there where all that pass it are kept.
  pub any-keep :
      (p k : A → Bool) (xs : List A)
      → any p xs ≡ true
      → All (λ x. p x ≡ true → k x ≡ true) xs
      → any p (keep k xs) ≡ true
  unfolding any keep
  any-keep p k [] h a = h
  any-keep p k (x ∷ xs) h a = ground (arith, any-keep p k xs)

  pub any-append : (p : A → Bool) (xs ys : List A) → any p (xs ++ ys) ≡ (any p xs || any p ys)
  unfolding any
  any-append p [] ys = refl
  any-append p (x ∷ xs) ys = ground (arith, any-append p xs ys)

  pub All-of {κ} : (P : A → Type κ) (xs : List A) → ((x : A) → P x) → All P xs
  All-of P [] h = tt
  All-of P (x ∷ xs) h = (h x, All-of P xs h)

  pub All-imp {κ μ} :
      (P : A → Type κ) (Q : A → Type μ) (xs : List A) → All P xs → ((x : A) → P x → Q x) → All Q xs
  All-imp P Q [] h k = tt
  All-imp P Q (x ∷ xs) h k = (k x h.0, All-imp P Q xs h.1 k)

  pub any-false : (p : A → Bool) (xs : List A) → All (λ x. p x ≡ false) xs → any p xs ≡ false
  unfolding any
  any-false p [] h = refl
  any-false p (x ∷ xs) h = ground (arith, any-false p xs h.1)

  pub find_none : (p : A → Bool) (xs : List A) → find p xs ≡ none → any p xs ≡ false
  unfolding any find
  find_none p [] h = refl
  find_none p (x ∷ xs) h = ground (arith, find_none p xs)

  -- What is found passes the test, and has what every item has.
  pub find-some {κ} :
      (P : A → Type κ) (p : A → Bool) (xs : List A) {x : A}
      → find p xs ≡ some x
      → All P xs
      → (p x ≡ true) × P x
  unfolding find
  find-some P p [] h a = absurd (cc)
  find-some P p (y ∷ xs) {x} h a = elim (Bool-cases (p y)) [
    | inl hit ↦ let same : y ≡ x = ground arith in subst (λ z. (p z ≡ true) × P z) same (hit, a.0)
    | inr miss ↦ find-some P p xs (ground arith) a.1
  ]

  -- A test that some item passes, and that forces another test on each item.
  pub any_of_any :
      (p q : A → Bool) (xs : List A)
      → any p xs ≡ true
      → All (λ x. p x ≡ true → q x ≡ true) xs
      → any q xs ≡ true
  unfolding any
  any_of_any p q [] h k = h
  any_of_any p q (x ∷ xs) h k = ground (arith, any_of_any p q xs)

module _ {A : Type 0} where
  -- The item stands in the list.
  abbrev pub In : A → List A → Type 0
  In x [] = ⊥
  In x (y ∷ ys) = (x ≡ y) ⊎ In x ys

  pub In-append : (x : A) (xs ys : List A) → In x (xs ++ ys) ↔ (In x xs ⊎ In x ys)
  In-append x [] ys = ground arith
  In-append x (z ∷ xs) ys = ground (arith, In-append x xs ys)

  pub In-keep : (x : A) (p : A → Bool) (xs : List A) → In x (keep p xs) ↔ (In x xs × (p x ≡ true))
  unfolding keep
  In-keep x p [] = ground arith
  In-keep x p (y ∷ xs) = ground (arith, In-keep x p xs)

  -- What holds of every item holds of one in the list.
  pub All-In {κ} : (P : A → Type κ) (x : A) (xs : List A) → All P xs → In x xs → P x
  All-In P x [] h i = absurd i
  All-In P x (y ∷ xs) h (inl e) = subst P (sym e) h.0
  All-In P x (y ∷ xs) h (inr i) = All-In P x xs h.1 i

module _ {ℓ κ} {A : Type ℓ} {B : Type κ} where
  pub any-map : (p : B → Bool) (h : A → B) (xs : List A) → any p (map h xs) ≡ any (λ x. p (h x)) xs
  unfolding any
  any-map p h [] = refl
  any-map p h (x ∷ xs) = ap (◌||◌ (p (h x))) (any-map p h xs)

  pub All-map {μ} :
      (P : B → Type μ) (h : A → B) (xs : List A) → All (λ x. P (h x)) xs → All P (map h xs)
  All-map P h [] a = tt
  All-map P h (x ∷ xs) a = (a.0, All-map P h xs a.1)
