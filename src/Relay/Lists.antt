-- ===== src/Relay/Lists.antt =====
-- Lists of connections: what an update at a place and an item at the end leave.
use mews.Prelude.{ℕ, zero, suc, ◌≡◌, refl, subst, some, List, [], ◌∷◌, ◌++◌, length, get_elem?, All}
use mews.Relay.Router.{update_at}

module _ {ℓ} {A : Type ℓ} where
  -- Every item stays at its place, up to a relation.
  pub record Extends {κ} (R : A → A → Type κ) (xs ys : List A) : Type (ℓ ⊔ κ) where
    pub at : (n : ℕ) (x : A) → get_elem? xs n ≡ some x → (y : A) × (get_elem? ys n ≡ some y) × R x y

  update_at-places {κ} :
      (R : A → A → Type κ) (refl_R : (x : A) → R x x) (f : A → A) (keeps : (x : A) → R x (f x))
      (i : ℕ) (xs : List A) (n : ℕ) (x : A)
      → get_elem? xs n ≡ some x
      → (y : A) × (get_elem? (update_at i f xs) n ≡ some y) × R x y
  unfolding update_at
  update_at-places R refl_R f keeps i [] n x h = absurd (cc)
  update_at-places R refl_R f keeps zero (a ∷ xs) zero x h =
      let same : a ≡ x = cc in (f a, refl, subst (λ t. R t (f a)) same (keeps a))
  update_at-places R refl_R f keeps zero (a ∷ xs) (suc n) x h = (x, h, refl_R x)
  update_at-places R refl_R f keeps (suc i) (a ∷ xs) zero x h = (x, h, refl_R x)
  update_at-places R refl_R f keeps (suc i) (a ∷ xs) (suc n) x h =
      update_at-places R refl_R f keeps i xs n x h

  pub get_elem?-append :
      (xs ys : List A) (n : ℕ) (x : A) → get_elem? xs n ≡ some x → get_elem? (xs ++ ys) n ≡ some x
  get_elem?-append [] ys n x h = absurd (cc)
  get_elem?-append (a ∷ xs) ys zero x h = h
  get_elem?-append (a ∷ xs) ys (suc n) x h = get_elem?-append xs ys n x h

  pub Extends-update_at {κ} :
      (R : A → A → Type κ)
      → ((x : A) → R x x)
      → (f : A → A) → ((x : A) → R x (f x))
      → (i : ℕ) → (xs : List A) → Extends R xs (update_at i f xs)
  Extends-update_at R refl_R f keeps i xs = record { at = update_at-places R refl_R f keeps i xs }

  pub Extends-append {κ} :
      (R : A → A → Type κ) → ((x : A) → R x x) → (xs ys : List A) → Extends R xs (xs ++ ys)
  Extends-append R refl_R xs ys = record {
    at = λ n x h. (x, get_elem?-append xs ys n x h, refl_R x);
  }

  pub get_elem?-last : (xs : List A) (x : A) → get_elem? (xs ++ x ∷ []) (length xs) ≡ some x
  get_elem?-last [] x = refl
  get_elem?-last (a ∷ xs) x = get_elem?-last xs x

  pub All-get_elem? {κ} :
      (P : A → Type κ) (xs : List A) (n : ℕ) (x : A) → All P xs → get_elem? xs n ≡ some x → P x
  All-get_elem? P [] n x h k = absurd (cc)
  All-get_elem? P (a ∷ xs) zero x h k = let same : a ≡ x = cc in subst P same h.0
  All-get_elem? P (a ∷ xs) (suc n) x h k = All-get_elem? P xs n x h.1 k

  -- An update of the item at a place.
  pub All-update_at {κ} :
      (P : A → Type κ) (f : A → A) (i : ℕ) (xs : List A)
      → ((x : A) → get_elem? xs i ≡ some x → P x → P (f x))
      → All P xs
      → All P (update_at i f xs)
  unfolding update_at
  All-update_at P f i [] k h = h
  All-update_at P f zero (a ∷ xs) k h = (k a refl h.0, h.1)
  All-update_at P f (suc i) (a ∷ xs) k h = (h.0, All-update_at P f i xs k h.1)
