-- ===== src/Store/Session/Pages/Rising.antt =====
-- crates/mews-store/src/sessions.rs: lists whose numbers rise, and what of them is behind a number.
use mews.Prelude.{
  ℕ, ◌<◌, ◌≡◌, refl, ap, sym, ◌∙◌, true, false, Option, none, some, List, [], ◌∷◌, ◌++◌, keep, inl,
  inr, Bool-cases, arith, ltb,
}
use mews.Store.Session.Pages.{later}

module _ {T : Type 0} (sequence : T → ℕ) where
  -- The items have rising numbers, above a given one.
  abbrev pub Above : ℕ → List T → Type 0
  Above lo [] = Unit
  Above lo (e ∷ es) = (lo < sequence e) × Above (sequence e) es

  abbrev pub behind : Option ℕ → List T → List T
  behind c xs = keep (λ e. later c (sequence e)) xs

  -- The number of the last of them.
  abbrev pub last_of : Option ℕ → List T → Option ℕ
  last_of c [] = c
  last_of c (e ∷ es) = last_of (some (sequence e)) es

  behind-all :
      (c : Option ℕ) (lo : ℕ) (xs : List T)
      → ((n : ℕ) → lo < n → later c n ≡ true)
      → Above lo xs
      → behind c xs ≡ xs
  unfolding keep
  behind-all c lo [] h w = refl
  behind-all c lo (e ∷ xs) h w =
      rw (h (sequence e) w.0)
        (ap (◌∷◌ e) (behind-all c (sequence e) xs (λ n k. h n (omega (arith, w.0))) w.1))

  head-Above :
      (c : Option ℕ) (lo : ℕ) (xs : List T) {d : T} {rest : List T}
      → Above lo xs
      → behind c xs ≡ d ∷ rest
      → lo < sequence d
  unfolding keep
  head-Above c lo [] w h = absurd (cc)
  head-Above c lo (e ∷ xs) {d} {rest} w h = elim (Bool-cases (later c (sequence e))) [
    | inl hit ↦
        let whole : e ∷ behind c xs ≡ d ∷ rest = rw hit at h in
        let first : e ≡ d = cc whole in omega (arith, w.0, ap sequence first)
    | inr miss ↦
        let whole : behind c xs ≡ d ∷ rest = rw miss at h in
        omega (arith, w.0, head-Above c (sequence e) xs {d = d} {rest = rest} w.1 whole)
  ]

  -- Where one number is later than the cursor, the larger ones are.
  later-up : (c : Option ℕ) (m n : ℕ) → later c m ≡ true → m < n → later c n ≡ true
  later-up none m n h k = refl
  later-up (some a) m n h k = ground arith

  behind-tail :
      (c : Option ℕ) (lo : ℕ) (xs : List T) {d : T} {rest : List T}
      → Above lo xs
      → behind c xs ≡ d ∷ rest
      → behind (some (sequence d)) xs ≡ rest
  unfolding keep
  behind-tail c lo [] w h = absurd (cc)
  behind-tail c lo (e ∷ xs) {d} {rest} w h = elim (Bool-cases (later c (sequence e))) [
    | inl hit ↦
        let whole : e ∷ behind c xs ≡ d ∷ rest = rw hit at h in
        let first : e ≡ d = cc whole in
        let others : behind c xs ≡ rest = cc whole in
        let gone : ltb (sequence d) (sequence e) ≡ false = ground (arith, ap sequence first) in
        rw gone (
          behind-all (some (sequence d)) (sequence e) xs (λ n k. ground (arith, ap sequence first))
            w.1
          ∙ sym (behind-all c (sequence e) xs (λ n k. later-up c (sequence e) n hit k) w.1)
          ∙ others)
    | inr miss ↦
        let whole : behind c xs ≡ d ∷ rest = rw miss at h in
        let above = head-Above c (sequence e) xs {d = d} {rest = rest} w.1 whole in
        let gone : ltb (sequence d) (sequence e) ≡ false = ground arith in
        rw gone (behind-tail c (sequence e) xs {d = d} {rest = rest} w.1 whole)
  ]

  -- Behind the last of a prefix is what follows the prefix.
  pub behind-last_of :
      (c : Option ℕ) (lo : ℕ) (xs out rest : List T)
      → Above lo xs
      → behind c xs ≡ out ++ rest
      → behind (last_of c out) xs ≡ rest
  behind-last_of c lo xs [] rest w h = h
  behind-last_of c lo xs (d ∷ out) rest w h =
      behind-last_of (some (sequence d)) lo xs out rest w (behind-tail c lo xs w h)

  -- What follows a page: all behind its cursor, or nothing if it has none.
  abbrev pub follows : Option ℕ → List T → List T
  follows none xs = []
  follows (some c) xs = behind (some c) xs
