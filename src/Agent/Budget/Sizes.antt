-- ===== src/Agent/Budget/Sizes.antt =====
-- The size of a JSON array of messages, and the fold that computes it with saturation.
use mews.Prelude.{
  ℕ, ◌+◌, ◌-◌, ◌≤◌, ◌<◌, min, ◌≡◌, ap, some, Option, String, List, [], ◌∷◌, arith, ltb,
  if◌then◌else◌, u64_mod, saturating_add,
}
use mews.Agent.Model.{ModelMessage}
use mews.Agent.Budget.{
  Json, ok, array_from, message_array_bytes, limit_of, context_budget_bytes, available_bytes,
  provider_of,
}
use mews.Agent.Model.{ModelRequest}

-- No request leaves as much room as a word can count.
limit_of-lt : (p : Option String) → limit_of p < u64_mod - 1
unfolding limit_of
limit_of-lt p = ground arith

pub available_bytes-lt :
    (json : Json) (r : ModelRequest) (n : ℕ) → available_bytes json r ≡ ok n → n < u64_mod - 1
unfolding available_bytes context_budget_bytes
available_bytes-lt json r n h = ground (arith, limit_of-lt (provider_of r.model))

module _ (size : ModelMessage → ℕ) where
  total : List ModelMessage → ℕ
  total [] = 0
  total (m ∷ ms) = size m + 1 + total ms

  -- Two brackets, the items, and a comma between any two.
  unfoldable pub array_bytes : List ModelMessage → ℕ
  unfolding total
  array_bytes [] = 2
  array_bytes (m ∷ ms) = 2 + size m + total ms

  pub array_bytes-ge : (ms : List ModelMessage) → 2 ≤ array_bytes ms
  unfolding array_bytes
  array_bytes-ge [] = omega arith
  array_bytes-ge (m ∷ ms) = omega arith

module _ (json : Json) (size : ModelMessage → ℕ)
    (sized : (m : ModelMessage) → json.message m ≡ some (size m))
    (nonempty : (m : ModelMessage) → 0 < size m) where
  array_from_lem :
      (b : ℕ) (ms : List ModelMessage)
      → 2 < b
      → b < u64_mod
      → array_from json b ms ≡ ok (min (b + total size ms) (u64_mod - 1))
  unfolding array_from total saturating_add
  array_from_lem b [] h k = ap ok (omega arith)
  array_from_lem b (m ∷ ms) h k = rw (sized m) (
      ground (
        arith,
        nonempty m,
        array_from_lem (min (min (b + 1) (u64_mod - 1) + size m) (u64_mod - 1)) ms,
      ))

  -- The fold gives the size of the array, or the greatest word.
  pub message_array_bytes_lem :
      (ms : List ModelMessage)
      → message_array_bytes json ms ≡ ok (min (array_bytes size ms) (u64_mod - 1))
  unfolding message_array_bytes array_bytes saturating_add
  message_array_bytes_lem [] = ap ok (omega arith)
  message_array_bytes_lem (m ∷ ms) =
      rw (sized m) (ground (arith, nonempty m, array_from_lem (min (2 + size m) (u64_mod - 1)) ms))

  pub array_bytes-cons :
      (m : ModelMessage) (ms : List ModelMessage)
      → array_bytes size (m ∷ ms)
        ≡ array_bytes size ms + (if ltb 2 (array_bytes size ms) then 1 else 0) + size m
  unfolding array_bytes
  array_bytes-cons m [] = omega arith
  array_bytes-cons m (n ∷ ms) = ground (arith, nonempty n)
