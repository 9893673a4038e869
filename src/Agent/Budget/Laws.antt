-- ===== src/Agent/Budget/Laws.antt =====
-- What `apply_context_budget` returns, in every case.
use mews.Prelude.{
  ℕ, ◌-◌, ◌≤◌, ◌<◌, ◌≡◌, refl, some, none, arith, drop, ap, leb, min, u64_mod, Bool-cases, inl, inr,
  ◌⊎◌, leb→le, leb→lt,
}
use mews.Agent.Model.{ModelMessage, ModelRequest}
use mews.Agent.Budget.{
  Json, Result, ok, err, latest_turn_exceeds_budget, Loop, running, stopped, failed, after_loop,
  available_bytes, apply_context_budget,
}
use mews.Agent.Budget.Sizes.{array_bytes, available_bytes-lt, message_array_bytes_lem}
use mews.Agent.Budget.Rounds.{Retainable, Best, Inv, rounds-Inv}

module _ (json : Json) (size : ModelMessage → ℕ)
    (sized : (m : ModelMessage) → json.message m ≡ some (size m))
    (nonempty : (m : ModelMessage) → 0 < size m) (r : ModelRequest) (available : ℕ)
    (room : available_bytes json r ≡ ok available) where
  -- What the last step returns for the loop's result.
  abbrev pub Retained : Result (ℕ × ModelRequest) → Type 0
  Retained result =
      ((k : ℕ) × Retainable size available r.messages k
        × ((j : ℕ) → j < k → Retainable size available r.messages j → ⊥)
        × (result ≡ ok (k, record r { messages = drop k r.messages })))
      ⊎ ((((k : ℕ) → Retainable size available r.messages k → ⊥))
          × (result ≡ err latest_turn_exceeds_budget))

  Retained-at :
      (n : ℕ)
      → Best size available 0 r.messages (some n)
      → Retained (ok (n, record r { messages = drop n r.messages }))
  Retained-at n (k, at, here, first) =
      inl
        (k, here, first, ap (λ t. ok (t, record r { messages = drop t r.messages })) (omega arith))

  after_loop-Retained : (l : Loop) → Inv size available 0 r.messages l → Retained (after_loop r l)
  unfolding after_loop
  after_loop-Retained (running b none) (_, _, best) = inr (best, refl)
  after_loop-Retained (running b (some n)) (_, _, best) = Retained-at n best
  after_loop-Retained (stopped none) (_, best) = inr (best, refl)
  after_loop-Retained (stopped (some n)) (_, best) = Retained-at n best
  after_loop-Retained (failed e) h = absurd h

  -- With `available` bytes left for the messages: if the whole array of messages fits, nothing is
  -- dropped. Otherwise the result is the longest suffix that a user message leads and that fits,
  -- with the number of messages dropped and the rest of the request as it was; and an error exactly
  -- if there is no such suffix.
  pub apply_context_budget_lem :
      ((array_bytes size r.messages ≤ available) × (apply_context_budget json r ≡ ok (0, r)))
      ⊎ ((available < array_bytes size r.messages) × Retained (apply_context_budget json r))
  unfolding apply_context_budget
  apply_context_budget_lem =
      rw (room, message_array_bytes_lem json size sized nonempty r.messages)
        (elim (Bool-cases (leb (min (array_bytes size r.messages) (u64_mod - 1)) available)) [
          | inl fits ↦ rw fits (inl (omega (arith, small, leb→le _ available fits), refl))
          | inr over ↦ rw over (
              inr (
                omega (arith, small, leb→lt _ available over),
                after_loop-Retained _
                    (rounds-Inv json size sized nonempty available small 0 r.messages),
              ))
        ])
    where
      small : available < u64_mod - 1
      small = available_bytes-lt json r available room
