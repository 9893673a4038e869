-- ===== src/Agent/Budget/Rounds.antt =====
-- What the loop of `apply_context_budget` finds: the longest suffix that a user message leads and
-- that fits.
use mews.Prelude.{
  ℕ, zero, suc, ◌+◌, ◌-◌, ◌≤◌, ◌<◌, max, ◌≡◌, refl, some, none, Option, List, [], ◌∷◌, arith, drop,
  true, false, ltb, if◌then◌else◌, u64_mod, saturating_add, min, ap, sym, subst, if_cases, ◌∙◌,
  ltb→lt, ltb→le,
}
use mews.Agent.Model.{ModelMessage, is_user}
use mews.Agent.Budget.{Json, Loop, running, stopped, failed, round, rounds}
use mews.Agent.Budget.Sizes.{array_bytes, array_bytes-cons}

abbrev pub UserLed : List ModelMessage → Type 0
UserLed [] = ⊥
UserLed (m ∷ ms) = is_user m.role ≡ true

module _ (size : ModelMessage → ℕ) (available : ℕ) where
  -- A place in the list from which on the messages are led by a user and fit.
  abbrev pub Retainable : List ModelMessage → ℕ → Type 0
  Retainable ms k = UserLed (drop k ms) × (array_bytes size (drop k ms) ≤ available)

  -- The first such place, counted from an index; or there is none.
  abbrev pub Best : ℕ → List ModelMessage → Option ℕ → Type 0
  Best index ms none = (k : ℕ) → Retainable ms k → ⊥
  Best index ms (some n) =
      (k : ℕ) × (n ≡ index + k) × Retainable ms k × ((j : ℕ) → j < k → Retainable ms j → ⊥)

  abbrev pub Inv : ℕ → List ModelMessage → Loop → Type 0
  Inv index ms (running bytes retained) =
      (bytes ≡ array_bytes size ms) × (bytes ≤ max 2 available) × Best index ms retained
  Inv index ms (stopped retained) = (available < array_bytes size ms) × Best index ms retained
  Inv index ms (failed e) = ⊥

  Best-skip :
      (index : ℕ) (m : ModelMessage) (ms : List ModelMessage) (r : Option ℕ)
      → (Retainable (m ∷ ms) 0 → ⊥)
      → Best (suc index) ms r
      → Best index (m ∷ ms) r
  unfolding drop
  Best-skip index m ms none h b = before
    where
      before : (k : ℕ) → Retainable (m ∷ ms) k → ⊥
      before zero = h
      before (suc k) = b k
  Best-skip index m ms (some n) h (k, at, here, first) = (suc k, omega arith, here, before)
    where
      before : (j : ℕ) → j < suc k → Retainable (m ∷ ms) j → ⊥
      before zero lt = h
      before (suc j) lt = first j (omega arith)

  Best-here :
      (index : ℕ) (m : ModelMessage) (ms : List ModelMessage)
      → Retainable (m ∷ ms) 0
      → Best index (m ∷ ms) (some index)
  Best-here index m ms h = (0, omega arith, h, λ j lt. absurd (omega arith))

-- One sum of the loop, while it runs.
separated_sum :
    (b n : ℕ)
    → b < u64_mod - 1
    → saturating_add (if ltb 2 b then saturating_add b 1 else b) n
      ≡ min (b + (if ltb 2 b then 1 else 0) + n) (u64_mod - 1)
unfolding saturating_add
separated_sum b n h = ground arith

module _ (json : Json) (size : ModelMessage → ℕ)
    (sized : (m : ModelMessage) → json.message m ≡ some (size m))
    (nonempty : (m : ModelMessage) → 0 < size m) (available : ℕ)
    (small : available < u64_mod - 1) where
  round_running :
      (index : ℕ) (m : ModelMessage) (b : ℕ) (r : Option ℕ)
      → round json available index m (running b r) ≡ (
          if ltb available (saturating_add (if ltb 2 b then saturating_add b 1 else b) (size m))
          then stopped r
          else running
              (saturating_add (if ltb 2 b then saturating_add b 1 else b) (size m))
              (if is_user m.role then some index else r))
  unfolding round
  round_running index m b r = rw (sized m, round)

  round-Inv :
      (index : ℕ) (m : ModelMessage) (ms : List ModelMessage) (l : Loop)
      → Inv size available (suc index) ms l
      → Inv size available index (m ∷ ms) (round json available index m l)
  unfolding round drop
  round-Inv index m ms (stopped r) (over, b) =
      (grown, Best-skip size available index m ms r (λ h. omega (arith, h.1, grown)) b)
    where
      grown : available < array_bytes size (m ∷ ms)
      grown = ground (arith, array_bytes-cons json size sized nonempty m ms)
  round-Inv index m ms (failed e) h = h
  round-Inv index m ms (running b r) (same, bound, best) =
      subst (Inv size available index (m ∷ ms)) (sym (round_running index m b r)) (
        if_cases (Inv size available index (m ∷ ms)) (ltb available suffix) (stopped r) _
          (λ over. (
            too_long over,
            Best-skip size available index m ms r (λ h. omega (arith, h.1, too_long over)) best,
          ))
          (λ under. (fits under, omega (arith, ltb→le available suffix under), under_best under)))
    where
      suffix : ℕ
      suffix = saturating_add (if ltb 2 b then saturating_add b 1 else b) (size m)

      sum : suffix ≡ min (array_bytes size (m ∷ ms)) (u64_mod - 1)
      sum =
          separated_sum b (size m) (omega arith)
          ∙ ap (λ t. min t (u64_mod - 1))
              (rw same (sym (array_bytes-cons json size sized nonempty m ms)))

      too_long : ltb available suffix ≡ true → available < array_bytes size (m ∷ ms)
      too_long over = omega (arith, sum, ltb→lt available suffix over)

      fits : ltb available suffix ≡ false → suffix ≡ array_bytes size (m ∷ ms)
      fits under = omega (arith, sum, ltb→le available suffix under)

      room : ltb available suffix ≡ false → array_bytes size (m ∷ ms) ≤ available
      room under = omega (arith, fits under, ltb→le available suffix under)

      under_best :
          ltb available suffix ≡ false
          → Best size available index (m ∷ ms) (if is_user m.role then some index else r)
      under_best under =
          if_cases (Best size available index (m ∷ ms)) (is_user m.role) (some index) r
            (λ led. Best-here size available index m ms (led, room under))
            (λ other. Best-skip size available index m ms r (λ h. cc) best)

  -- The loop never fails, and what it retains is the first place that can be retained.
  pub rounds-Inv :
      (index : ℕ) (ms : List ModelMessage)
      → Inv size available index ms (rounds json available index ms)
  unfolding rounds array_bytes drop
  rounds-Inv index [] = (refl, omega arith, nothing)
    where
      nothing : (k : ℕ) → Retainable size available [] k → ⊥
      nothing zero h = h.0
      nothing (suc k) h = h.0
  rounds-Inv index (m ∷ ms) = round-Inv index m ms _ (rounds-Inv (suc index) ms)
