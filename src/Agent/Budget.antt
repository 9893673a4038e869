-- ===== src/Agent/Budget.antt =====
-- crates/mews-agent/src/context_budget.rs. Sizes of serialized values are parameters; `none` is a
-- serialization error.
pub mod Sizes
pub mod Rounds
pub mod Laws
mod Examples
use text.Mathlib.Text.{◌==◌ as str_eq, find?, get?}
use mews.Prelude.{
  ℕ, zero, suc, ◌+◌, ◌-◌, ◌*◌, ◌≤◌, ltb, leb, if◌then◌else◌, String, Bool, true, false, Option,
  none, some, List, [], ◌∷◌, ◌||◌, length, drop, saturating_add,
}
use mews.Agent.Model.{ModelMessage, ModelRequest, is_user}
use mews.Protocol.Turns.{ReasoningEffort, ToolDefinition}

-- The length of `serde_json::to_vec`, of a message and of the request without its messages.
pub record Json : Type 0 where
  pub message : ModelMessage → Option ℕ
  pub fixed : String → Option ReasoningEffort → String → List ToolDefinition → Option ℕ

pub data BudgetError : Type 0 where
  serialize_fixed serialize_message fixed_exceeds_budget latest_turn_exceeds_budget : BudgetError

pub data Result {ℓ} (A : Type ℓ) : Type ℓ where
  ok : A → Result A
  err : BudgetError → Result A

infixl 5 ◌>>=◌
abbrev pub ◌>>=◌ {ℓ κ} : {A : Type ℓ} {B : Type κ} → Result A → (A → Result B) → Result B
r >>= next = elim r [ err e ↦ err e | ok a ↦ next a ]

abbrev pub context {ℓ} : {A : Type ℓ} → Option A → BudgetError → Result A
context none e = err e
context (some a) e = ok a

-- `model.split_once('/').map(|(provider, _)| provider)`
unfoldable pub provider_of : String → Option String
provider_of model = elim (find? model "/") [ none ↦ none | some i ↦ get? model 0 i ]

limit_of : Option String → ℕ
limit_of none = 256 * 1024
limit_of (some provider) =
    if str_eq provider "google"
    then 2 * 1024 * 1024
    else if str_eq provider "anthropic"
    then 640 * 1024
    else if str_eq provider "openai" || str_eq provider "openai-codex"
    then 384 * 1024
    else 256 * 1024

unfoldable pub context_budget_bytes : String → ℕ
unfolding limit_of provider_of
context_budget_bytes model = limit_of (provider_of model)

-- The loop over the messages from the last to the first: still running, with `suffix_bytes` and
-- `retained_start`; left by `break`; or left by an error.
pub data Loop : Type 0 where
  running : ℕ → Option ℕ → Loop
  stopped : Option ℕ → Loop
  failed : BudgetError → Loop

module _ (json : Json) where
  unfoldable pub array_from : ℕ → List ModelMessage → Result ℕ
  array_from bytes [] = ok bytes
  array_from bytes (m ∷ ms) = context (json.message m) serialize_message >>= λ n.
      array_from (saturating_add (saturating_add bytes (if ltb 2 bytes then 1 else 0)) n) ms

  unfoldable pub message_array_bytes : List ModelMessage → Result ℕ
  unfolding array_from
  message_array_bytes = array_from 2

  -- One round of the loop, for a message at an index.
  unfoldable pub round : ℕ → ℕ → ModelMessage → Loop → Loop
  round available index m (stopped retained) = stopped retained
  round available index m (failed e) = failed e
  round available index m (running bytes retained) =
      let separated = if ltb 2 bytes then saturating_add bytes 1 else bytes in
      elim (json.message m) [
        | none ↦ failed serialize_message
        | some n ↦
            let suffix = saturating_add separated n in
            if ltb available suffix
            then stopped retained
            else running suffix (if is_user m.role then some index else retained)
      ]

  -- The rounds for the messages from an index on, the last message first.
  unfoldable pub rounds : ℕ → ℕ → List ModelMessage → Loop
  unfolding round
  rounds available index [] = running 2 none
  rounds available index (m ∷ ms) = round available index m (rounds available (suc index) ms)

unfoldable pub drain : ModelRequest → Option ℕ → Result (ℕ × ModelRequest)
drain request none = err latest_turn_exceeds_budget
drain request (some start) = ok (start, record request { messages = drop start request.messages })

unfoldable pub after_loop : ModelRequest → Loop → Result (ℕ × ModelRequest)
unfolding drain
after_loop request (running _ retained) = drain request retained
after_loop request (stopped retained) = drain request retained
after_loop request (failed e) = err e

-- What is left for the messages: the limit less the fixed part.
unfoldable pub available_bytes : Json → ModelRequest → Result ℕ
available_bytes json r =
    context (json.fixed r.model r.reasoning r.system r.tools) serialize_fixed >>= λ fixed.
    let limit = context_budget_bytes r.model in
    if leb fixed limit then ok (limit - fixed) else err fixed_exceeds_budget

-- The number of messages dropped, and the request that is left.
unfoldable pub apply_context_budget : Json → ModelRequest → Result (ℕ × ModelRequest)
unfolding available_bytes message_array_bytes rounds after_loop
apply_context_budget json r = do
  available ← available_bytes json r
  current ← message_array_bytes json r.messages
  if leb current available then ok (0, r) else after_loop r (rounds json available 0 r.messages)
