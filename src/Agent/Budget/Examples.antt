-- ===== src/Agent/Budget/Examples.antt =====
-- The context budget at a request whose messages exceed it.
use mews.Prelude.{ℕ, ◌<◌, ◌≤◌, ◌≡◌, refl, none, some, [], ◌∷◌, ◌⊎◌, arith}
use mews.Agent.Model.{ModelMessage, ModelRequest, MessageRole, MessageContent}
use mews.Agent.Budget.{
  Json, ok, available_bytes, apply_context_budget, context_budget_bytes, provider_of,
}
use mews.Agent.Budget.Sizes.{array_bytes}
use mews.Agent.Budget.Laws.{apply_context_budget_lem, Retained}

abbrev message : MessageRole → ModelMessage
message role = record { role = role; content = MessageContent.text "text" }

abbrev request : ModelRequest
request = record {
  model = "local";
  reasoning = none;
  system = "";
  messages =
      message MessageRole.user ∷ message MessageRole.assistant ∷ message MessageRole.user ∷ [];
  tools = [];
  continuation = none;
}

abbrev size : ModelMessage → ℕ
size m = 100000

abbrev json : Json
json = record { message = λ m. some 100000; fixed = λ model reasoning system tools. some 100 }

room : available_bytes json request ≡ ok 262044
unfolding available_bytes context_budget_bytes provider_of
room = refl

apply_context_budget_lem_example :
    ((array_bytes size request.messages ≤ 262044)
      × (apply_context_budget json request ≡ ok (0, request)))
    ⊎ ((262044 < array_bytes size request.messages)
        × Retained json size
            (λ m. refl)
            (λ m. omega arith)
            request
            262044
            room
            (apply_context_budget json request))
apply_context_budget_lem_example =
    apply_context_budget_lem json size (λ m. refl) (λ m. omega arith) request 262044 room
