-- ===== src/Agent/Calls/Examples.antt =====
-- A batch of two tool calls after one that was accepted.
use mews.Prelude.{none, List, [], ◌∷◌, map, All, String, ◌≡◌, ◌↔◌}
use mews.Agent.Calls.{validate_tool_call_ids}
use mews.Agent.Calls.Laws.{Acceptable, Distinct, validate_tool_call_ids_iff}
use mews.Agent.Model.{ToolCall}
use mews.Protocol.Values.{Value}

abbrev call : String → ToolCall
call id = record {
  id = id;
  name = "read";
  arguments = Value.null;
  catalog_generation = 1;
  thought_signature = none;
}

abbrev batch : List ToolCall
batch = call "b" ∷ call "c" ∷ []

validate_tool_call_ids_iff_example :
    (validate_tool_call_ids batch ("a" ∷ []) ≡ none)
    ↔ (All (Acceptable ("a" ∷ [])) batch × Distinct (map (λ c. c.id) batch))
validate_tool_call_ids_iff_example = validate_tool_call_ids_iff batch ("a" ∷ [])
