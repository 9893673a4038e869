-- ===== src/Agent/Calls.antt =====
-- crates/mews-agent/src/loop.rs: validate_tool_call_ids. A set of IDs is the list of its members.
pub mod Laws
mod Examples
use text.Mathlib.Text.{◌==◌ as str_eq}
use mews.Prelude.{
  ℕ, ltb, ◌==◌, byte_len, String, Bool, ◌||◌, Option, none, some, List, [], ◌∷◌, any, if◌then◌else◌,
}
use mews.Agent.Model.{ToolCall}

-- MAX_TOOL_CALL_ID_BYTES
abbrev pub max_tool_call_id_bytes : ℕ
max_tool_call_id_bytes = 256

pub data CallError : Type 0 where
  empty_id long_id : CallError
  duplicate_id : String → CallError

unfoldable pub has : List String → String → Bool
has ids id = any (λ i. str_eq i id) ids

-- The loop over the calls, with the IDs seen so far.
unfoldable pub check_calls : List String → List String → List ToolCall → Option CallError
unfolding has
check_calls accepted ids [] = none
check_calls accepted ids (c ∷ cs) =
    let rest = check_calls accepted (c.id ∷ ids) cs in
    if byte_len c.id == 0
    then some empty_id
    else if ltb max_tool_call_id_bytes (byte_len c.id)
    then some long_id
    else if has accepted c.id || has ids c.id
    then some (duplicate_id c.id)
    else rest

unfoldable pub validate_tool_call_ids : List ToolCall → List String → Option CallError
unfolding check_calls
validate_tool_call_ids calls accepted = check_calls accepted [] calls
