-- ===== src/Agent/Calls/Laws.antt =====
-- Which batches of tool calls are accepted.
use text.Mathlib.TextEquality.{eq_iff}
use mews.Prelude.{
  ℕ, ltb, ◌==◌, ◌<◌, ◌≤◌, byte_len, String, Bool, false, ◌||◌, Option, none, some, List, [], ◌∷◌,
  any, All, map, ◌≡◌, refl, sym, ◌↔◌, arith, if◌then◌else◌,
}
use mews.Agent.Model.{ToolCall}
use mews.Agent.Calls.{CallError, has, check_calls, validate_tool_call_ids, max_tool_call_id_bytes}

-- The text stands nowhere in the list.
abbrev pub Absent : String → List String → Type 0
Absent id [] = Unit
Absent id (i ∷ is) = (i ≡ id → ⊥) × Absent id is

-- No two texts of the list are the same.
abbrev pub Distinct : List String → Type 0
Distinct [] = Unit
Distinct (i ∷ is) = Absent i is × Distinct is

-- The ID has one of the lengths that are allowed, and is none of those accepted before.
abbrev pub Acceptable : List String → ToolCall → Type 0
Acceptable accepted c =
    (0 < byte_len c.id) × (byte_len c.id ≤ max_tool_call_id_bytes) × Absent c.id accepted

has-Absent : (ids : List String) (id : String) → (has ids id ≡ false) ↔ Absent id ids
unfolding has any
has-Absent [] id = (λ h. tt, λ h. refl)
has-Absent (i ∷ is) id = ground (arith, eq_iff i id, has-Absent is id)

abbrev ids_of : List ToolCall → List String
ids_of = map (λ c. c.id)

-- The IDs of the calls are not among those seen.
abbrev Unseen : List String → List ToolCall → Type 0
Unseen ids cs = All (λ c. Absent c.id ids) cs

Unseen-cons :
    (id : String) (ids : List String) (cs : List ToolCall)
    → Unseen (id ∷ ids) cs ↔ (Absent id (ids_of cs) × Unseen ids cs)
Unseen-cons id ids [] = (λ h. (tt, tt), λ h. tt)
Unseen-cons id ids (c ∷ cs) =
    let rest = Unseen-cons id ids cs in
    (
      λ h. let (a, u) = rest.0 h.1 in ((λ e. h.0.0 (sym e), a), (h.0.1, u)),
      λ h. ((λ e. h.0.0 (sym e), h.1.0), rest.1 (h.0.1, h.1.1)),
    )

-- The guards of one round.
round_iff :
    (n : ℕ) (taken seen : Bool) (e1 e2 e3 : CallError) (rest : Option CallError)
    → ((if n == 0
          then some e1
          else if ltb max_tool_call_id_bytes n
          then some e2
          else if taken || seen
          then some e3
          else rest)
        ≡ none)
      ↔ ((0 < n) × (n ≤ max_tool_call_id_bytes) × (taken ≡ false) × (seen ≡ false) × (rest ≡ none))
round_iff n taken seen e1 e2 e3 rest = ground arith

check_calls_iff :
    (accepted ids : List String) (cs : List ToolCall)
    → (check_calls accepted ids cs ≡ none)
      ↔ (All (Acceptable accepted) cs × Unseen ids cs × Distinct (ids_of cs))
unfolding check_calls
check_calls_iff accepted ids [] = (λ h. (tt, tt, tt), λ h. refl)
check_calls_iff accepted ids (c ∷ cs) =
    let guards =
      round_iff (byte_len c.id) (has accepted c.id) (has ids c.id) _ _ _
        (check_calls accepted (c.id ∷ ids) cs) in
    let rest = check_calls_iff accepted (c.id ∷ ids) cs in
    let split = Unseen-cons c.id ids cs in
    (
      λ h.
          let (positive, short, taken, seen, later) = guards.0 h in
          let (acceptable, unseen, distinct) = rest.0 later in
          let (absent, others) = split.0 unseen in
          (
            ((positive, short, (has-Absent accepted c.id).0 taken), acceptable),
            ((has-Absent ids c.id).0 seen, others),
            (absent, distinct),
          ),
      λ h.
          let (acceptable, unseen, distinct) = h in
          let (positive, short, taken) = acceptable.0 in
          guards.1 (
            positive,
            short,
            (has-Absent accepted c.id).1 taken,
            (has-Absent ids c.id).1 unseen.0,
            rest.1 (acceptable.1, split.1 (distinct.0, unseen.1), distinct.1),
          ),
    )

None-Absent : (cs : List ToolCall) → Unseen [] cs
None-Absent [] = tt
None-Absent (c ∷ cs) = (tt, None-Absent cs)

-- A batch of tool calls is accepted exactly when every ID has between 1 and 256 bytes and is none of
-- those accepted before, and no two IDs of the batch are the same.
pub validate_tool_call_ids_iff :
    (calls : List ToolCall) (accepted : List String)
    → (validate_tool_call_ids calls accepted ≡ none)
      ↔ (All (Acceptable accepted) calls × Distinct (map (λ c. c.id) calls))
unfolding validate_tool_call_ids
validate_tool_call_ids_iff calls accepted =
    let checked = check_calls_iff accepted [] calls in
    (
      λ h. let (acceptable, unseen, distinct) = checked.0 h in (acceptable, distinct),
      λ h. checked.1 (h.0, None-Absent calls, h.1),
    )
