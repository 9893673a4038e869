-- ===== src/Protocol/Events/Laws.antt =====
-- The stored names and the validation of journal entries.
use text.Mathlib.TextEquality.{eq_iff}
use text.Mathlib.Text.{◌==◌}
use mathlib.Core.Logic.{ite}
use mews.Prelude.{
  Bool-cases, inl, inr, String, Bool, true, Option, none, some, ◌≡◌, refl, sym, ap, if◌then◌else◌,
  arith, ◌↔◌, ◌∙◌,
}
use mews.Protocol.Values.{Uid, IdKind, IdText, id_text, malformed}
use mews.Protocol.Events.Journal.{
  JournalSubjectType, EventActorKind, JournalEventType, JournalEvent, JournalEntry, event_type,
  subject_type,
}
use mews.Protocol.Events.Names.{
  subject_from_str-as_str, event_from_str-as_str, subject_as_str, subject_from_str, actor_as_str,
  actor_from_str, event_as_str, event_from_str,
}
use mews.Protocol.Events.Validate.{
  validate, validate_subject, validate_subject_id, parses_as, id_kind, JournalEventType-discrete,
  JournalSubjectType-discrete, ◌or_else◌,
}

subject_as_str-from_str :
    (s : String) (t : JournalSubjectType) → subject_from_str s ≡ some t → s ≡ subject_as_str t
unfolding subject_from_str subject_as_str
subject_as_str-from_str s t h =
    ground (arith, eq_iff s "installation", eq_iff s "host", eq_iff s "agent", eq_iff s "session")

actor_as_str-from_str :
    (s : String) (t : EventActorKind) → actor_from_str s ≡ some t → s ≡ actor_as_str t
unfolding actor_from_str actor_as_str
actor_as_str-from_str s t h = ground (
  arith,
  eq_iff s "system",
  eq_iff s "client",
  eq_iff s "channel",
  eq_iff s "host",
  eq_iff s "harness",
)

actor_from_str-as_str : (t : EventActorKind) → actor_from_str (actor_as_str t) ≡ some t
unfolding actor_from_str actor_as_str
actor_from_str-as_str EventActorKind.system = refl
actor_from_str-as_str _ = refl

-- One test of a chain of comparisons with names.
module _ {ℓ} {T : Type ℓ} (as_str : T → String) (s : String) (t : T) where
  named :
      (v : T) (c : String) {rest : Option T}
      → as_str v ≡ c
      → (rest ≡ some t → s ≡ as_str t)
      → (if s == c then some v else rest) ≡ some t
      → s ≡ as_str t
  named v c name below h = elim (Bool-cases (s == c)) [
    | inl same ↦ ground (arith, eq_iff s c)
    | inr other ↦ below (rw other at h)
  ]

event_as_str-from_str :
    (s : String) (t : JournalEventType) → event_from_str s ≡ some t → s ≡ event_as_str t
unfolding event_from_str event_as_str
event_as_str-from_str s t = test JournalEventType.installation_created "installation_created" refl (
    test JournalEventType.relay_changed "relay_changed" refl (
      test JournalEventType.hub_changed "hub_changed" refl (
        test JournalEventType.host_enrolled "host_enrolled" refl (
          test JournalEventType.host_revoked "host_revoked" refl (
            test JournalEventType.host_invitation_created "host_invitation_created" refl (
              test JournalEventType.host_invitation_consumed "host_invitation_consumed" refl (
                test JournalEventType.agent_created "agent_created" refl (
                  test JournalEventType.agent_revision_created "agent_revision_created" refl (
                    test JournalEventType.agent_renamed "agent_renamed" refl (
                      test JournalEventType.agent_archived "agent_archived" refl (
                        test JournalEventType.provider_defaults_changed "provider_defaults_changed"
                          refl
                          (test JournalEventType.session_created "session_created" refl (
                            test JournalEventType.session_model_changed "session_model_changed" refl
                              (test JournalEventType.user_message_appended "user_message_appended"
                                refl
                                (test JournalEventType.session_leaf_changed "session_leaf_changed"
                                  refl
                                  (test JournalEventType.turn_accepted "turn_accepted" refl (
                                    test JournalEventType.turn_started "turn_started" refl (
                                      test JournalEventType.assistant_response_recorded
                                        "assistant_response_recorded" refl
                                        (test JournalEventType.tool_call_requested
                                          "tool_call_requested" refl
                                          (test JournalEventType.tool_execution_completed
                                            "tool_execution_completed" refl
                                            (test JournalEventType.tool_result_recorded
                                              "tool_result_recorded" refl
                                              (test JournalEventType.reasoning_recorded
                                                "reasoning_recorded" refl
                                                (test JournalEventType.context_compacted
                                                  "context_compacted" refl
                                                  (test
                                                    JournalEventType.harness_observation_recorded
                                                    "harness_observation_recorded" refl
                                                    (test JournalEventType.acp_binding_changed
                                                      "acp_binding_changed" refl
                                                      (test JournalEventType.acp_context_dispatched
                                                        "acp_context_dispatched" refl
                                                        (test JournalEventType.turn_completed
                                                          "turn_completed" refl
                                                          (test JournalEventType.turn_failed
                                                            "turn_failed" refl
                                                            (test JournalEventType.turn_cancelled
                                                            "turn_cancelled" refl
                                                            (test JournalEventType.turn_interrupted
                                                            "turn_interrupted" refl
                                                            (test JournalEventType.effect_scheduled
                                                            "effect_scheduled" refl
                                                            (test JournalEventType.effect_started
                                                            "effect_started" refl
                                                            (test JournalEventType.effect_succeeded
                                                            "effect_succeeded" refl
                                                            (test JournalEventType.effect_failed
                                                            "effect_failed" refl
                                                            (test JournalEventType.effect_uncertain
                                                            "effect_uncertain" refl
                                                            (λ none_left.
                                                            cc))))))))))))))))))))))))))))))))))))
  where
    test :
        (v : JournalEventType) (c : String) {rest : Option JournalEventType}
        → event_as_str v ≡ c
        → (rest ≡ some t → s ≡ event_as_str t)
        → (if s == c then some v else rest) ≡ some t
        → s ≡ event_as_str t
    test = named event_as_str s t

-- The stored names of subject types, actor kinds and event types are one to one: reading a text gives a value exactly when the text is that value's name.
pub from_str_iff :
    (s : String)
    → ((t : JournalSubjectType) → (subject_from_str s ≡ some t) ↔ (s ≡ subject_as_str t))
      × ((t : EventActorKind) → (actor_from_str s ≡ some t) ↔ (s ≡ actor_as_str t))
      × ((t : JournalEventType) → (event_from_str s ≡ some t) ↔ (s ≡ event_as_str t))
from_str_iff s = (
  λ t. (subject_as_str-from_str s t, λ e. ap subject_from_str e ∙ subject_from_str-as_str t),
  λ t. (actor_as_str-from_str s t, λ e. ap actor_from_str e ∙ actor_from_str-as_str t),
  λ t. (event_as_str-from_str s t, λ e. ap event_from_str e ∙ event_from_str-as_str t),
)

-- The IDs inside an event that creates or changes its own subject are the subject's.
abbrev pub NamesSubject : JournalEvent → Uid → Type 0
NamesSubject (JournalEvent.installation_created installation) i = installation.id ≡ i
NamesSubject (JournalEvent.host_enrolled host) i = host.id ≡ i
NamesSubject (JournalEvent.host_revoked host_id) i = host_id ≡ i
NamesSubject (JournalEvent.agent_created agent revision) i =
    (agent.id ≡ i) × (revision.agent_id ≡ i)
NamesSubject (JournalEvent.agent_revision_created revision) i = revision.agent_id ≡ i
NamesSubject (JournalEvent.session_created session) i = session.id ≡ i
NamesSubject (JournalEvent.acp_binding_changed binding) i = binding.session_id ≡ i
NamesSubject _ i = Unit {0}

-- What a well-formed entry is: its type and its subject's type are those of its payload, the subject's ID is a well-formed ID of that type, and the payload names no other subject.
abbrev pub WellFormed : JournalEntry → Type 0
WellFormed e =
    (i : Uid) × (e.event_type ≡ event_type e.payload)
    × (e.subject.kind ≡ subject_type e.payload)
    × (e.subject.id ≡ id_text (id_kind (subject_type e.payload)) i)
    × NamesSubject e.payload i

validate_subject_id-none :
    (p : JournalEvent) (i : Uid)
    → (validate_subject_id p (id_text (id_kind (subject_type p)) i) ≡ none) ↔ NamesSubject p i
unfolding validate_subject_id subject_type
validate_subject_id-none (JournalEvent.agent_renamed slug) i = (λ _. tt, λ _. refl)
validate_subject_id-none _ i = ground arith

parses_as-id_text : (k : IdKind) (t : IdText) → parses_as k t ≡ true → (i : Uid) × (t ≡ id_text k i)
unfolding parses_as
parses_as-id_text k (id_text j i) h = (i, ground arith)
parses_as-id_text k (malformed s) h = absurd (cc)

parses_as-id_text_iff :
    (k : IdKind) (t : IdText) → (parses_as k t ≡ true) ↔ ((i : Uid) × (t ≡ id_text k i))
unfolding parses_as
parses_as-id_text_iff k t = (parses_as-id_text k t, λ found. ground arith)

-- The four checks in a row.
checks-none {ℓ} :
    {E P Q : Type ℓ} (p : Dec P) (q : Dec Q) (a b : E) (b1 : Bool) (c : E) (rest : Option E)
    → ((ite p none (some a)
          or_else ite q none (some b)
          or_else (if b1 then none else some c)
          or_else rest)
        ≡ none)
      ↔ (P × Q × (b1 ≡ true) × (rest ≡ none))
checks-none p q a b b1 c rest = ground arith

-- `validate` accepts an entry exactly when it is well-formed.
pub validate_iff : (e : JournalEntry) → (validate e ≡ none) ↔ WellFormed e
unfolding validate validate_subject
validate_iff e = (accepted, λ w. checks.1 (w.1, w.2, to_parse w, to_subject w))
  where
    checks : (validate e ≡ none) ↔ (
        (e.event_type ≡ event_type e.payload)
        × (e.subject.kind ≡ subject_type e.payload)
        × (parses_as (id_kind e.subject.kind) e.subject.id ≡ true)
        × (validate_subject_id e.payload e.subject.id ≡ none))
    checks =
        checks-none (JournalEventType-discrete e.event_type (event_type e.payload))
          (JournalSubjectType-discrete e.subject.kind (subject_type e.payload)) _ _
          (parses_as (id_kind e.subject.kind) e.subject.id) _
          (validate_subject_id e.payload e.subject.id)

    accepted : validate e ≡ none → WellFormed e
    accepted h =
        let c = checks.0 h in
        let (i, same) = parses_as-id_text _ _ c.2 in
        let text : e.subject.id ≡ id_text (id_kind (subject_type e.payload)) i = cc in
        (
          i,
          c.0,
          c.1,
          text,
          (validate_subject_id-none e.payload i).0
              (ap (validate_subject_id e.payload) (sym text) ∙ c.3),
        )

    to_parse : WellFormed e → parses_as (id_kind e.subject.kind) e.subject.id ≡ true
    to_parse w = (parses_as-id_text_iff _ _).1 (w.0, cc)

    to_subject : WellFormed e → validate_subject_id e.payload e.subject.id ≡ none
    to_subject w =
        ap (validate_subject_id e.payload) w.3 ∙ (validate_subject_id-none e.payload w.0).1 w.4
