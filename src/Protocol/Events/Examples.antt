-- ===== src/Protocol/Events/Examples.antt =====
-- The laws of journal entries at concrete texts and entries.
use mews.Prelude.{none, some, ◌≡◌, ◌↔◌}
use mews.Protocol.Events.Journal.{
  JournalEntry, JournalEvent, JournalEventType, JournalSubjectType, EventActorKind, system_actor,
}
use mews.Protocol.Events.Names.{
  subject_from_str, subject_as_str, actor_from_str, actor_as_str, event_from_str, event_as_str,
}
use mews.Protocol.Events.Validate.{validate}
use mews.Protocol.Events.Laws.{from_str_iff, validate_iff, WellFormed}
use mews.Protocol.Values.{IdKind, id_text}

from_str_iff_example :
    ((t : JournalSubjectType) → (subject_from_str "host" ≡ some t) ↔ ("host" ≡ subject_as_str t))
    × ((t : EventActorKind) → (actor_from_str "host" ≡ some t) ↔ ("host" ≡ actor_as_str t))
    × ((t : JournalEventType) → (event_from_str "host" ≡ some t) ↔ ("host" ≡ event_as_str t))
from_str_iff_example = from_str_iff "host"

abbrev revoked : JournalEntry
revoked = record {
  id = 1;
  position = 1;
  subject = record { kind = JournalSubjectType.host; id = id_text IdKind.hst 4 };
  event_type = JournalEventType.host_revoked;
  recorded_at = 10;
  actor = system_actor;
  command_id = none;
  correlation_id = none;
  payload = JournalEvent.host_revoked 4;
}

validate_iff_example : (validate revoked ≡ none) ↔ WellFormed revoked
validate_iff_example = validate_iff revoked
