-- ===== src/Store/Session/Recover.antt =====
-- crates/mews-store/src/schema.rs, recover_interrupted_work; turns.rs, record_turn_harness.
pub mod Laws
use text.Mathlib.Text.{◌==◌ as str_eq}
use mews.Prelude.{
  String, Bool, true, false, not, Option, none, some, keep, find, ◌==◌, ◌&&◌, ◌||◌, byte_len,
}
use mews.Protocol.Events.Journal.{JournalEvent, system_actor}
use mews.Protocol.Messages.{HarnessProvenance}
use mews.Protocol.Values.{Uid}
use mews.Store.Result.{database, no_rows, invalid_data, turn_harness_empty, turn_harness_differs}
use mews.Store.Session.Finish.{close_open_effects, close_orphan_tool_calls}
use mews.Store.Session.Record.{record_applied, harness_actor}
use mews.Store.Tables.{Db, TurnRow, is_active}
use mews.Store.Tx.{Tx, ◌>>=◌, ◌>>◌, gets, modify, require, require_some, for_each}

-- DELETE FROM client_events WHERE transient = 1
unfoldable pub drop_transient : Db → Db
drop_transient db = record db {
  feed = record db.feed { events = keep (λ e. not e.transient) db.feed.events };
}

unfoldable pub interrupt_turn : TurnRow → Tx Unit
interrupt_turn t = do
  close_open_effects t.session_id t.id
  close_orphan_tool_calls t.session_id t.id
  record_applied t.session_id system_actor
      (JournalEvent.turn_interrupted t.id "Hub stopped before the Turn completed") none

unfoldable pub recover_interrupted_work : Tx Unit
recover_interrupted_work = do
  modify drop_transient
  interrupted ← gets (λ db. keep is_active db.turns)
  for_each interrupt_turn interrupted

abbrev pub same_optional : Option String → Option String → Bool
same_optional none none = true
same_optional (some a) (some b) = str_eq a b
same_optional _ _ = false

-- A Turn whose harness is known.
abbrev pub check_harness : TurnRow → String → HarnessProvenance → Tx Unit
check_harness t name harness =
    require
      (str_eq name harness.name
        && same_optional t.harness_definition_hash (some harness.definition_hash)
        && same_optional t.harness_version harness.version)
      (invalid_data turn_harness_differs)

unfoldable pub record_turn_harness : Uid → HarnessProvenance → Tx Unit
record_turn_harness turn_id harness = do
  require (not (byte_len harness.name == 0 || byte_len harness.definition_hash == 0))
      (invalid_data turn_harness_empty)
  found ← gets (λ db. find (λ t. t.id == turn_id && is_active t) db.turns)
  t ← require_some found (database no_rows)
  elim t.harness [
    | some name ↦ check_harness t name harness
    | none ↦
        record_applied t.session_id (harness_actor harness.name)
          (JournalEvent.turn_started turn_id harness) none
  ]
