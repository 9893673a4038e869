-- ===== src/Store/Session/Steps/Record.antt =====
-- crates/mews-store/src/{events,sessions}.rs: the recording of an event moves along every relation that
-- its single changes move along.
use mews.Prelude.{String, Option, none, some, suc, sym, subst, true, ◌≡◌}
use mews.Protocol.Events.Journal.{
  EventActor, EventActorKind, JournalEntry, JournalEvent, JournalSubjectType,
}
use mews.Protocol.Values.{Uid, Time, IdText}
use mews.Store.Journal.{accepted, checked, insert_entry, insert_receipt, insert_row}
use mews.Store.Journal.Check.{NewJournalEntry}
use mews.Store.Journal.Record.{
  record_journal_entry, record_session_event_correlated, turn_correlation,
}
use mews.Store.Session.Record.{record_applied, select_session_entry, turn_actor}
use mews.Store.Session.Steps.{Projects, Justified, is_ordinary, ordinary_Justified}
use mews.Store.Journal.Payloads.{record_event-Payload}
use mews.Store.Tx.Yields.{Leaves-yield}
use mews.Store.Session.Steps.Apply.{apply_session_journal_entry-Leaves}
use mews.Store.Session.Steps.Entries.{validate_active_turn-Moves}
use mews.Store.Tables.{CommandReceipt, Db}
use mews.Store.Tx.{
  Tx, ◌>>=◌, ◌>>◌, IsPreorder, Leaves, Moves, moves, Moves-modify, Moves-bind, Moves-option,
  Moves-fail, Moves-pure, Moves-gets, Moves-when, Moves-if, Moves-require, Moves-require_some,
  Moves-for_each, new_id, utc_now,
}

-- What the recording of an event changes: it draws an ID, reads the clock and adds to the journal.
pub record Journals (R : Db → Db → Type 0) : Type 0 where
  pub order : IsPreorder R
  pub draw : (db : Db) → R db (record db { drawn = suc db.drawn })
  pub tick : (db : Db) → R db (record db { readings = suc db.readings })
  pub journal : (e : JournalEntry) (db : Db) → R db (insert_row e db)

-- What an operation changes: besides, the projection and a new receipt.
pub record Records (R : Db → Db → Type 0) : Type 1 where
  pub projects : Projects R
  pub journals : Journals R
  pub receipt : (c : CommandReceipt) (db : Db) → R db (insert_receipt c db)

module _ {R : Db → Db → Type 0} (j : Journals R) where
  pub new_id-Moves : Moves R new_id
  unfolding new_id
  new_id-Moves = record { at = j.draw }

  pub utc_now-Moves : Moves R utc_now
  unfolding utc_now
  utc_now-Moves = record { at = j.tick }

  pub accepted-Moves : (o : _) → Moves R (accepted o)
  accepted-Moves none = Moves-pure j.order tt
  accepted-Moves (some e) = Moves-fail j.order _

  pub checked-Moves : (o : _) → Moves R (checked o)
  checked-Moves none = Moves-pure j.order tt
  checked-Moves (some e) = Moves-fail j.order _

  pub insert_entry-Moves :
      (c : Option String) (k : JournalSubjectType) (s : IdText) (at : Time) (e : NewJournalEntry)
      → Moves R (insert_entry c k s at e)
  unfolding insert_entry
  insert_entry-Moves c k s at e =
      search (moves, j.order, Moves-modify, j.journal, checked-Moves) depth 12

  pub turn_correlation-Moves : (p : JournalEvent) → Moves R (turn_correlation p)
  unfolding turn_correlation
  turn_correlation-Moves p = Moves-gets j.order _

  pub record_journal_entry-Moves :
      (k : JournalSubjectType) (s : IdText) (e : NewJournalEntry)
      → Moves R (record_journal_entry k s e)
  unfolding record_journal_entry
  record_journal_entry-Moves k s e =
      search
        (moves, j.order, turn_correlation-Moves, accepted-Moves, utc_now-Moves, insert_entry-Moves)
        depth 12

  pub record_session_event_correlated-Moves :
      (s : Uid) (a : EventActor) (p : JournalEvent) (c : Option String)
      → Moves R (record_session_event_correlated s a p c)
  unfolding record_session_event_correlated
  record_session_event_correlated-Moves s a p c =
      search (moves, j.order, new_id-Moves, record_journal_entry-Moves) depth 12

module _ {R : Db → Db → Type 0} (r : Records R) where
  pub order : IsPreorder R
  order = r.projects.order

  pub journals_of : Journals R
  journals_of = r.journals

  -- What is recorded is projected on tables that the recording has moved to.
  pub record_applied-Leaves :
      (s : Uid) (a : EventActor) (p : JournalEvent) (c : Option String) (db : Db)
      → ((db1 : Db) → R db db1 → Justified r.projects p db1)
      → Leaves R db (record_applied s a p c db)
  unfolding record_applied
  record_applied-Leaves s a p c db j =
      Leaves-yield order (λ e. e.payload ≡ p) _ _ db
        (record_session_event_correlated-Moves r.journals s a p c) (record_event-Payload s a p c)
        (λ e db1 same moved.
          apply_session_journal_entry-Leaves r.projects e db1
            (subst (λ q. Justified r.projects q db1) (sym same) (j db1 moved)))

  pub record_applied-Moves :
      (s : Uid) (a : EventActor) (p : JournalEvent) (c : Option String)
      → is_ordinary p ≡ true
      → Moves R (record_applied s a p c)
  record_applied-Moves s a p c j = record {
    at =
        λ db. record_applied-Leaves s a p c db (λ db1 moved. ordinary_Justified r.projects p j db1);
  }

  pub turn_actor-Moves : (s t : Uid) (k : EventActorKind) → Moves R (turn_actor s t k)
  unfolding turn_actor
  turn_actor-Moves s t EventActorKind.host = search (moves, order) depth 12
  turn_actor-Moves s t EventActorKind.harness = search (moves, order) depth 12
  turn_actor-Moves s t EventActorKind.system = Moves-fail order _
  turn_actor-Moves s t EventActorKind.client = Moves-fail order _
  turn_actor-Moves s t EventActorKind.channel = Moves-fail order _

  pub select_session_entry-Moves : (s id : Uid) → Moves R (select_session_entry s id)
  unfolding select_session_entry
  select_session_entry-Moves s id = search (moves, order) depth 12

  pub ruleset parts = (
    moves, order, new_id-Moves, utc_now-Moves, record_applied-Moves, journals_of, turn_actor-Moves,
    select_session_entry-Moves, validate_active_turn-Moves,
  )
