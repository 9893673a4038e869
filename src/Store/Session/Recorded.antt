-- ===== src/Store/Session/Recorded.antt =====
-- crates/mews-store/src/{events,sessions}.rs: what the recording of one event of a Session leaves.
pub mod Rows
use mathlib.Core.List.{append-nil}
use mews.Prelude.{
  ℕ, suc, String, Bool, true, false, Option, none, some, List, [], ◌∷◌, ◌++◌, ◌≡◌, refl, ap, sym,
  ◌∙◌, subst,
}
use mews.Protocol.Events.Client.{ClientEventKind}
use mews.Protocol.Events.Journal.{EventActor, JournalEntry, JournalEvent, JournalSubjectType}
use mews.Protocol.Messages.{SessionEntryPayload, SessionEntry}
use mews.Protocol.Values.{IdKind, IdText, id_text, Time, Uid}
use mews.Store.Journal.{committed_entry, insert_entry, insert_row}
use mews.Store.Journal.Check.{NewJournalEntry}
use mews.Store.Journal.Laws.{gets-Runs, modify-Runs, pure-Runs}
use mews.Store.Journal.Record.{
  journal_session_id, record_journal_entry, record_session_event_correlated, session_of_subject,
}
use mews.Store.Result.{ok, err, invalid_data, not_a_session}
use mews.Store.Session.Apply.{apply_event, apply_session_journal_entry}
use mews.Store.Session.Entries.{
  add_entry, append_session_entry, insert_session_entry, update_session, with_leaf,
}
use mews.Store.Session.Record.{record_applied}
use mews.Store.Session.Signals.{with_feed}
use mews.Store.Session.Steps.Record.{Journals, record_session_event_correlated-Moves}
use mews.Store.Tables.{Db, EffectRow, EntryRow, TurnRow}
use mews.Store.Tx.{Tx, ◌>>=◌, ◌>>◌, gets, modify, pure, fail, IsPreorder, Moves}
use mews.Store.Tx.Runs.{Runs, bind-Runs, require-Runs, Runs-Moves}
use mews.Store.Tx.Yields.{Yields, Yields-bind, Yields-pure, Runs-Yields}

-- The tables of the projection are as they were.
pub record SameTables (a b : Db) : Type 0 where
  pub entries : b.entries ≡ a.entries
  pub turns : b.turns ≡ a.turns
  pub effects : b.effects ≡ a.effects

pub SameTables-refl : (a : Db) → SameTables a a
SameTables-refl a = record { entries = refl; turns = refl; effects = refl }

pub SameTables-order : IsPreorder SameTables
SameTables-order = record {
  reflexive = SameTables-refl;
  transitive = λ a b c h k. record {
    entries = k.entries ∙ h.entries;
    turns = k.turns ∙ h.turns;
    effects = k.effects ∙ h.effects;
  };
}

pub SameTables-journals : Journals SameTables
unfolding insert_row
SameTables-journals = record {
  order = SameTables-order;
  draw = λ db. record { entries = refl; turns = refl; effects = refl };
  tick = λ db. record { entries = refl; turns = refl; effects = refl };
  journal = λ e db. record { entries = refl; turns = refl; effects = refl };
}

-- The entry of the journal that tells of a payload in a Session.
pub record TellsOf (s : Uid) (p : JournalEvent) (e : JournalEntry) : Type 0 where
  pub payload : e.payload ≡ p
  pub session : session_of_subject e.subject ≡ some s

insert_entry-Yields :
    (c : Option String) (s : Uid) (at : Time) (e : NewJournalEntry)
    → Yields
        (TellsOf s e.payload)
        (insert_entry c JournalSubjectType.session (id_text IdKind.ses s) at e)
unfolding insert_entry committed_entry
insert_entry-Yields c s at e = Yields-bind _ _ _ (λ taken. Yields-bind _ _ _ (λ u.
    Yields-bind _ _ _ (λ last.
      Yields-bind _ _ _ (λ u.
        Yields-bind _ _ _ (λ u. Yields-pure _ _ (record { payload = refl; session = refl }))))))

pub record_event-Yields :
    (s : Uid) (a : EventActor) (p : JournalEvent) (c : Option String)
    → Yields (TellsOf s p) (record_session_event_correlated s a p c)
unfolding record_session_event_correlated record_journal_entry
record_event-Yields s a p c = Yields-bind _ _ _ (λ id. Yields-bind _ _ _ (λ default.
    Yields-bind _ _ _ (λ u. Yields-bind _ _ _ (λ now. insert_entry-Yields none s now _))))

insert_entry-Correlates :
    (c : Option String) (s : Uid) (at : Time) (e : NewJournalEntry)
    → Yields
        (λ j. j.correlation_id ≡ e.correlation_id)
        (insert_entry c JournalSubjectType.session (id_text IdKind.ses s) at e)
unfolding insert_entry committed_entry
insert_entry-Correlates c s at e = Yields-bind _ _ _ (λ taken. Yields-bind _ _ _ (λ u.
    Yields-bind _ _ _
      (λ last. Yields-bind _ _ _ (λ u. Yields-bind _ _ _ (λ u. Yields-pure _ _ refl)))))

-- A key that is given is the correlation ID.
pub record_event-Correlates :
    (s : Uid) (a : EventActor) (p : JournalEvent) (k : String)
    → Yields (λ j. j.correlation_id ≡ some k) (record_session_event_correlated s a p (some k))
unfolding record_session_event_correlated record_journal_entry
record_event-Correlates s a p k = Yields-bind _ _ _ (λ id. Yields-bind _ _ _ (λ default.
    Yields-bind _ _ _ (λ u. Yields-bind _ _ _ (λ now. insert_entry-Correlates none s now _))))

found_session :
    (o : Option Uid) (db : Db) {s t : Uid} {db' : Db}
    → o ≡ some s
    → Runs (elim o [ none ↦ fail (invalid_data not_a_session) | some i ↦ pure i ]) db t db'
    → (t ≡ s) × (db' ≡ db)
unfolding fail pure
found_session none db h k = absurd (cc)
found_session (some i) db h k = (cc, cc)

pub known_session :
    (e : JournalEntry) (db : Db) {s t : Uid} {db' : Db}
    → session_of_subject e.subject ≡ some s
    → Runs (journal_session_id e) db t db'
    → (t ≡ s) × (db' ≡ db)
unfolding journal_session_id
known_session e db h k = found_session (session_of_subject e.subject) db h k

-- An operation that records an event has projected it on tables that only the journal has changed of.
pub record_applied-Runs :
    (s : Uid) (a : EventActor) (p : JournalEvent) (c : Option String) (db : Db) {u : Unit}
    {db' : Db}
    → Runs (record_applied s a p c) db u db'
    → (e : JournalEntry) × (db1 : Db) × TellsOf s p e
      × SameTables db db1
      × Runs (apply_event e s p) db1 u db'
unfolding record_applied apply_session_journal_entry
record_applied-Runs s a p c db {u} {db'} h =
    let (e, db1, h1, k1) = bind-Runs _ _ db h in
    let (t, db2, h2, k2) = bind-Runs _ _ db1 k1 in
    let tells = Runs-Yields (TellsOf s p) _ db (record_event-Yields s a p c) h1 in
    let (same, here) = known_session e db1 tells.session h2 in
    (
      e,
      db1,
      tells,
      Runs-Moves _ db (record_session_event_correlated-Moves SameTables-journals s a p c) h1,
      subst (λ q. Runs (apply_event e s q) db1 u db') tells.payload
          (subst (λ i. Runs (apply_event e i e.payload) db1 u db') same
            (subst (λ d. Runs (apply_event e t e.payload) d u db') here k2)),
    )

-- One entry of the Session has been added, with that payload.
pub record Adds (s : Uid) (p : SessionEntryPayload) (a b : Db) : Type 0 where
  pub row : EntryRow
  pub grown : b.entries ≡ a.entries ++ row ∷ []
  pub session : row.session_id ≡ s
  pub payload : row.payload ≡ p

pub insert_session_entry-Runs :
    (row : EntryRow) (db : Db) {u : Unit} {db' : Db}
    → Runs (insert_session_entry row) db u db'
    → db' ≡ add_entry row db
unfolding insert_session_entry
insert_session_entry-Runs row db h =
    let (taken, db1, h1, k1) = bind-Runs _ _ db h in
    let (u2, db2, h2, k2) = bind-Runs _ _ db1 k1 in
    let (known, db3, h3, k3) = bind-Runs _ _ db2 k2 in
    let (u4, db4, h4, k4) = bind-Runs _ _ db3 k3 in
    let (same1, eq1) = gets-Runs _ db h1 in
    let (free, eq2) = require-Runs _ _ db1 h2 in
    let (same3, eq3) = gets-Runs _ db2 h3 in
    let (there, eq4) = require-Runs _ _ db3 h4 in
    modify-Runs _ db4 k4 ∙ ap (add_entry row) (eq4 ∙ eq3 ∙ eq2 ∙ eq1)
