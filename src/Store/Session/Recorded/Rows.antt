-- ===== src/Store/Session/Recorded/Rows.antt =====
-- crates/mews-store/src/sessions.rs: the rows that the events of the end of a Turn leave.
use mews.Prelude.{
  String, Bool, Option, some, [], ◌∷◌, ◌++◌, ◌≡◌, refl, ap, sym, ◌∙◌, count, update_where, ◌==◌,
  ◌&&◌, ==_iff,
}
use mews.Protocol.Events.Client.{ClientEventKind}
use mews.Protocol.Events.Journal.{JournalEntry}
use mews.Protocol.Messages.{SessionEntryPayload, SessionEntry, ToolResult}
use mews.Protocol.Turns.{TurnStatus}
use mews.Protocol.Values.{Uid}
use mews.Store.Journal.Laws.{gets-Runs, modify-Runs, pure-Runs}
use mews.Store.Journal.Record.{session_of_subject}
use mews.Store.Session.Apply.{apply_event}
use mews.Store.Session.Effects.{
  Closing, closable, closed_as, set_effect_terminal, update_effects, with_end,
}
use mews.Store.Session.Entries.{
  add_entry, append_session_entry, observation_key_of, update_session, with_leaf,
}
use mews.Store.Session.Finish.{record_result}
use mews.Store.Session.Recorded.{
  Adds, SameTables-journals, insert_session_entry-Runs, known_session, record_applied-Runs,
}
use mews.Store.Session.Steps.{Feeds, Tells, Same-order}
use mews.Store.Session.Steps.Entries.{
  append_durable_client_event-Moves, append_session_entry-Moves, current_session_leaf-Moves,
  validate_session_item-Moves,
}
use mews.Store.Session.Steps.Record.{new_id-Moves}
use mews.Store.Session.Steps.Told.{record_tool_result-Moves}
use mews.Store.Session.Transcript.{record_tool_result}
use mews.Store.Session.Turns.{finished, project_turn_terminal, update_turns}
use mews.Store.Tables.{Db, EntryRow, is_active}
use mews.Store.Tx.{modify, when, IsPreorder, Moves, Moves-modify, Moves-when}
use mews.Store.Tx.Runs.{Runs, bind-Runs, require-Runs, Runs-Moves}

SameEntries-order : IsPreorder (λ (a b : Db). b.entries ≡ a.entries)
SameEntries-order = record { reflexive = λ db. refl; transitive = λ a b c h k. k ∙ h }

SameEntries-feeds : Feeds (λ a b. b.entries ≡ a.entries)
SameEntries-feeds = record { order = SameEntries-order; feed = λ f db. refl }

with_leaf-SameEntries :
    (c : Bool) (s : Uid) (l : Option Uid)
    → Moves (λ a b. b.entries ≡ a.entries) (when c (modify (update_session s (with_leaf l))))
unfolding update_session
with_leaf-SameEntries c s l = Moves-when SameEntries-order c _ (Moves-modify _ (λ db. refl))

-- The row of an entry that is appended.
pub append_session_entry-Row :
    (e : JournalEntry) (id : Uid) (p : SessionEntryPayload) (k : String) (c : Bool) (s : Uid)
    (db : Db) {entry : SessionEntry} {db' : Db}
    → session_of_subject e.subject ≡ some s
    → Runs (append_session_entry e id p k c) db entry db'
    → (row : EntryRow) × (db'.entries ≡ db.entries ++ row ∷ [])
      × (row.session_id ≡ s)
      × (row.payload ≡ p)
      × (row.observation_key ≡ observation_key_of e p)
unfolding append_session_entry add_entry
append_session_entry-Row e id p k c s db told h =
    let (t, db1, h1, k1) = bind-Runs _ _ db h in
    let (u2, db2, h2, k2) = bind-Runs _ _ db1 k1 in
    let (parent, db3, h3, k3) = bind-Runs _ _ db2 k2 in
    let (n, db4, h4, k4) = bind-Runs _ _ db3 k3 in
    let (u5, db5, h5, k5) = bind-Runs _ _ db4 k4 in
    let (u6, db6, h6, k6) = bind-Runs _ _ db5 k5 in
    let (same1, eq1) = known_session e db told h1 in
    let eq2 = Runs-Moves _ db1 (validate_session_item-Moves Same-order p) h2 in
    let eq3 = Runs-Moves _ db2 (current_session_leaf-Moves Same-order t) h3 in
    let (same4, eq4) = gets-Runs _ db3 h4 in
    let eq5 = insert_session_entry-Runs _ db4 h5 in
    let eq6 = Runs-Moves _ db5 (with_leaf-SameEntries c t (some id)) h6 in
    let (same7, eq7) = pure-Runs _ db6 k6 in
    let row : EntryRow = record {
      entry = record {
        id = id;
        session_id = t;
        sequence = n;
        parent_id = parent;
        payload = p;
        created_at = e.recorded_at;
      };
      kind = k;
      contextual = c;
      observation_key = observation_key_of e p;
    } in
    (
      row,
      ap (λ d. d.entries) eq7
          ∙ eq6
          ∙ ap (λ d. d.entries) eq5
          ∙ ap (λ d. d.entries ++ row ∷ []) (eq4 ∙ eq3 ∙ eq2 ∙ eq1),
      same1,
      refl,
      refl,
    )

append_session_entry-Adds :
    (e : JournalEntry) (id : Uid) (p : SessionEntryPayload) (k : String) (c : Bool) (s : Uid)
    (db : Db) {entry : SessionEntry} {db' : Db}
    → session_of_subject e.subject ≡ some s
    → Runs (append_session_entry e id p k c) db entry db'
    → Adds s p db db'
append_session_entry-Adds e id p k c s db told h =
    let (row, grown, session, payload, key) = append_session_entry-Row e id p k c s db told h in
    record { row = row; grown = grown; session = session; payload = payload }

-- An entry and what is told of it leave the Turns and the effects alone.
abbrev pub Untold : Db → Db → Type 0
Untold a b = (b.turns ≡ a.turns) × (b.effects ≡ a.effects)

pub Untold-tells : Tells Untold
unfolding update_session add_entry
Untold-tells = record {
  feeds = record {
    order = record {
      reflexive = λ db. (refl, refl);
      transitive = λ a b c h k. (k.0 ∙ h.0, k.1 ∙ h.1);
    };
    feed = λ f db. (refl, refl);
  };
  leaf = λ i l db. (refl, refl);
  entry = λ row db h k l. (refl, refl);
}

Adds-moved :
    {s : Uid} {p : SessionEntryPayload} {a b c d : Db}
    → b.entries ≡ a.entries
    → Adds s p b c
    → d.entries ≡ c.entries
    → Adds s p a d
Adds-moved h added k = record {
  row = added.row;
  grown = k ∙ added.grown ∙ ap (λ l. l ++ added.row ∷ []) h;
  session = added.session;
  payload = added.payload;
}

-- The result of a tool call is one more entry of the Session, and nothing else of the projection.
pub record_result-Runs :
    (s t : Uid) (call tool detail : String) (uncertain : Bool) (db : Db) {u : Unit} {db' : Db}
    → Runs (record_result s t call tool detail uncertain) db u db'
    → (r : ToolResult) × (r.call_id ≡ call)
      × Adds s (SessionEntryPayload.tool_result t r) db db'
      × Untold db db'
unfolding apply_event record_tool_result
record_result-Runs s t call tool detail uncertain db h =
    let (id, db1, h1, k1) = bind-Runs _ _ db h in
    let same1 = Runs-Moves _ db (new_id-Moves SameTables-journals) h1 in
    let (e, db2, tells, same2, k2) = record_applied-Runs s _ _ _ db1 k1 in
    let (entry, db3, h3, k3) = bind-Runs _ _ db2 k2 in
    let added = append_session_entry-Adds e _ _ _ _ s db2 tells.session h3 in
    let told = Runs-Moves _ db3 (append_durable_client_event-Moves SameEntries-feeds e _ _) k3 in
    let quiet = Runs-Moves _ db2 (record_tool_result-Moves Untold-tells e t id _) k2 in
    (
      _,
      refl,
      Adds-moved (same2.entries ∙ same1.entries) added told,
      (quiet.0 ∙ same2.turns ∙ same1.turns, quiet.1 ∙ same2.effects ∙ same1.effects),
    )

-- An effect that is closed was one open effect of the Turn in the Session.
pub set_effect_terminal-Runs :
    (e : JournalEntry) (o t : Uid) (c : Closing) (raw : Option ToolResult) (s : Uid) (db : Db)
    {u : Unit} {db' : Db}
    → session_of_subject e.subject ≡ some s
    → Runs (set_effect_terminal e o t c raw) db u db'
    → (count (closable s t o) db.effects ≡ 1)
      × (db' ≡ update_effects (closable s t o) (with_end (closed_as c) e raw) db)
unfolding set_effect_terminal
set_effect_terminal-Runs e o t c raw s db {db' = db'} told h =
    let (i, db1, h1, k1) = bind-Runs _ _ db h in
    let (n, db2, h2, k2) = bind-Runs _ _ db1 k1 in
    let (u3, db3, h3, k3) = bind-Runs _ _ db2 k2 in
    let (same1, eq1) = known_session e db told h1 in
    let (same2, eq2) = gets-Runs _ db1 h2 in
    let eq3 = modify-Runs _ db2 h3 in
    let (one, eq4) = require-Runs _ _ db3 k3 in
    let counted : n ≡ 1 = (==_iff n 1).0 one in
    (
      ap (λ d. count (closable s t o) d.effects) (sym eq1)
          ∙ ap (λ j. count (closable j t o) db1.effects) (sym same1)
          ∙ sym same2
          ∙ counted,
      eq4
          ∙ eq3
          ∙ ap (update_effects (closable i t o) (with_end (closed_as c) e raw)) (eq2 ∙ eq1)
          ∙ ap (λ j. update_effects (closable j t o) (with_end (closed_as c) e raw) db) same1,
    )

-- The end of a Turn: it was one active Turn, and is dated; an entry tells of it.
pub project_turn_terminal-Runs :
    (e : JournalEntry) (t : Uid) (status : TurnStatus) (error : Option String)
    (p : SessionEntryPayload) (kind : ClientEventKind) (s : Uid) (db : Db) {u : Unit} {db' : Db}
    → session_of_subject e.subject ≡ some s
    → Runs (project_turn_terminal e t status error p kind) db u db'
    → (count (λ r. r.id == t && is_active r) db.turns ≡ 1)
      × (db'.turns
          ≡ update_where
              (λ r. r.id == t && is_active r)
              (finished status error e.recorded_at)
              db.turns)
      × (db'.effects ≡ db.effects)
      × Adds s p db db'
unfolding project_turn_terminal update_turns
project_turn_terminal-Runs e t status error p kind s db told h =
    let (n, db1, h1, k1) = bind-Runs _ _ db h in
    let (u2, db2, h2, k2) = bind-Runs _ _ db1 k1 in
    let (u3, db3, h3, k3) = bind-Runs _ _ db2 k2 in
    let (entry, db4, h4, k4) = bind-Runs _ _ db3 k3 in
    let (same1, eq1) = gets-Runs _ db h1 in
    let eq2 = modify-Runs _ db1 h2 in
    let (one, eq3) = require-Runs _ _ db2 h3 in
    let added = append_session_entry-Adds e _ _ _ _ s db3 told h4 in
    let quiet = Runs-Moves _ db3 (append_session_entry-Moves Untold-tells e _ _ _ _) h4 in
    let told4 = Runs-Moves _ db4 (append_durable_client_event-Moves SameEntries-feeds e _ _) k4 in
    let quiet4 = Runs-Moves _ db4 (append_durable_client_event-Moves Untold-tells.feeds e _ _) k4 in
    let here = eq3 ∙ eq2 in
    (
      sym same1 ∙ (==_iff n 1).0 one,
      quiet4.0
          ∙ quiet.0
          ∙ ap (λ d. d.turns) here
          ∙ ap
              (λ d.
                update_where (λ r. r.id == t && is_active r) (finished status error e.recorded_at)
                  d.turns)
              eq1,
      quiet4.1 ∙ quiet.1 ∙ ap (λ d. d.effects) here ∙ ap (λ d. d.effects) eq1,
      Adds-moved (ap (λ d. d.entries) here ∙ ap (λ d. d.entries) eq1) added told4,
    )
