-- ===== src/Store/Session/Steps.antt =====
-- crates/mews-store/src/sessions.rs: the changes of single tables that the projection is made of.
-- `Projects R` is a relation that holds across each of them, as the code guards them, and so across
-- all that an event changes.
pub mod Entries
pub mod Started
pub mod Told
pub mod Apply
pub mod Record
pub mod Actions
pub mod Finish
pub mod Sessions
pub mod Admission
pub mod Tables
pub mod Run
use mews.Prelude.{
  ℕ, String, Bool, true, false, not, Option, none, some, List, any, ◌==◌, ◌&&◌, ◌≡◌, refl, ap, sym,
  ◌∙◌, subst, ◌⊎◌,
}
use mews.Protocol.Events.Journal.{JournalEntry, JournalEvent}
use mews.Protocol.Messages.{HarnessProvenance, SessionEntryPayload, ToolResult}
use mews.Protocol.Turns.{AcpSessionBinding, Session, TurnStatus}
use mews.Protocol.Values.{Uid, Time}
use mews.Store.Feed.{Feed}
use mews.Store.Result.{Result, ok, err, StoreError}
use mews.Store.Session.Apply.{add_session, with_model}
use mews.Store.Session.Bindings.{put_binding, update_bindings}
use mews.Store.Session.Effects.{
  Closing, closed_as, add_effect, closable, effect_clashes, effect_parents_exist, startable,
  update_effects, with_end, with_start,
}
use mews.Store.Session.Entries.{
  add_entry, entry_clashes, entry_parents_exist, insert_session_entry, is_session, next_sequence,
  update_session, with_leaf,
}
use mews.Store.Session.Signals.{with_feed}
use mews.Store.Session.Turns.{
  add_turn, finished, has_ended, turn_clashes, update_turns, with_harness,
}
use mews.Store.Tables.{Db, EffectRow, EntryRow, TurnRow, is_active, is_started}
use mews.Store.Tx.{Tx, ◌>>=◌, ◌>>◌, gets, modify, require, IsPreorder, Leaves, Moves}

-- What a client event changes.
pub record Feeds (R : Db → Db → Type 0) : Type 0 where
  pub order : IsPreorder R
  pub feed : (f : Feed) (db : Db) → R db (with_feed f db)

-- What an entry and the client events of it change.
pub record Tells (R : Db → Db → Type 0) : Type 0 where
  pub feeds : Feeds R
  pub open feeds use *
  pub leaf : (id : Uid) (l : Option Uid) (db : Db) → R db (update_session id (with_leaf l) db)
  pub entry :
      (row : EntryRow) (db : Db)
      → row.sequence ≡ next_sequence row.session_id db
      → any (entry_clashes row) db.entries ≡ false
      → entry_parents_exist row db ≡ true
      → R db (add_entry row db)

-- What a Turn, an effect or a binding changes. `begun` tells of an operation that its effect has been
-- started: a started row shows it, every change keeps it, and only a failure closes without it.
pub record Projects (R : Db → Db → Type 0) : Type 1 where
  pub tells : Tells R
  pub open tells use *
  pub session : (s : Session) (db : Db) → is_session s.id db ≡ false → R db (add_session s db)
  pub model : (id : Uid) (m : Option String) (db : Db) → R db (update_session id (with_model m) db)
  pub turn :
      (row : TurnRow) (db : Db)
      → any (turn_clashes row) db.turns ≡ false
      → has_ended row.status ≡ not (is_active row)
      → R db (add_turn row db)
  pub harness :
      (s id : Uid) (h : HarnessProvenance) (db : Db)
      → any (λ t. t.id == id && t.session_id == s && is_active t) db.turns ≡ true
      → R db (update_turns (λ t. t.id == id) (with_harness h) db)
  pub finish :
      (id : Uid) (status : TurnStatus) (error : Option String) (at : Time) (db : Db)
      → has_ended status ≡ true
      → R db (update_turns (λ t. t.id == id && is_active t) (finished status error at) db)
  pub effect :
      (row : EffectRow) (db : Db)
      → any (effect_clashes row) db.effects ≡ false
      → effect_parents_exist row db ≡ true
      → R db (add_effect row db)
  pub start :
      (operation : Uid) (at : Time) (db : Db)
      → R db (update_effects (startable operation) (with_start at) db)
  pub begun : Uid → Db → Type 0
  pub stays : (operation : Uid) (a b : Db) → R a b → begun operation a → begun operation b
  pub checks :
      (operation : Uid) (db : Db)
      → any (λ e. e.operation_id == operation && is_started e.status) db.effects ≡ true
      → begun operation db
  pub close :
      (s t operation : Uid) (status : Closing) (e : JournalEntry) (raw : Option ToolResult)
      (db : Db)
      → begun operation db ⊎ (status ≡ Closing.failed)
      → R db (update_effects (closable s t operation) (with_end (closed_as status) e raw) db)
  pub binding : (b : AcpSessionBinding) (db : Db) → R db (put_binding b db)
  pub bindings :
      (p : AcpSessionBinding → Bool) (f : AcpSessionBinding → AcpSessionBinding) (db : Db)
      → R db (update_bindings p f db)

-- What the tables have to show before a payload is projected: an effect has been started, where the
-- payload tells of its result, or of an unknown one.
abbrev pub Justified : {R : Db → Db → Type 0} → Projects R → JournalEvent → Db → Type 0
Justified p (JournalEvent.tool_execution_completed operation turn result) db = p.begun operation db
Justified p (JournalEvent.effect_succeeded operation turn result) db = p.begun operation db
Justified p (JournalEvent.effect_uncertain operation turn reason) db = p.begun operation db
Justified p payload db = Unit

-- A payload that needs nothing.
abbrev pub is_ordinary : JournalEvent → Bool
is_ordinary (JournalEvent.tool_execution_completed operation turn result) = false
is_ordinary (JournalEvent.effect_succeeded operation turn result) = false
is_ordinary (JournalEvent.effect_uncertain operation turn reason) = false
is_ordinary payload = true

pub ordinary_Justified :
    {R : Db → Db → Type 0} (p : Projects R) (payload : JournalEvent)
    → is_ordinary payload ≡ true
    → (db : Db) → Justified p payload db
ordinary_Justified p (JournalEvent.tool_execution_completed operation turn result) h db =
    absurd (cc)
ordinary_Justified p (JournalEvent.effect_succeeded operation turn result) h db = absurd (cc)
ordinary_Justified p (JournalEvent.effect_uncertain operation turn reason) h db = absurd (cc)
ordinary_Justified p _ h db = tt

-- A value that is read and what follows from it, at the tables it is read from.
pub Moves-read :
    {R : Db → Db → Type 0} {A B : Type 0} (f : Db → A) (k : A → Tx B)
    → ((db : Db) → Leaves R db (k (f db) db))
    → Moves R (gets f >>= k)
unfolding gets ◌>>=◌
Moves-read f k h = record { at = h }

-- A guard that passes, and what follows at the same tables.
pub require-Leaves :
    (R : Db → Db → Type 0) {B : Type 0} (b : Bool) (e : StoreError) (m : Tx B) (db : Db)
    → (b ≡ true → Leaves R db (m db))
    → Leaves R db ((require b e >> m) db)
unfolding require ◌>>=◌
require-Leaves R true e m db h = h refl
require-Leaves R false e m db h = tt

unchanged_result :
    (R : Db → Db → Type 0) {A B : Type 0} (f : A → Tx B) (db : Db) (r : Result (A × Db))
    → Leaves (λ a b. b ≡ a) db r
    → ((a : A) → Leaves R db (f a db))
    → Leaves R db (elim r [ err e ↦ err e | ok (a, db') ↦ f a db' ])
unchanged_result R f db (ok (a, db')) h k = subst (λ d. Leaves R db (f a d)) (sym h) (k a)
unchanged_result R f db (err e) h k = tt

-- A guard that is read from the tables, and what follows at the same tables.
pub checked-Leaves :
    (R : Db → Db → Type 0) {B : Type 0} (f : Db → Bool) (e : StoreError) (m : Tx B) (db : Db)
    → (f db ≡ true → Leaves R db (m db))
    → Leaves R db ((gets f >>= λ b. require b e >> m) db)
unfolding gets ◌>>=◌
checked-Leaves R f e m db h = require-Leaves R (f db) e m db h

-- What is only read does not count before what follows.
pub unchanged-Leaves :
    (R : Db → Db → Type 0) {A B : Type 0} (m : Tx A) (f : A → Tx B) (db : Db)
    → Moves (λ a b. b ≡ a) m
    → ((a : A) → Leaves R db (f a db))
    → Leaves R db ((m >>= f) db)
unfolding ◌>>=◌
unchanged-Leaves R m f db h k = unchanged_result R f db (m db) (h.at db) k

pub Same-order : IsPreorder (λ (a b : Db). b ≡ a)
Same-order = record { reflexive = λ db. refl; transitive = λ a b c h k. k ∙ h }
