-- ===== src/Store/Session/Steps/Entries.antt =====
-- crates/mews-store/src/sessions.rs, the insertion of entries, Turns and client
-- events: they move along every relation that the changes of single tables move along.
use mews.Prelude.{String, Bool, true, false, not, Option, some, any, ◌≡◌, refl, arith}
use mews.Protocol.Events.Client.{ClientEventKind}
use mews.Protocol.Events.Journal.{JournalEntry}
use mews.Protocol.Messages.{SessionEntryPayload}
use mews.Protocol.Messages.{SessionEntryPayload}
use mews.Protocol.Values.{Uid, Time}
use mews.Store.Feed.{Feed}
use mews.Store.Journal.Record.{journal_session_id, session_of_subject}
use mews.Store.Result.{Result, ok, err}
use mews.Store.Session.Entries.{
  append_session_entry, entry_clashes, insert_session_entry, next_sequence, validate_session_item,
  current_session_leaf,
}
use mews.Store.Session.Signals.{
  append_durable_client_event, change_feed, validate_client_event, with_feed,
}
use mews.Store.Session.Steps.{Projects, Feeds, Tells, Moves-read, require-Leaves}
use mews.Store.Session.Turns.{
  active_turn, insert_turn, no_active_turn, has_ended, turn_clashes, validate_active_turn,
}
use mews.Store.Tables.{Db, EntryRow, TurnRow, is_active}
use mews.Store.Tx.{
  ◌>>=◌, gets, modify, IsPreorder, Leaves, Moves, moves, Moves-modify, Moves-bind, Moves-option,
  Moves-fail, Moves-pure, Moves-gets, Moves-when, Leaves-then,
}

module _ {R : Db → Db → Type 0} (order : IsPreorder R) where
  pub journal_session_id-Moves : (e : JournalEntry) → Moves R (journal_session_id e)
  unfolding journal_session_id
  journal_session_id-Moves e =
      Moves-option order (session_of_subject e.subject) _ _ (Moves-fail order _)
        (λ i. Moves-pure order i)

  pub validate_session_item-Moves : (p : SessionEntryPayload) → Moves R (validate_session_item p)
  unfolding validate_session_item
  validate_session_item-Moves p = search (moves, order)

  pub current_session_leaf-Moves : (s : Uid) → Moves R (current_session_leaf s)
  unfolding current_session_leaf
  current_session_leaf-Moves s = search (moves, order)

  pub validate_client_event-Moves :
      (s id : Uid) (kind : ClientEventKind) (origin : _) (at : Time)
      → Moves R (validate_client_event s id kind origin at)
  unfolding validate_client_event
  validate_client_event-Moves s id kind origin at = search (moves, order)

  pub validate_active_turn-Moves : (s t : Uid) → Moves R (validate_active_turn s t)
  unfolding validate_active_turn
  validate_active_turn-Moves s t = search (moves, order)

  pub no_active_turn-Moves : (s : Uid) → Moves R (no_active_turn s)
  unfolding no_active_turn
  no_active_turn-Moves s =
      Moves-bind order _ _ (Moves-gets order (active_turn s))
        (λ found. Moves-option order found _ _ (Moves-pure order tt) (λ t. Moves-fail order _))

pub not-false : (b : Bool) → not b ≡ true → b ≡ false
not-false b h = ground arith

module _ {R : Db → Db → Type 0} (p : Feeds R) where
  change_feed-result :
      (db : Db) (r : Result Feed)
      → Leaves R db (elim r [ err e ↦ err e | ok feed ↦ ok (tt, with_feed feed db) ])
  change_feed-result db (ok f) = p.feed f db
  change_feed-result db (err e) = tt

  pub change_feed-Moves : (f : Feed → Result Feed) → Moves R (change_feed f)
  unfolding change_feed
  change_feed-Moves f = record { at = λ db. change_feed-result db (f db.feed) }

  pub append_durable_client_event-Moves :
      (e : JournalEntry) (id : Option Uid) (kind : ClientEventKind)
      → Moves R (append_durable_client_event e id kind)
  unfolding append_durable_client_event
  append_durable_client_event-Moves e id kind =
      search
        (moves, p.order, journal_session_id-Moves, validate_client_event-Moves, change_feed-Moves)
        depth 12
  -- What is inserted has the next number of its Session.

module _ {R : Db → Db → Type 0} (p : Tells R) where
  pub insert_session_entry-Leaves :
      (row : EntryRow) (db : Db)
      → row.sequence ≡ next_sequence row.session_id db
      → Leaves R db (insert_session_entry row db)
  unfolding insert_session_entry gets modify ◌>>=◌
  insert_session_entry-Leaves row db next = require-Leaves R _ _ _ db (λ free.
      require-Leaves R _ _ _ db
        (λ known. p.entry row db next (not-false (any (entry_clashes row) db.entries) free) known))

  pub append_session_entry-Moves :
      (e : JournalEntry) (id : Uid) (payload : SessionEntryPayload) (kind : String) (c : Bool)
      → Moves R (append_session_entry e id payload kind c)
  unfolding append_session_entry
  append_session_entry-Moves e id payload kind c =
      Moves-bind p.order _ _ (journal_session_id-Moves p.order e) (λ s.
        Moves-bind p.order _ _ (validate_session_item-Moves p.order payload) (λ u.
          Moves-bind p.order _ _ (current_session_leaf-Moves p.order s) (λ parent.
            Moves-read (next_sequence s) _ (λ db.
              Leaves-then p.order _ _ db (insert_session_entry-Leaves _ db refl) (λ u.
                Moves-bind p.order _ _
                  (Moves-when p.order c _ (Moves-modify _ (p.leaf s (some id))))
                  (λ u. Moves-pure p.order _))))))

module _ {R : Db → Db → Type 0} (p : Projects R) where
  pub insert_turn-Moves :
      (row : TurnRow) → has_ended row.status ≡ not (is_active row) → Moves R (insert_turn row)
  unfolding insert_turn gets modify ◌>>=◌
  insert_turn-Moves row dated = record {
    at = λ db. require-Leaves R _ _ _ db (λ free.
        require-Leaves R _ _ _ db
          (λ known. p.turn row db (not-false (any (turn_clashes row) db.turns) free) dated));
  }
