-- ===== src/Store/Session/Admission/Accepted.antt =====
-- crates/mews-store/src/sessions.rs: what the store knows of an accepted request.
use Prim.Native.String.{◌++◌ as append_text}
use mews.Prelude.{
  ℕ, String, Bool, Option, none, some, List, [], ◌∷◌, ◌≡◌, refl, ap, sym, subst, ◌∙◌,
}
use mews.Protocol.Events.Journal.{JournalEntry, JournalEvent}
use mews.Protocol.Messages.{Message, MessageContent}
use mews.Protocol.Turns.{Turn}
use mews.Protocol.Values.{Uid, Value}
use mews.Store.Journal.{
  AppendOutcome, append_journal_entries_in, receipt_of, select_command_receipt,
}
use mews.Store.Journal.Check.{JournalAppend}
use mews.Store.Journal.Laws.{gets-Runs, pure-Runs}
use mews.Store.Journal.Retry.{Keeps, stored_receipt}
use mews.Store.Result.{StoreError}
use mews.Store.Session.Admission.{
  TurnRequest, accept_turn_idempotent, apply_first, load_turn_result, turn_append, turn_command_id,
  turn_request_hash,
}
use mews.Store.Session.Apply.{add_session}
use mews.Store.Session.Bindings.{put_binding, update_bindings}
use mews.Store.Session.Effects.{add_effect, update_effects}
use mews.Store.Session.Entries.{add_entry, update_session}
use mews.Store.Session.Finish.{select_turn}
use mews.Store.Session.Record.{select_session_entry}
use mews.Store.Journal.{insert_receipt, insert_row}
use mews.Store.Session.Steps.{Justified, Projects, Same-order}
use mews.Store.Session.Steps.Apply.{apply_session_journal_entry-Leaves}
use mews.Store.Session.Steps.Record.{Records, new_id-Moves}
use mews.Store.Session.Steps.Admission.{
  append_journal_entries_in-Moves, turn_append-Moves, turn_append-Ordinary,
}
use mews.Store.Session.Steps.Sessions.{message_from_entry-Moves}
use mews.Store.Session.Turns.{add_turn, update_turns}
use mews.Store.Tables.{CommandReceipt, Db, Outside}
use mews.Store.Tx.{IsPreorder, Moves, Moves-pure, moves, require_some}
use mews.Store.Tx.Yields.{Runs-Yields}
use mews.Store.Tx.Runs.{Runs, bind-Runs, Runs-Moves}

Keeps-order : IsPreorder Keeps
Keeps-order = record {
  reflexive = λ db. record { journal = refl; watermark = refl; receipts = refl };
  transitive = λ a b c h k. record {
    journal = k.journal ∙ h.journal;
    watermark = k.watermark ∙ h.watermark;
    receipts = k.receipts ∙ h.receipts;
  };
}

-- The projection leaves the journal and the receipts alone.
Keeps-Projects : Projects Keeps
unfolding add_session update_session add_entry add_turn update_turns add_effect update_effects
    put_binding update_bindings
Keeps-Projects = record {
  tells = record {
    feeds = record {
      order = Keeps-order;
      feed = λ f db. record { journal = refl; watermark = refl; receipts = refl };
    };
    leaf = λ i l db. record { journal = refl; watermark = refl; receipts = refl };
    entry = λ row db h k l. record { journal = refl; watermark = refl; receipts = refl };
  };
  session = λ s db h. record { journal = refl; watermark = refl; receipts = refl };
  model = λ i m db. record { journal = refl; watermark = refl; receipts = refl };
  turn = λ row db h k. record { journal = refl; watermark = refl; receipts = refl };
  harness = λ s i h db k. record { journal = refl; watermark = refl; receipts = refl };
  finish = λ i status error at db h. record { journal = refl; watermark = refl; receipts = refl };
  effect = λ row db h k. record { journal = refl; watermark = refl; receipts = refl };
  start = λ o at db. record { journal = refl; watermark = refl; receipts = refl };
  begun = λ o db. Unit;
  stays = λ o a b h k. tt;
  checks = λ o db h. tt;
  close = λ s t o c e raw db h. record { journal = refl; watermark = refl; receipts = refl };
  binding = λ b db. record { journal = refl; watermark = refl; receipts = refl };
  bindings = λ p f db. record { journal = refl; watermark = refl; receipts = refl };
}

select_turn-Same : (t : Uid) → Moves (λ (a b : Db). b ≡ a) (select_turn t)
unfolding select_turn
select_turn-Same t = search (moves, Same-order) depth 12

select_session_entry-Same : (s id : Uid) → Moves (λ (a b : Db). b ≡ a) (select_session_entry s id)
unfolding select_session_entry
select_session_entry-Same s id = search (moves, Same-order) depth 12

load_turn_result-Same : (s : Uid) (v : Value) → Moves (λ (a b : Db). b ≡ a) (load_turn_result s v)
unfolding load_turn_result
load_turn_result-Same s v =
    search
      (moves, Same-order, select_turn-Same, select_session_entry-Same, message_from_entry-Moves)
      depth 12

always_Justified : (p : JournalEvent) (db : Db) → Justified Keeps-Projects p db
unfolding Keeps-Projects
always_Justified (JournalEvent.tool_execution_completed operation turn result) db = tt
always_Justified (JournalEvent.effect_succeeded operation turn result) db = tt
always_Justified (JournalEvent.effect_uncertain operation turn reason) db = tt
always_Justified p db = tt

apply_first-Keeps : (es : List JournalEntry) → Moves Keeps (apply_first es)
unfolding apply_first
apply_first-Keeps [] = Moves-pure Keeps-order tt
apply_first-Keeps (e ∷ es) = record {
  at = λ db. apply_session_journal_entry-Leaves Keeps-Projects e db (always_Justified e.payload db);
}

SameOutside-order : IsPreorder (λ (a b : Db). b.outside ≡ a.outside)
SameOutside-order = record { reflexive = λ db. refl; transitive = λ a b c h k. k ∙ h }

-- What a store takes from outside is the same for each transaction.
outside-Records : Records (λ a b. b.outside ≡ a.outside)
unfolding add_session update_session add_entry add_turn update_turns add_effect update_effects
    put_binding update_bindings insert_row insert_receipt
outside-Records = record {
  projects = record {
    tells = record {
      feeds = record { order = SameOutside-order; feed = λ f db. refl };
      leaf = λ i l db. refl;
      entry = λ row db h k l. refl;
    };
    session = λ s db h. refl;
    model = λ i m db. refl;
    turn = λ row db h k. refl;
    harness = λ s i h db k. refl;
    finish = λ i status error at db h. refl;
    effect = λ row db h k. refl;
    start = λ o at db. refl;
    begun = λ o db. Unit;
    stays = λ o a b h k. tt;
    checks = λ o db h. tt;
    close = λ s t o c e raw db h. refl;
    binding = λ b db. refl;
    bindings = λ p f db. refl;
  };
  journals = record {
    order = SameOutside-order;
    draw = λ db. refl;
    tick = λ db. refl;
    journal = λ e db. refl;
  };
  receipt = λ c db. refl;
}

-- The hash of a request, if it can be serialized.
abbrev pub hash_of : TurnRequest → Db → Option String
hash_of q db = db.outside.request_hash q.session q.content q.metadata q.source

require_some-Runs :
    {A : Type 0} (o : Option A) (e : StoreError) (db : Db) {a : A} {db' : Db}
    → Runs (require_some o e) db a db'
    → (o ≡ some a) × (db' ≡ db)
unfolding require_some
require_some-Runs none e db h = absurd (cc)
require_some-Runs (some b) e db h = (cc, cc)

turn_request_hash-Runs :
    (q : TurnRequest) (db : Db) {h : String} {db' : Db}
    → Runs (turn_request_hash q) db h db'
    → (hash_of q db ≡ some h) × (db' ≡ db)
unfolding turn_request_hash
turn_request_hash-Runs q db run =
    let (o, db1, h1, k1) = bind-Runs _ _ db run in
    let (same, eq1) = gets-Runs _ db h1 in
    let (found, eq2) = require_some-Runs _ _ db1 k1 in (sym same ∙ found, eq2 ∙ eq1)

-- The name of the command of a request.
abbrev command_of : TurnRequest → Outside → String
command_of q o =
    append_text "turn:" (append_text (o.session_text q.session) (append_text ":" q.key))

-- The append of a request names its command and has its hash.
turn_append-Runs :
    (q : TurnRequest) (c : MessageContent) (n : ℕ) (db : Db) {a : JournalAppend} {db' : Db}
    → Runs (turn_append q c n) db a db'
    → (a.command_id ≡ turn_command_id q db) × (hash_of q db ≡ some a.request_hash)
unfolding turn_append turn_command_id
turn_append-Runs q c n db run =
    let (t, db1, h1, k1) = bind-Runs _ _ db run in
    let (e, db2, h2, k2) = bind-Runs _ _ db1 k1 in
    let (command, db3, h3, k3) = bind-Runs _ _ db2 k2 in
    let (hash, db4, h4, k4) = bind-Runs _ _ db3 k3 in
    let (result, db5, h5, k5) = bind-Runs _ _ db4 k4 in
    let (i, db6, h6, k6) = bind-Runs _ _ db5 k5 in
    let (is_it, eq6) = pure-Runs _ db6 k6 in
    let (named, eq3) = gets-Runs _ db2 h3 in
    let (hashed, eq4) = turn_request_hash-Runs q db3 h4 in
    let o1 = Runs-Moves _ db (new_id-Moves outside-Records.journals) h1 in
    let o2 = Runs-Moves _ db1 (new_id-Moves outside-Records.journals) h2 in
    let there : db2.outside ≡ db.outside = o2 ∙ o1 in
    (
      ap (λ x. x.command_id) is_it ∙ named ∙ ap (λ o. command_of q o) there,
      ap (λ o. o.request_hash q.session q.content q.metadata q.source)
            (sym (ap (λ d. d.outside) eq3 ∙ there))
          ∙ hashed
          ∙ ap (λ x. some x.request_hash) (sym is_it),
    )

-- What the store knows of a request that was accepted: a receipt with its hash, of a result that can
-- be loaded.
pub record Accepted (q : TurnRequest) (t : Turn) (m : Message) (db : Db) : Type 0 where
  pub receipt : CommandReceipt
  pub known : select_command_receipt (turn_command_id q db) db.receipts ≡ some receipt
  pub hashed : hash_of q db ≡ some receipt.request_hash
  pub loads : Runs (load_turn_result q.session receipt.result) db (t, m) db

append-Accepted :
    (q : TurnRequest) (a : JournalAppend) (o : AppendOutcome) (t : Turn) (m : Message)
    (db db1 db2 : Db)
    → (a.command_id ≡ turn_command_id q db) × (hash_of q db ≡ some a.request_hash)
    → db2.outside ≡ db.outside
    → Runs (append_journal_entries_in a apply_first) db1 o db2
    → Runs (load_turn_result q.session (receipt_of o).result) db2 (t, m) db2
    → Accepted q t m db2
unfolding turn_command_id
append-Accepted q a o t m db db1 db2 named same h k =
    let (known, request) = stored_receipt a apply_first apply_first-Keeps db1 o db2 h in
    record {
      receipt = receipt_of o;
      known =
          ap (λ c. select_command_receipt c db2.receipts) (ap (command_of q) same ∙ sym (named.0))
          ∙ known;
      hashed =
          ap (λ p. p.request_hash q.session q.content q.metadata q.source) same
          ∙ named.1
          ∙ ap some (sym request);
      loads = k;
    }

pub accept_turn_idempotent-Accepted :
    (q : TurnRequest) (c : MessageContent) (db db' : Db) (t : Turn) (m : Message) (b : Bool)
    → Runs (accept_turn_idempotent q c) db (t, m, b) db'
    → Accepted q t m db'
unfolding accept_turn_idempotent
accept_turn_idempotent-Accepted q c db db' t m b run =
    let (u1, db1, h1, k1) = bind-Runs _ _ db run in
    let (u2, db2, h2, k2) = bind-Runs _ _ db1 k1 in
    let (found, db3, h3, k3) = bind-Runs _ _ db2 k2 in
    let (n, db4, h4, k4) = bind-Runs _ _ db3 k3 in
    let (a, db5, h5, k5) = bind-Runs _ _ db4 k4 in
    let (o, db6, h6, k6) = bind-Runs _ _ db5 k5 in
    let (loaded, db7, h7, k7) = bind-Runs _ _ db6 k6 in
    let (is_it, eq8) = pure-Runs _ db7 k7 in
    let still : db7 ≡ db6 =
      Runs-Moves _ db6 (load_turn_result-Same q.session (receipt_of o).result) h7 in
    let out5 = Runs-Moves _ db4 (turn_append-Moves outside-Records q c n) h5 in
    let ordinary = Runs-Yields _ _ db4 (turn_append-Ordinary outside-Records q c n) h5 in
    let out6 = Runs-Moves _ db5 (append_journal_entries_in-Moves outside-Records a ordinary) h6 in
    let pair : loaded ≡ (t, m) = sym (ap (λ (x : Turn × Message × Bool). (x.0, x.1)) is_it) in
    subst (Accepted q t m) (sym (eq8 ∙ still)) (
      append-Accepted q a o t m db4 db5 db6 (turn_append-Runs q c n db4 h5) (out6 ∙ out5) h6 (
        subst (λ l. Runs (load_turn_result q.session (receipt_of o).result) db6 l db6) pair
          (subst (λ d. Runs (load_turn_result q.session (receipt_of o).result) db6 loaded d) still
            h7)))
