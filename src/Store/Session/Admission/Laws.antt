-- ===== src/Store/Session/Admission/Laws.antt =====
-- crates/mews-store/src/sessions.rs: an accepted Turn and the replay of its request.
use Prim.Native.String.{◌++◌ as append_text}
use text.Mathlib.Text.{◌==◌ as str_eq}
use mews.Prelude.{
  String, Bool, true, false, Option, none, some, ◌≡◌, refl, ap, sym, subst, ◌∙◌, if◌then◌else◌,
}
use mews.Protocol.Messages.{Message, MessageContent}
use mews.Protocol.Messages.Input.{TurnInputValidationError}
use mews.Protocol.Turns.{Turn}
use mews.Protocol.Values.{Value}
use mews.Store.Journal.{select_command_receipt}
use mews.Store.Result.{
  ok, err, command_conflict, invalid_data, invalid_turn_input, serialization, StoreError,
}
use mews.Store.Session.Admission.{
  TurnRequest, accept_turn_idempotent, input_error, load_turn_result, replay_turn_idempotent,
  turn_command_id, turn_request_hash, validate_input,
}
use mews.Store.Tables.{CommandReceipt, Db}
use mews.Store.Tx.{Tx, ◌>>=◌, ◌>>◌, gets, pure, fail, require, require_some}
use mews.Store.Tx.Runs.{Runs, Runs-bind, bind_ok}
use mews.Store.Session.Admission.Accepted.{hash_of, accept_turn_idempotent-Accepted}

input-Runs :
    (q : TurnRequest) (db : Db)
    → input_error q q.content db ≡ none
    → Runs (validate_input q q.content) db tt db
unfolding validate_input gets ◌>>=◌ pure
input-Runs q db h =
    let rest : Option TurnInputValidationError → Tx Unit =
      λ o. elim o [ none ↦ pure tt | some e ↦ fail (invalid_data (invalid_turn_input e)) ] in
    ap (λ o. rest o db) h

hash-Runs :
    (q : TurnRequest) (db : Db) {h : String}
    → hash_of q db ≡ some h
    → Runs (turn_request_hash q) db h db
unfolding turn_request_hash gets ◌>>=◌ require_some
hash-Runs q db h = ap (λ o. require_some o (invalid_data serialization) db) h

loaded-Runs :
    (q : TurnRequest) (v : Value) (db : Db) {l : Turn × Message}
    → Runs (load_turn_result q.session v) db l db
    → Runs (load_turn_result q.session v >>= λ x. pure (some x)) db (some l) db
unfolding pure
loaded-Runs q v db h = Runs-bind _ _ db h refl

if_required :
    {A : Type 0} (b : Bool) (e : StoreError) (m : Tx A) (db : Db) {a : A}
    → Runs m db a db
    → (require b e >> m) db ≡ (if b then ok (a, db) else err e)
unfolding require ◌>>=◌
if_required true e m db h = h
if_required false e m db h = refl

-- After a request for a Turn has been accepted, the replay of an acceptable request with the same
-- Session and key changes nothing: with the hash of the first it gives the Turn and the message of the
-- first, and with another hash it is refused as a conflict.
pub replay_turn_idempotent_lem :
    (q q' : TurnRequest) (c : MessageContent) (db db' : Db) (t : Turn) (m : Message) (b : Bool)
    (h h' : String)
    → accept_turn_idempotent q c db ≡ ok ((t, m, b), db')
    → q'.session ≡ q.session
    → q'.key ≡ q.key
    → input_error q' q'.content db' ≡ none
    → hash_of q db' ≡ some h
    → hash_of q' db' ≡ some h'
    → replay_turn_idempotent q' db' ≡ (
        if str_eq h h'
        then ok (some (t, m), db')
        else err (command_conflict (turn_command_id q' db')))
unfolding replay_turn_idempotent turn_command_id gets
replay_turn_idempotent_lem q q' c db db' t m b h h' run session key valid hashed hashed' =
    let a = accept_turn_idempotent-Accepted q c db db' t m b run in
    let command = turn_command_id q' db' in
    let name : command ≡ turn_command_id q db' =
      ap
        (λ s.
          append_text "turn:" (append_text (db'.outside.session_text s) (append_text ":" q'.key)))
        session
      ∙ ap
          (λ k.
            append_text "turn:"
              (append_text (db'.outside.session_text q.session) (append_text ":" k)))
          key in
    let same : a.receipt.request_hash ≡ h = cc (a.hashed, hashed) in
    let rest : Option CommandReceipt → Tx (Option (Turn × Message)) = λ o. elim o [
      | none ↦ pure none
      | some receipt ↦ (do
        hash ← turn_request_hash q'
        require (str_eq receipt.request_hash hash) (command_conflict command)
        loaded ← load_turn_result q'.session receipt.result
        pure (some loaded))
    ] in
    bind_ok (validate_input q' q'.content) _ db' (input-Runs q' db' valid)
    ∙ bind_ok (gets (turn_command_id q')) _ db' refl
    ∙ bind_ok (gets (λ d. select_command_receipt command d.receipts)) _ db' refl
    ∙ ap (λ o. rest o db') (ap (λ n. select_command_receipt n db'.receipts) name ∙ a.known)
    ∙ bind_ok (turn_request_hash q') _ db' (hash-Runs q' db' hashed')
    ∙ if_required (str_eq a.receipt.request_hash h') (command_conflict command) _ db' (
        loaded-Runs q' a.receipt.result db' (
          subst (λ s. Runs (load_turn_result s a.receipt.result) db' (t, m) db') (sym session)
            a.loads))
    ∙ ap (λ x. if str_eq x h' then ok (some (t, m), db') else err (command_conflict command)) same
