-- ===== src/Store/Session/Steps/Admission.antt =====
-- crates/mews-store/src/{sessions,events}.rs: the acceptance of a Turn moves along every relation that
-- its single changes move along.
use mews.Prelude.{String, Option, none, some, List, [], ◌∷◌, ◌≡◌, refl, true}
use mews.Protocol.Events.Journal.{JournalEntry}
use mews.Protocol.Messages.{MessageContent}
use mews.Protocol.Values.{Time, Uid, Value}
use mews.Store.Journal.{
  append_journal_entries_in, append_new, insert_entries, insert_subjects, unless_known,
}
use mews.Store.Journal.Check.{JournalAppend, JournalSubjectAppend, NewJournalEntry}
use mews.Store.Session.Admission.{
  TurnRequest, accept_turn_idempotent, apply_first, input_error, load_turn_result, turn_append,
  turn_request_hash, validate_input,
}
use mews.Store.Session.Steps.Apply.{apply_session_journal_entry-Leaves}
use mews.Store.Session.Steps.Finish.{select_turn-Moves}
use mews.Store.Journal.Payloads.{Carry, Entries, insert_subjects-Carry}
use mews.Store.Session.Steps.{is_ordinary, ordinary_Justified}
use mews.Store.Session.Steps.Record.{
  Records, accepted-Moves, insert_entry-Moves, order, parts, utc_now-Moves,
}
use mews.Store.Tx.Yields.{Yields, Yields-bind, Yields-pure, Moves-yield}
use mews.Store.Tables.{CommandReceipt, Db}
use mews.Store.Tx.{
  Moves, Moves-bind, Moves-fail, Moves-gets, Moves-if, Moves-modify, Moves-option, Moves-pure,
  Moves-require_some,
}
use mews.Store.Session.Steps.Sessions.{message_from_entry-Moves}

module _ {R : Db → Db → Type 0} (r : Records R) where
  pub validate_input-Moves : (q : TurnRequest) (c : MessageContent) → Moves R (validate_input q c)
  unfolding validate_input
  validate_input-Moves q c =
      Moves-bind (order r) _ _ (Moves-gets (order r) (input_error q c)) (λ found.
        Moves-option (order r) found _ _ (Moves-pure (order r) tt) (λ e. Moves-fail (order r) _))

  pub turn_request_hash-Moves : (q : TurnRequest) → Moves R (turn_request_hash q)
  unfolding turn_request_hash
  turn_request_hash-Moves q = search (parts) depth 12

  pub load_turn_result-Moves : (s : Uid) (v : Value) → Moves R (load_turn_result s v)
  unfolding load_turn_result
  load_turn_result-Moves s v = search (parts, select_turn-Moves, message_from_entry-Moves) depth 12

  pub turn_append-Moves :
      (q : TurnRequest) (c : MessageContent) (n : _) → Moves R (turn_append q c n)
  unfolding turn_append
  turn_append-Moves q c n = search (parts, turn_request_hash-Moves) depth 12

  insert_entries-Moves :
      (c : String) (at : Time) (s : JournalSubjectAppend) (es : List NewJournalEntry)
      → Moves R (insert_entries c at s es)
  unfolding insert_entries
  insert_entries-Moves c at s [] = Moves-pure (order r) []
  insert_entries-Moves c at s (e ∷ es) =
      Moves-bind (order r) _ _ (insert_entry-Moves r.journals _ _ _ at e) (λ first.
        Moves-bind (order r) _ _ (insert_entries-Moves c at s es) (λ rest. Moves-pure (order r) _))

  insert_subjects-Moves :
      (c : String) (at : Time) (ss : List JournalSubjectAppend) → Moves R (insert_subjects c at ss)
  unfolding insert_subjects
  insert_subjects-Moves c at [] = Moves-pure (order r) []
  insert_subjects-Moves c at (s ∷ ss) =
      Moves-bind (order r) _ _ (insert_entries-Moves c at s s.entries) (λ first.
        Moves-bind (order r) _ _ (insert_subjects-Moves c at ss) (λ rest. Moves-pure (order r) _))

  Ordinaries : List JournalEntry → Type 0
  Ordinaries = Carry (λ p. is_ordinary p ≡ true)

  -- The payloads that an append asks for are of no effect.
  abbrev pub OrdinaryAppend : JournalAppend → Type 0
  OrdinaryAppend a = Entries (λ p. is_ordinary p ≡ true) a.subjects

  apply_first-Moves : (es : List JournalEntry) → Ordinaries es → Moves R (apply_first es)
  unfolding apply_first Ordinaries
  apply_first-Moves [] h = Moves-pure (order r) tt
  apply_first-Moves (e ∷ es) h = record {
    at = λ db.
        apply_session_journal_entry-Leaves r.projects e db
          (ordinary_Justified r.projects e.payload h.0 db);
  }

  append_new-Moves : (a : JournalAppend) → OrdinaryAppend a → Moves R (append_new a apply_first)
  unfolding append_new Ordinaries
  append_new-Moves a h = Moves-bind (order r) _ _ (utc_now-Moves r.journals) (λ now.
      Moves-yield (order r) Ordinaries _ _ (insert_subjects-Moves _ now a.subjects)
        (insert_subjects-Carry _ _ now a.subjects h)
        (λ es carried. Moves-bind (order r) _ _ (apply_first-Moves es carried) (λ u.
          Moves-bind (order r) _ _ (Moves-modify _ (λ db. r.receipt _ db))
            (λ v. Moves-pure (order r) _))))

  unless_known-Moves :
      (a : JournalAppend) (k : Option CommandReceipt)
      → OrdinaryAppend a
      → Moves R (unless_known a apply_first k)
  unfolding unless_known
  unless_known-Moves a none h = append_new-Moves a h
  unless_known-Moves a (some c) h =
      Moves-if (order r) _ _ _ (Moves-pure (order r) _) (Moves-fail (order r) _)

  pub append_journal_entries_in-Moves :
      (a : JournalAppend) → OrdinaryAppend a → Moves R (append_journal_entries_in a apply_first)
  unfolding append_journal_entries_in
  append_journal_entries_in-Moves a h = Moves-bind (order r) _ _ (accepted-Moves r.journals _) (λ u.
      Moves-bind (order r) _ _ (Moves-gets (order r) _) (λ known. unless_known-Moves a known h))

  -- The append of a request tells of a Turn that is accepted and started.
  pub turn_append-Ordinary :
      (q : TurnRequest) (c : MessageContent) (n : _) → Yields OrdinaryAppend (turn_append q c n)
  unfolding turn_append
  turn_append-Ordinary q c n = Yields-bind _ _ _ (λ turn. Yields-bind _ _ _ (λ entry.
      Yields-bind _ _ _ (λ command. Yields-bind _ _ _ (λ hash.
        Yields-bind _ _ _
          (λ result. Yields-bind _ _ _ (λ event. Yields-pure _ _ ((refl, tt), tt)))))))

  pub accept_turn_idempotent-Moves :
      (q : TurnRequest) (c : MessageContent) → Moves R (accept_turn_idempotent q c)
  unfolding accept_turn_idempotent
  accept_turn_idempotent-Moves q c =
      Moves-bind (order r) _ _ (validate_input-Moves q q.content) (λ u.
        Moves-bind (order r) _ _ (validate_input-Moves q c) (λ v.
          Moves-bind (order r) _ _ (Moves-gets (order r) _) (λ found.
            Moves-bind (order r) _ _ (Moves-require_some (order r) found _) (λ revision.
              Moves-yield (order r) OrdinaryAppend _ _ (turn_append-Moves q c revision)
                (turn_append-Ordinary q c revision)
                (λ a h. Moves-bind (order r) _ _ (append_journal_entries_in-Moves a h) (λ outcome.
                  Moves-bind (order r) _ _ (load_turn_result-Moves q.session _)
                    (λ loaded. Moves-pure (order r) _)))))))
