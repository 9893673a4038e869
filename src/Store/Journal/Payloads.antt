-- ===== src/Store/Journal/Payloads.antt =====
-- crates/mews-store/src/{events,sessions}.rs: the entries that are made carry the payloads asked for.
use mews.Prelude.{◌≡◌, refl, String, Option, none, List, [], ◌∷◌, ◌++◌, All, All-append, subst, sym}
use mews.Protocol.Events.Journal.{EventActor, JournalEntry, JournalEvent, JournalSubjectType}
use mews.Protocol.Values.{IdText, Time, Uid}
use mews.Store.Journal.{committed_entry, insert_entries, insert_entry, insert_subjects}
use mews.Store.Journal.Check.{JournalSubjectAppend, NewJournalEntry}
use mews.Store.Journal.Record.{record_journal_entry, record_session_event_correlated}
use mews.Store.Tx.Yields.{Yields, Yields-bind, Yields-pure, Yields-after}

insert_entry-Payload :
    (c : Option String) (k : JournalSubjectType) (s : IdText) (at : Time) (e : NewJournalEntry)
    → Yields (λ j. j.payload ≡ e.payload) (insert_entry c k s at e)
unfolding insert_entry committed_entry
insert_entry-Payload c k s at e = Yields-bind _ _ _ (λ taken. Yields-bind _ _ _ (λ u.
    Yields-bind _ _ _
      (λ last. Yields-bind _ _ _ (λ u. Yields-bind _ _ _ (λ u. Yields-pure _ _ refl)))))

pub record_event-Payload :
    (s : Uid) (a : EventActor) (p : JournalEvent) (c : Option String)
    → Yields (λ j. j.payload ≡ p) (record_session_event_correlated s a p c)
unfolding record_session_event_correlated record_journal_entry
record_event-Payload s a p c = Yields-bind _ _ _ (λ id. Yields-bind _ _ _ (λ default.
    Yields-bind _ _ _ (λ u. Yields-bind _ _ _ (λ now. insert_entry-Payload none _ _ now _))))

module _ (Q : JournalEvent → Type 0) where
  abbrev pub Carry : List JournalEntry → Type 0
  Carry = All (λ j. Q j.payload)

  insert_entries-Carry :
      (c : String) (at : Time) (s : JournalSubjectAppend) (es : List NewJournalEntry)
      → All (λ e. Q e.payload) es
      → Yields Carry (insert_entries c at s es)
  unfolding insert_entries
  insert_entries-Carry c at s [] h = Yields-pure Carry [] tt
  insert_entries-Carry c at s (e ∷ es) h =
      Yields-after _ Carry _ _ (insert_entry-Payload _ _ _ at e) (λ j same.
        Yields-after _ Carry _ _ (insert_entries-Carry c at s es h.1)
          (λ js k. Yields-pure Carry (j ∷ js) (subst Q (sym same) h.0, k)))

  -- The entries of an append.
  abbrev pub Entries : List JournalSubjectAppend → Type 0
  Entries = All (λ s. All (λ e. Q e.payload) s.entries)

  pub insert_subjects-Carry :
      (c : String) (at : Time) (ss : List JournalSubjectAppend)
      → Entries ss
      → Yields Carry (insert_subjects c at ss)
  unfolding insert_subjects
  insert_subjects-Carry c at [] h = Yields-pure Carry [] tt
  insert_subjects-Carry c at (s ∷ ss) h =
      Yields-after _ Carry _ _ (insert_entries-Carry c at s s.entries h.0) (λ js k.
        Yields-after _ Carry _ _ (insert_subjects-Carry c at ss h.1)
          (λ ks l. Yields-pure Carry (js ++ ks) (All-append (λ j. Q j.payload) js ks k l)))
