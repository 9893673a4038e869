-- ===== src/Store/Session/Steps/Tables.antt =====
-- crates/mews-store/src/sessions.rs: what a relation between the rows of one table needs, to hold
-- across every operation.
use mews.Prelude.{
  true, false, not, Option, List, [], ◌∷◌, ◌++◌, any, update_where, ◌≡◌, ◌==◌, ◌&&◌, ◌⊎◌, String,
}
use mews.Protocol.Events.Journal.{JournalEntry}
use mews.Protocol.Messages.{HarnessProvenance, ToolResult}
use mews.Protocol.Turns.{TurnStatus}
use mews.Protocol.Values.{Time, Uid}
use mews.Store.Journal.{insert_receipt, insert_row}
use mews.Store.Session.Apply.{add_session}
use mews.Store.Session.Bindings.{put_binding, update_bindings}
use mews.Store.Session.Effects.{
  Closing, add_effect, closable, closed_as, effect_clashes, startable, update_effects, with_end,
  with_start,
}
use mews.Store.Session.Entries.{add_entry, entry_clashes, next_sequence, update_session}
use mews.Store.Session.Steps.{Projects}
use mews.Store.Session.Steps.Record.{Records}
use mews.Store.Session.Turns.{
  add_turn, finished, has_ended, turn_clashes, update_turns, with_harness,
}
use mews.Store.Tables.{Db, EffectRow, EntryRow, TurnRow, is_active, is_started}
use mews.Store.Tx.{IsPreorder}

-- A relation between the rows of Turns that each statement on them keeps.
pub record TurnSteps (P : List TurnRow → List TurnRow → Type 0) : Type 0 where
  pub same : (xs : List TurnRow) → P xs xs
  pub chain : (xs ys zs : List TurnRow) → P xs ys → P ys zs → P xs zs
  pub turn :
      (row : TurnRow) (xs : List TurnRow)
      → any (turn_clashes row) xs ≡ false
      → has_ended row.status ≡ not (is_active row)
      → P xs (xs ++ row ∷ [])
  pub harness :
      (s id : Uid) (h : HarnessProvenance) (xs : List TurnRow)
      → any (λ t. t.id == id && t.session_id == s && is_active t) xs ≡ true
      → P xs (update_where (λ t. t.id == id) (with_harness h) xs)
  pub finish :
      (id : Uid) (status : TurnStatus) (error : Option String) (at : Time) (xs : List TurnRow)
      → has_ended status ≡ true
      → P xs (update_where (λ t. t.id == id && is_active t) (finished status error at) xs)

-- The same for the rows of effects.
pub record EffectSteps (P : List EffectRow → List EffectRow → Type 0) : Type 1 where
  pub same : (xs : List EffectRow) → P xs xs
  pub chain : (xs ys zs : List EffectRow) → P xs ys → P ys zs → P xs zs
  pub effect :
      (row : EffectRow) (xs : List EffectRow)
      → any (effect_clashes row) xs ≡ false
      → P xs (xs ++ row ∷ [])
  pub start :
      (o : Uid) (at : Time) (xs : List EffectRow)
      → P xs (update_where (startable o) (with_start at) xs)
  pub begun : Uid → List EffectRow → Type 0
  pub stays : (o : Uid) (xs ys : List EffectRow) → P xs ys → begun o xs → begun o ys
  pub checks :
      (o : Uid) (xs : List EffectRow)
      → any (λ e. e.operation_id == o && is_started e.status) xs ≡ true
      → begun o xs
  pub close :
      (s t o : Uid) (c : Closing) (e : JournalEntry) (raw : Option ToolResult) (xs : List EffectRow)
      → begun o xs ⊎ (c ≡ Closing.failed)
      → P xs (update_where (closable s t o) (with_end (closed_as c) e raw) xs)

module _ {P : List TurnRow → List TurnRow → Type 0} (t : TurnSteps P) where
  turns-order : IsPreorder (λ (a b : Db). P a.turns b.turns)
  turns-order = record {
    reflexive = λ db. t.same db.turns;
    transitive = λ a b c h k. t.chain a.turns b.turns c.turns h k;
  }

  turns-Projects : Projects (λ a b. P a.turns b.turns)
  unfolding add_session update_session add_entry add_turn update_turns add_effect update_effects
      put_binding update_bindings
  turns-Projects = record {
    tells = record {
      feeds = record { order = turns-order; feed = λ f db. t.same db.turns };
      leaf = λ i l db. t.same db.turns;
      entry = λ row db h k l. t.same db.turns;
    };
    session = λ s db h. t.same db.turns;
    model = λ i m db. t.same db.turns;
    turn = λ row db h k. t.turn row db.turns h k;
    harness = λ s i h db k. t.harness s i h db.turns k;
    finish = λ i status error at db h. t.finish i status error at db.turns h;
    effect = λ row db h k. t.same db.turns;
    start = λ o at db. t.same db.turns;
    begun = λ o db. Unit;
    stays = λ o a b h k. tt;
    checks = λ o db h. tt;
    close = λ s u o c e raw db h. t.same db.turns;
    binding = λ b db. t.same db.turns;
    bindings = λ p f db. t.same db.turns;
  }

  pub turns-Records : Records (λ a b. P a.turns b.turns)
  unfolding insert_row insert_receipt
  turns-Records = record {
    projects = turns-Projects;
    journals = record {
      order = turns-order;
      draw = λ db. t.same db.turns;
      tick = λ db. t.same db.turns;
      journal = λ e db. t.same db.turns;
    };
    receipt = λ c db. t.same db.turns;
  }

module _ {P : List EffectRow → List EffectRow → Type 0} (s : EffectSteps P) where
  effects-order : IsPreorder (λ (a b : Db). P a.effects b.effects)
  effects-order = record {
    reflexive = λ db. s.same db.effects;
    transitive = λ a b c h k. s.chain a.effects b.effects c.effects h k;
  }

  effects-Projects : Projects (λ a b. P a.effects b.effects)
  unfolding add_session update_session add_entry add_turn update_turns add_effect update_effects
      put_binding update_bindings
  effects-Projects = record {
    tells = record {
      feeds = record { order = effects-order; feed = λ f db. s.same db.effects };
      leaf = λ i l db. s.same db.effects;
      entry = λ row db h k l. s.same db.effects;
    };
    session = λ n db h. s.same db.effects;
    model = λ i m db. s.same db.effects;
    turn = λ row db h k. s.same db.effects;
    harness = λ n i h db k. s.same db.effects;
    finish = λ i status error at db h. s.same db.effects;
    effect = λ row db h k. s.effect row db.effects h;
    start = λ o at db. s.start o at db.effects;
    begun = λ o db. s.begun o db.effects;
    stays = λ o a b h k. s.stays o a.effects b.effects h k;
    checks = λ o db h. s.checks o db.effects h;
    close = λ n u o c e raw db h. s.close n u o c e raw db.effects h;
    binding = λ b db. s.same db.effects;
    bindings = λ p f db. s.same db.effects;
  }

  pub effects-Records : Records (λ a b. P a.effects b.effects)
  unfolding insert_row insert_receipt
  effects-Records = record {
    projects = effects-Projects;
    journals = record {
      order = effects-order;
      draw = λ db. s.same db.effects;
      tick = λ db. s.same db.effects;
      journal = λ e db. s.same db.effects;
    };
    receipt = λ c db. s.same db.effects;
  }

-- A relation between the entries, which are only ever added: with the next number of their Session.
pub record EntrySteps (P : List EntryRow → List EntryRow → Type 0) : Type 0 where
  pub same : (xs : List EntryRow) → P xs xs
  pub chain : (xs ys zs : List EntryRow) → P xs ys → P ys zs → P xs zs
  pub entry :
      (row : EntryRow) (db : Db)
      → row.sequence ≡ next_sequence row.session_id db
      → any (entry_clashes row) db.entries ≡ false
      → P db.entries (db.entries ++ row ∷ [])

module _ {P : List EntryRow → List EntryRow → Type 0} (s : EntrySteps P) where
  entries-order : IsPreorder (λ (a b : Db). P a.entries b.entries)
  entries-order = record {
    reflexive = λ db. s.same db.entries;
    transitive = λ a b c h k. s.chain a.entries b.entries c.entries h k;
  }

  entries-Projects : Projects (λ a b. P a.entries b.entries)
  unfolding add_session update_session add_entry add_turn update_turns add_effect update_effects
      put_binding update_bindings
  entries-Projects = record {
    tells = record {
      feeds = record { order = entries-order; feed = λ f db. s.same db.entries };
      leaf = λ i l db. s.same db.entries;
      entry = λ row db h k l. s.entry row db h k;
    };
    session = λ n db h. s.same db.entries;
    model = λ i m db. s.same db.entries;
    turn = λ row db h k. s.same db.entries;
    harness = λ n i h db k. s.same db.entries;
    finish = λ i status error at db h. s.same db.entries;
    effect = λ row db h k. s.same db.entries;
    start = λ o at db. s.same db.entries;
    begun = λ o db. Unit;
    stays = λ o a b h k. tt;
    checks = λ o db h. tt;
    close = λ n u o c e raw db h. s.same db.entries;
    binding = λ b db. s.same db.entries;
    bindings = λ p f db. s.same db.entries;
  }

  pub entries-Records : Records (λ a b. P a.entries b.entries)
  unfolding insert_row insert_receipt
  entries-Records = record {
    projects = entries-Projects;
    journals = record {
      order = entries-order;
      draw = λ db. s.same db.entries;
      tick = λ db. s.same db.entries;
      journal = λ e db. s.same db.entries;
    };
    receipt = λ c db. s.same db.entries;
  }
