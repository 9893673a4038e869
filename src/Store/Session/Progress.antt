-- ===== src/Store/Session/Progress.antt =====
-- crates/mews-store/src/{sessions,turns,schema}.rs: the effects of a Turn over any sequence of calls,
-- against the state machine of an effect.
pub mod Machine
pub use mews.Store.Session.Progress.Machine.{
  ◌⟶◌, ◌⟶*◌, here, next, starts, fails_early, closes, LaterEffect, LaterEffect-refl,
  LaterEffect-trans, operates, SoundEffects, left_scheduled, Begun, Progresses, update-Sound,
}
use mews.Prelude.{
  ◌≤◌, Bool, true, false, Option, List, [], ◌∷◌, ◌++◌, any, any-append, any-update_where, any_imp,
  not, subst, All, All-imp, count, count-All, All-of, Updated-refl, Updated-trans, Updated-append,
  Updated-update_where, update_where, count-append, count-update_where, count-none, ◌≡◌, refl, ap,
  sym, ◌∙◌, ◌⊎◌, inl, inr, ◌==◌, ◌&&◌, arith, Bool-cases,
}
use mews.Protocol.Events.Journal.{JournalEntry}
use mews.Protocol.Messages.{ToolResult}
use mews.Protocol.Values.{Time, Uid}
use mews.Store.Session.Effects.{
  Closing, closable, closed_as, effect_clashes, startable, with_end, with_start,
}
use mews.Store.Session.Steps.Tables.{EffectSteps}
use mews.Store.Tables.{EffectRow, EffectStatus, is_open, is_scheduled, is_started}

clash :
    (row x : EffectRow) (o : Uid)
    → operates o row ≡ true
    → operates o x ≡ true
    → effect_clashes row x ≡ true
clash row x o h k = ground arith

effect-Progresses :
    (row : EffectRow) (xs : List EffectRow)
    → any (effect_clashes row) xs ≡ false
    → Progresses xs (xs ++ row ∷ [])
effect-Progresses row xs free = record {
  moves = λ h. (
    record {
      one_named = λ o. elim (Bool-cases (operates o row)) [
        | inl hit ↦ ground (
          arith,
          count-append (operates o) xs row,
          count-none (operates o) (effect_clashes row) xs free (λ x. clash row x o hit),
        )
        | inr miss ↦ ground (arith, count-append (operates o) xs row, h.one_named o)
      ];
    },
    Updated-append LaterEffect LaterEffect-refl xs (row ∷ []),
  );
  begun = λ o h. ground (arith, any-append (left_scheduled o) xs (row ∷ []));
}

both : (a b : Bool) → (a && b) ≡ true → b ≡ true
both a b h = ground arith

start_moves : (s : EffectStatus) → is_scheduled s ≡ true → s ⟶* EffectStatus.started
start_moves EffectStatus.scheduled h = next starts here
start_moves EffectStatus.started h = absurd (cc)
start_moves EffectStatus.succeeded h = absurd (cc)
start_moves EffectStatus.failed h = absurd (cc)
start_moves EffectStatus.uncertain h = absurd (cc)

scheduled_open : (s : EffectStatus) → is_scheduled s ≡ true → is_open s ≡ true
scheduled_open EffectStatus.scheduled h = refl
scheduled_open EffectStatus.started h = absurd (cc)
scheduled_open EffectStatus.succeeded h = absurd (cc)
scheduled_open EffectStatus.failed h = absurd (cc)
scheduled_open EffectStatus.uncertain h = absurd (cc)

close_moves :
    (s : EffectStatus) (c : Closing)
    → is_open s ≡ true
    → (not (is_scheduled s) ≡ true) ⊎ (c ≡ Closing.failed)
    → s ⟶* closed_as c
close_moves EffectStatus.scheduled c h (inl k) = absurd (cc)
close_moves EffectStatus.scheduled c h (inr k) =
    subst (λ d. EffectStatus.scheduled ⟶* closed_as d) (sym k) (next fails_early here)
close_moves EffectStatus.started c h k = next (closes c) here
close_moves EffectStatus.succeeded c h k = absurd (cc)
close_moves EffectStatus.failed c h k = absurd (cc)
close_moves EffectStatus.uncertain c h k = absurd (cc)

first_of_two : (a b : Bool) → (a && b) ≡ true → a ≡ true
first_of_two a b h = ground arith

first_of_four : (a b c d : Bool) → (a && b && c && d) ≡ true → a ≡ true
first_of_four a b c d h = ground arith

last_of_four : (a b c d : Bool) → (a && b && c && d) ≡ true → d ≡ true
last_of_four a b c d h = ground arith

started_begun :
    (o : Uid) (at : Time) (x : EffectRow)
    → left_scheduled o x ≡ true
    → left_scheduled o (with_start at x) ≡ true
started_begun o at x h = ground arith

start-Progresses :
    (o : Uid) (at : Time) (xs : List EffectRow)
    → Progresses xs (update_where (startable o) (with_start at) xs)
start-Progresses o at xs = record {
  moves = λ sound. (
    update-Sound _ (with_start at) xs (λ o x z. z) sound,
    Updated-update_where LaterEffect LaterEffect-refl (startable o) (with_start at) xs (
        All-of _ xs (λ x k.
          (let due = both (x.operation_id == o) (is_scheduled x.status) k in
            record {
              operation = refl;
              session = refl;
              turn = refl;
              call = refl;
              request = refl;
              moved = start_moves x.status due;
              frozen = inl (scheduled_open x.status due);
            }))),
  );
  begun = λ p h. any-update_where (left_scheduled p) _ (with_start at) xs (started_begun p at) h;
}

closed_begun :
    (o : Uid) (c : Closing) (e : JournalEntry) (raw : Option ToolResult) (x : EffectRow)
    → left_scheduled o x ≡ true
    → left_scheduled o (with_end (closed_as c) e raw x) ≡ true
closed_begun o Closing.succeeded e raw x h = ground arith
closed_begun o Closing.failed e raw x h = ground arith
closed_begun o Closing.uncertain e raw x h = ground arith

-- The effect that an operation closes has been started, or fails.
due_to_close :
    (o : Uid) (c : Closing) (xs : List EffectRow)
    → SoundEffects xs
    → Begun o xs ⊎ (c ≡ Closing.failed)
    → All
        (λ x. operates o x ≡ true → (not (is_scheduled x.status) ≡ true) ⊎ (c ≡ Closing.failed))
        xs
due_to_close o c xs sound (inr k) = All-of _ xs (λ x h. inr k)
due_to_close o c xs sound (inl h) =
    All-imp (λ x. operates o x ≡ true → not (is_scheduled x.status) ≡ true) _ xs
      (count-All (operates o) (λ x. not (is_scheduled x.status)) (left_scheduled o) xs
        (λ x k. (first_of_two _ _ k, both _ _ k)) (sound.one_named o) h)
      (λ x k hit. inl (k hit))

close-Progresses :
    (s t o : Uid) (c : Closing) (e : JournalEntry) (raw : Option ToolResult) (xs : List EffectRow)
    → Begun o xs ⊎ (c ≡ Closing.failed)
    → Progresses xs (update_where (closable s t o) (with_end (closed_as c) e raw) xs)
close-Progresses s t o c e raw xs due = record {
  moves = λ sound. (
    update-Sound _ (with_end (closed_as c) e raw) xs (λ o x z. z) sound,
    Updated-update_where LaterEffect LaterEffect-refl (closable s t o)
        (with_end (closed_as c) e raw) xs
        (All-imp _ _ xs (due_to_close o c xs sound due) (λ x may k.
          (let opened =
              last_of_four (x.operation_id == o) (x.session_id == s) (x.turn_id == t)
                (is_open x.status) k in
            record {
              operation = refl;
              session = refl;
              turn = refl;
              call = refl;
              request = refl;
              moved = close_moves x.status c opened (
                  may (
                    first_of_four (x.operation_id == o) (x.session_id == s) (x.turn_id == t)
                      (is_open x.status) k));
              frozen = inl opened;
            }))),
  );
  begun = λ p h.
      any-update_where (left_scheduled p) _ (with_end (closed_as c) e raw) xs
        (closed_begun p c e raw) h;
}

started_Begun :
    (o : Uid) (x : EffectRow)
    → (x.operation_id == o && is_started x.status) ≡ true
    → left_scheduled o x ≡ true
started_Begun o x h = ground arith

pub effects : EffectSteps Progresses
effects = record {
  same = λ xs. record {
    moves = λ h. (h, Updated-refl LaterEffect LaterEffect-refl xs);
    begun = λ o h. h;
  };
  chain = λ xs ys zs h k. record {
    moves = λ sound.
        (let (s1, u1) = h.moves sound in
          let (s2, u2) = k.moves s1 in
          (s2, Updated-trans LaterEffect LaterEffect-trans xs ys zs u1 u2));
    begun = λ o b. k.begun o (h.begun o b);
  };
  effect = effect-Progresses;
  start = start-Progresses;
  begun = Begun;
  stays = λ o xs ys h b. h.begun o b;
  checks = λ o xs h. any_imp _ (left_scheduled o) xs h (started_Begun o);
  close = close-Progresses;
}
