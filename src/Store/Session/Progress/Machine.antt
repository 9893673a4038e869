-- ===== src/Store/Session/Progress/Machine.antt =====
-- crates/mews-store/src/sessions.rs: the state machine of an effect.
use mews.Prelude.{
  ◌≤◌, Bool, true, List, any, not, count, Updated, update_where, count-update_where, ◌≡◌, refl, ap,
  sym, ◌∙◌, ◌⊎◌, inl, inr, ◌==◌, ◌&&◌, arith,
}
use mews.Protocol.Values.{Uid}
use mews.Store.Session.Effects.{Closing, closed_as}
use mews.Store.Tables.{EffectRow, EffectStatus, is_open, is_scheduled}

infix 40 ◌⟶◌ ◌⟶*◌
-- The state machine: an effect is scheduled; it is started, or it fails before; and once started it
-- closes, in one of the three ways.
pub data ◌⟶◌ : EffectStatus → EffectStatus → Type 0 where
  starts : EffectStatus.scheduled ⟶ EffectStatus.started
  fails_early : EffectStatus.scheduled ⟶ EffectStatus.failed
  closes : (c : Closing) → EffectStatus.started ⟶ closed_as c

pub data ◌⟶*◌ : EffectStatus → EffectStatus → Type 0 where
  here : {s : EffectStatus} → s ⟶* s
  next : {s t u : EffectStatus} → s ⟶ t → t ⟶* u → s ⟶* u

⟶*-trans : {s t u : EffectStatus} → s ⟶* t → t ⟶* u → s ⟶* u
⟶*-trans here k = k
⟶*-trans (next h g) k = next h (⟶*-trans g k)

-- What a later table says of the same effect: its status has moved along the machine, and a closed
-- effect is as it was.
pub record LaterEffect (x y : EffectRow) : Type 0 where
  pub operation : y.operation_id ≡ x.operation_id
  pub session : y.session_id ≡ x.session_id
  pub turn : y.turn_id ≡ x.turn_id
  pub call : y.call_id ≡ x.call_id
  pub request : y.request ≡ x.request
  pub moved : x.status ⟶* y.status
  pub frozen : (is_open x.status ≡ true) ⊎ (y ≡ x)

pub LaterEffect-refl : (x : EffectRow) → LaterEffect x x
LaterEffect-refl x = record {
  operation = refl;
  session = refl;
  turn = refl;
  call = refl;
  request = refl;
  moved = here;
  frozen = inr refl;
}

frozen_trans :
    (x y z : EffectRow)
    → (is_open x.status ≡ true) ⊎ (y ≡ x)
    → (is_open y.status ≡ true) ⊎ (z ≡ y)
    → (is_open x.status ≡ true) ⊎ (z ≡ x)
frozen_trans x y z (inl a) k = inl a
frozen_trans x y z (inr e) (inl b) = inl (ap (λ r. is_open r.status) (sym e) ∙ b)
frozen_trans x y z (inr e) (inr f) = inr (f ∙ e)

pub LaterEffect-trans : (x y z : EffectRow) → LaterEffect x y → LaterEffect y z → LaterEffect x z
LaterEffect-trans x y z h k = record {
  operation = k.operation ∙ h.operation;
  session = k.session ∙ h.session;
  turn = k.turn ∙ h.turn;
  call = k.call ∙ h.call;
  request = k.request ∙ h.request;
  moved = ⟶*-trans h.moved k.moved;
  frozen = frozen_trans x y z h.frozen k.frozen;
}

abbrev pub operates : Uid → EffectRow → Bool
operates operation e = e.operation_id == operation

pub record SoundEffects (xs : List EffectRow) : Type 0 where
  pub one_named : (operation : Uid) → count (operates operation) xs ≤ 1

-- An effect that is not waiting any more.
abbrev pub left_scheduled : Uid → EffectRow → Bool
left_scheduled operation e = operates operation e && not (is_scheduled e.status)

abbrev pub Begun : Uid → List EffectRow → Type 0
Begun operation xs = any (left_scheduled operation) xs ≡ true

-- A change along the machine, after which no effect waits that did not before.
pub record Progresses (xs ys : List EffectRow) : Type 0 where
  pub moves : SoundEffects xs → SoundEffects ys × Updated LaterEffect xs ys
  pub begun : (operation : Uid) → Begun operation xs → Begun operation ys

pub update-Sound :
    (q : EffectRow → Bool) (f : EffectRow → EffectRow) (xs : List EffectRow)
    → ((o : Uid) (x : EffectRow) → operates o (f x) ≡ true → operates o x ≡ true)
    → SoundEffects xs
    → SoundEffects (update_where q f xs)
update-Sound q f xs n h = record {
  one_named = λ o. omega (arith, count-update_where (operates o) q f xs (n o), h.one_named o);
}
