-- ===== src/Store/Session/Active.antt =====
-- crates/mews-store/src/{sessions,turns,schema}.rs: the Turns of a Session over any sequence of calls.
use mews.Prelude.{
  All-update_where, All-imp, ℕ, ◌≤◌, Bool, true, false, not, Option, List, [], ◌∷◌, ◌++◌, any,
  count, All, All-append, All-of, All-imp, Updated, Updated-refl, Updated-trans, Updated-append,
  Updated-update_where, update_where, count-append, count-update_where, count-none, count-All, ◌≡◌,
  refl, ap, sym, ◌∙◌, ◌⊎◌, inl, inr, ◌==◌, ◌&&◌, ◌||◌, arith, Bool-cases, String,
}
use mews.Protocol.Messages.{HarnessProvenance}
use mews.Protocol.Turns.{TurnStatus}
use mews.Protocol.Values.{Time, Uid}
use mews.Store.Session.Calls.{Call, run}
use mews.Store.Session.Steps.Run.{run-moves}
use mews.Store.Session.Steps.Tables.{TurnSteps, turns-Records}
use mews.Store.Session.Turns.{finished, has_ended, turn_clashes, with_harness}
use mews.Store.Tables.{Db, TurnRow, is_active, same_text}

-- An active Turn of the Session.
abbrev pub active_in : Uid → TurnRow → Bool
active_in session t = t.session_id == session && is_active t

abbrev pub named : Uid → TurnRow → Bool
named id t = t.id == id

-- A Turn has ended in exactly one of the terminal statuses when its end is dated.
abbrev pub Dated : TurnRow → Type 0
Dated t = has_ended t.status ≡ not (is_active t)

pub record SoundTurns (xs : List TurnRow) : Type 0 where
  pub one_active : (session : Uid) → count (active_in session) xs ≤ 1
  pub one_named : (id : Uid) → count (named id) xs ≤ 1
  pub dated : All Dated xs

-- What a later table says of the same Turn: one that has ended is as it was.
pub record LaterTurn (x y : TurnRow) : Type 0 where
  pub id : y.id ≡ x.id
  pub session : y.session_id ≡ x.session_id
  pub revision : y.agent_revision ≡ x.agent_revision
  pub key : y.idempotency_key ≡ x.idempotency_key
  pub origin : y.channel_origin ≡ x.channel_origin
  pub created : y.created_at ≡ x.created_at
  pub frozen : (is_active x ≡ true) ⊎ (y ≡ x)

LaterTurn-refl : (x : TurnRow) → LaterTurn x x
LaterTurn-refl x = record {
  id = refl;
  session = refl;
  revision = refl;
  key = refl;
  origin = refl;
  created = refl;
  frozen = inr refl;
}

frozen_trans :
    (x y z : TurnRow)
    → (is_active x ≡ true) ⊎ (y ≡ x)
    → (is_active y ≡ true) ⊎ (z ≡ y)
    → (is_active x ≡ true) ⊎ (z ≡ x)
frozen_trans x y z (inl a) k = inl a
frozen_trans x y z (inr e) (inl b) = inl (ap is_active (sym e) ∙ b)
frozen_trans x y z (inr e) (inr f) = inr (f ∙ e)

LaterTurn-trans : (x y z : TurnRow) → LaterTurn x y → LaterTurn y z → LaterTurn x z
LaterTurn-trans x y z h k = record {
  id = k.id ∙ h.id;
  session = k.session ∙ h.session;
  revision = k.revision ∙ h.revision;
  key = k.key ∙ h.key;
  origin = k.origin ∙ h.origin;
  created = k.created ∙ h.created;
  frozen = frozen_trans x y z h.frozen k.frozen;
}

-- The turns after are sound, and each Turn before has its later row.
abbrev pub Advances : List TurnRow → List TurnRow → Type 0
Advances xs ys = SoundTurns xs → SoundTurns ys × Updated LaterTurn xs ys

clash_named :
    (row x : TurnRow) (id : Uid)
    → named id row ≡ true
    → named id x ≡ true
    → turn_clashes row x ≡ true
clash_named row x id h k = ground arith

both_active :
    (a b s : ℕ) (i j k c : Bool)
    → (a == s && i) ≡ true
    → (b == s && j) ≡ true
    → (c || a == b && (k || i && j)) ≡ true
both_active a b s i j k c g h = ground arith

clash_active :
    (row x : TurnRow) (s : Uid)
    → active_in s row ≡ true
    → active_in s x ≡ true
    → turn_clashes row x ≡ true
clash_active row x s h k =
    both_active row.session_id x.session_id s (is_active row) (is_active x)
      (same_text row.idempotency_key x.idempotency_key) (row.id == x.id) h k

add_one :
    (p : TurnRow → Bool) (row : TurnRow) (xs : List TurnRow)
    → any (turn_clashes row) xs ≡ false
    → ((x : TurnRow) → p row ≡ true → p x ≡ true → turn_clashes row x ≡ true)
    → count p xs ≤ 1
    → count p (xs ++ row ∷ []) ≤ 1
add_one p row xs free h k = elim (Bool-cases (p row)) [
  | inl hit ↦
      ground (arith, count-append p xs row, count-none p (turn_clashes row) xs free (λ x. h x hit))
  | inr miss ↦ ground (arith, count-append p xs row)
]

-- A new Turn comes in as one that runs.
turn-Advances :
    (row : TurnRow) (xs : List TurnRow)
    → any (turn_clashes row) xs ≡ false
    → Dated row
    → Advances xs (xs ++ row ∷ [])
turn-Advances row xs free dated h = (
  record {
    one_active =
        λ s. add_one (active_in s) row xs free (λ x. clash_active row x s) (h.one_active s);
    one_named = λ id. add_one (named id) row xs free (λ x. clash_named row x id) (h.one_named id);
    dated = All-append Dated xs (row ∷ []) h.dated (dated, tt);
  },
  Updated-append LaterTurn LaterTurn-refl xs (row ∷ []),
)

update-Sound :
    (q : TurnRow → Bool) (f : TurnRow → TurnRow) (xs : List TurnRow)
    → ((s : Uid) (x : TurnRow) → active_in s (f x) ≡ true → active_in s x ≡ true)
    → ((id : Uid) (x : TurnRow) → named id (f x) ≡ true → named id x ≡ true)
    → ((x : TurnRow) → Dated x → Dated (f x))
    → SoundTurns xs
    → SoundTurns (update_where q f xs)
update-Sound q f xs a n d h = record {
  one_active = λ s. omega (arith, count-update_where (active_in s) q f xs (a s), h.one_active s);
  one_named = λ id. omega (arith, count-update_where (named id) q f xs (n id), h.one_named id);
  dated =
      All-update_where Dated q f xs (All-imp Dated _ xs h.dated (λ x k. (λ hit. d x k, λ miss. k)));
}

three : (a b c : Bool) → (a && b && c) ≡ true → (a ≡ true) × (c ≡ true)
three a b c h = ground arith

two : (a b : Bool) → (a && b) ≡ true → b ≡ true
two a b h = ground arith

-- Of the Turns with an ID all are active, where one of them is.
All-active :
    (s id : Uid) (xs : List TurnRow)
    → SoundTurns xs
    → any (λ t. t.id == id && t.session_id == s && is_active t) xs ≡ true
    → All (λ t. named id t ≡ true → is_active t ≡ true) xs
All-active s id xs h some_one =
    count-All (named id) is_active (λ t. t.id == id && t.session_id == s && is_active t) xs
      (λ x k. three (x.id == id) (x.session_id == s) (is_active x) k) (h.one_named id) some_one

harness-Advances :
    (s id : Uid) (h : HarnessProvenance) (xs : List TurnRow)
    → any (λ t. t.id == id && t.session_id == s && is_active t) xs ≡ true
    → Advances xs (update_where (λ t. t.id == id) (with_harness h) xs)
harness-Advances s id h xs k sound = (
  update-Sound _ (with_harness h) xs (λ s x z. z) (λ i x z. z) (λ x z. z) sound,
  Updated-update_where LaterTurn LaterTurn-refl (named id) (with_harness h) xs (
      All-imp _ _ xs (All-active s id xs sound k) (λ x active n. record {
        id = refl;
        session = refl;
        revision = refl;
        key = refl;
        origin = refl;
        created = refl;
        frozen = inl (active n);
      })),
)

finish-Advances :
    (id : Uid) (status : TurnStatus) (error : Option String) (at : Time) (xs : List TurnRow)
    → has_ended status ≡ true
    → Advances xs (update_where (λ t. t.id == id && is_active t) (finished status error at) xs)
finish-Advances id status error at xs ended sound = (
  update-Sound _ (finished status error at) xs (λ s x z. absurd (ground arith)) (λ i x z. z)
      (λ x z. ended) sound,
  Updated-update_where LaterTurn LaterTurn-refl _ (finished status error at) xs (
      All-of _ xs (λ x k. record {
        id = refl;
        session = refl;
        revision = refl;
        key = refl;
        origin = refl;
        created = refl;
        frozen = inl (two (x.id == id) (is_active x) k);
      })),
)

pub turns : TurnSteps Advances
turns = record {
  same = λ xs h. (h, Updated-refl LaterTurn LaterTurn-refl xs);
  chain = λ xs ys zs h k sound.
      (let (s1, u1) = h sound in
        let (s2, u2) = k s1 in (s2, Updated-trans LaterTurn LaterTurn-trans xs ys zs u1 u2));
  turn = turn-Advances;
  harness = harness-Advances;
  finish = finish-Advances;
}

-- From sound turns, after any sequence of calls, failed ones included: every Session has at most one
-- active Turn, no two Turns have one ID, a Turn has an end date exactly when its status is not
-- `running`; and each Turn there was is there still, with the same ID, Session, agent revision, key,
-- channel and date of creation, and in no way changed if it had ended.
pub run-Advances :
    (calls : List Call) (db : Db)
    → SoundTurns db.turns
    → SoundTurns (run calls db).turns × Updated LaterTurn db.turns (run calls db).turns
run-Advances calls db sound = run-moves (turns-Records turns) calls db sound
