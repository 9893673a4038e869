-- ===== src/Store/Session/Steps/Started.antt =====
-- crates/mews-store/src/{sessions,turns}.rs: the effects that a table shows as started.
use mews.Prelude.{
  ◌≡◌, refl, true, Option, none, some, List, [], ◌∷◌, All, All-imp, any, arith, find, find-some,
  Bool, ◌==◌, ◌&&◌,
}
use mews.Protocol.Values.{Uid}
use mews.Store.Result.{StoreError}
use mews.Store.Session.Finish.{by_time, insert_by_time}
use mews.Store.Tables.{Db, EffectRow, is_started}
use mews.Store.Tx.{Tx, ◌>>=◌, Leaves, require_some}

abbrev pub shows_started : Uid → EffectRow → Bool
shows_started operation e = e.operation_id == operation && is_started e.status

abbrev pub Shown : List EffectRow → EffectRow → Type 0
Shown xs e = is_started e.status ≡ true → any (shows_started e.operation_id) xs ≡ true

-- Each started effect is shown by its own row.
pub all_Shown : (xs : List EffectRow) → All (Shown xs) xs
unfolding any
all_Shown [] = tt
all_Shown (x ∷ xs) = (
  (λ h. ground arith),
  All-imp (Shown xs) (Shown (x ∷ xs)) xs (all_Shown xs) (λ e k h. ground (arith, k h)),
)

pub find-Shown :
    (p : EffectRow → Bool) (xs : List EffectRow) {x : EffectRow}
    → find (λ e. p e && is_started e.status) xs ≡ some x
    → any (shows_started x.operation_id) xs ≡ true
find-Shown p xs {x} h =
    let found = find-some (Shown xs) (λ e. p e && is_started e.status) xs h (all_Shown xs) in
    let started : is_started x.status ≡ true = ground (arith, found.0) in found.1 started

pub All-insert_by_time :
    (P : EffectRow → Type 0) (e : EffectRow) (fs : List EffectRow)
    → P e
    → All P fs
    → All P (insert_by_time e fs)
unfolding insert_by_time
All-insert_by_time P e [] h k = (h, tt)
All-insert_by_time P e (f ∷ fs) h k = ground (arith, All-insert_by_time P e fs h k.1)

pub All-by_time : (P : EffectRow → Type 0) (es : List EffectRow) → All P es → All P (by_time es)
unfolding by_time
All-by_time P [] h = tt
All-by_time P (e ∷ es) h = All-insert_by_time P e (by_time es) h.0 (All-by_time P es h.1)

-- A value that has to be there, and what follows at the same tables.
pub require_some-Leaves :
    (R : Db → Db → Type 0) {A B : Type 0} (o : Option A) (e : StoreError) (f : A → Tx B) (db : Db)
    → ((a : A) → o ≡ some a → Leaves R db (f a db))
    → Leaves R db ((require_some o e >>= f) db)
unfolding require_some ◌>>=◌
require_some-Leaves R none e f db h = tt
require_some-Leaves R (some a) e f db h = h a refl
