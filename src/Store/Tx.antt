-- ===== src/Store/Tx.antt =====
-- A transaction: it reads and writes the tables, and on an error nothing of it is kept. `Moves` is
-- what holds between the tables before and after a transaction that succeeds.
pub mod Runs
pub mod Yields
use mews.Prelude.{
  ℕ, suc, Bool, true, false, Option, none, some, List, [], ◌∷◌, if◌then◌else◌, Bool-cases, inl, inr,
  ◌≡◌, refl,
}
use mews.Protocol.Values.{Uid, Time}
use mews.Store.Result.{Result, ok, err, StoreError}
use mews.Store.Tables.{Db}

abbrev pub Tx : Type 0 → Type 0
Tx A = Db → Result (A × Db)

infixl 5 ◌>>=◌ ◌>>◌
unfoldable pub ◌>>=◌ : {A B : Type 0} → Tx A → (A → Tx B) → Tx B
◌>>=◌ m f db = elim (m db) [ err e ↦ err e | ok (a, db') ↦ f a db' ]

abbrev pub ◌>>◌ : {B : Type 0} → Tx (Unit {0}) → Tx B → Tx B
m >> k = m >>= λ _. k

unfoldable pub pure : {A : Type 0} → A → Tx A
pure a db = ok (a, db)

unfoldable pub fail : {A : Type 0} → StoreError → Tx A
fail e db = err e

unfoldable pub gets : {A : Type 0} → (Db → A) → Tx A
gets f db = ok (f db, db)

unfoldable pub modify : (Db → Db) → Tx Unit
modify f db = ok (tt, f db)

unfoldable pub require : Bool → StoreError → Tx Unit
require true e db = ok (tt, db)
require false e db = err e

unfoldable pub require_some : {A : Type 0} → Option A → StoreError → Tx A
require_some none e db = err e
require_some (some a) e db = ok (a, db)

unfoldable pub when : Bool → Tx Unit → Tx Unit
when true m db = m db
when false m db = ok (tt, db)

-- XId::new()
unfoldable pub new_id : Tx Uid
new_id db = ok (db.outside.uuid db.drawn, record db { drawn = suc db.drawn })

-- Utc::now()
unfoldable pub utc_now : Tx Time
utc_now db = ok (db.outside.clock db.readings, record db { readings = suc db.readings })

-- The tables that a transaction leaves.
unfoldable pub for_each : {A : Type 0} → (A → Tx Unit) → List A → Tx Unit
for_each f [] = pure tt
for_each f (x ∷ xs) = f x >> for_each f xs

abbrev pub Leaves : {A : Type 0} → (Db → Db → Type 0) → Db → Result (A × Db) → Type 0
Leaves R db (ok (a, db')) = R db db'
Leaves R db (err e) = Unit

pub record Moves {A : Type 0} (R : Db → Db → Type 0) (m : Tx A) : Type 0 where
  pub at : (db : Db) → Leaves R db (m db)

-- A relation that holds across any sequence of steps each of which it holds across.
pub record IsPreorder (R : Db → Db → Type 0) : Type 0 where
  pub reflexive : (db : Db) → R db db
  pub transitive : (a b c : Db) → R a b → R b c → R a c

module _ {R : Db → Db → Type 0} (order : IsPreorder R) where
  pub Leaves-from :
      {A : Type 0} (a b : Db) (r : Result (A × Db)) → R a b → Leaves R b r → Leaves R a r
  Leaves-from a b (ok (x, c)) h k = order.transitive a b c h k
  Leaves-from a b (err e) h k = tt

  bind-Leaves :
      {A B : Type 0} (f : A → Tx B) (db : Db) (r : Result (A × Db))
      → Leaves R db r
      → ((a : A) → Moves R (f a))
      → Leaves R db (elim r [ err e ↦ err e | ok (a, db') ↦ f a db' ])
  bind-Leaves f db (ok (a, db')) h k = Leaves-from db db' _ h ((k a).at db')
  bind-Leaves f db (err e) h k = tt

  -- One step at given tables, and what follows at any.
  pub Leaves-then :
      {A B : Type 0} (m : Tx A) (f : A → Tx B) (db : Db)
      → Leaves R db (m db)
      → ((a : A) → Moves R (f a))
      → Leaves R db ((m >>= f) db)
  unfolding ◌>>=◌
  Leaves-then m f db h k = bind-Leaves f db (m db) h k

  pub Moves-bind :
      {A B : Type 0} (m : Tx A) (f : A → Tx B)
      → Moves R m
      → ((a : A) → Moves R (f a))
      → Moves R (m >>= f)
  Moves-bind m f h k = record { at = λ db. Leaves-then m f db (h.at db) k }

  pub Moves-pure : {A : Type 0} (a : A) → Moves R (pure a)
  unfolding pure
  Moves-pure a = record { at = λ db. order.reflexive db }

  pub Moves-gets : {A : Type 0} (f : Db → A) → Moves R (gets f)
  unfolding gets
  Moves-gets f = record { at = λ db. order.reflexive db }

  pub Moves-fail : {A : Type 0} (e : StoreError) → Moves R (fail {A = A} e)
  unfolding fail
  Moves-fail e = record { at = λ db. tt }

  pub Moves-require : (b : Bool) (e : StoreError) → Moves R (require b e)
  unfolding require
  Moves-require true e = record { at = λ db. order.reflexive db }
  Moves-require false e = record { at = λ db. tt }

  pub Moves-require_some : {A : Type 0} (o : Option A) (e : StoreError) → Moves R (require_some o e)
  unfolding require_some
  Moves-require_some none e = record { at = λ db. tt }
  Moves-require_some (some a) e = record { at = λ db. order.reflexive db }

  pub Moves-if :
      {A : Type 0} (b : Bool) (m n : Tx A) → Moves R m → Moves R n → Moves R (if b then m else n)
  Moves-if true m n h k = h
  Moves-if false m n h k = k

  pub Moves-when : (b : Bool) (m : Tx Unit) → Moves R m → Moves R (when b m)
  unfolding when
  Moves-when true m h = record { at = λ db. h.at db }
  Moves-when false m h = record { at = λ db. order.reflexive db }

  pub Moves-option :
      {A B : Type 0} (o : Option B) (m : Tx A) (f : B → Tx A)
      → Moves R m
      → ((b : B) → Moves R (f b))
      → Moves R (elim o [ none ↦ m | some b ↦ f b ])
  Moves-option none m f h k = h
  Moves-option (some b) m f h k = k b

  pub Moves-for_each :
      {A : Type 0} (f : A → Tx Unit) (xs : List A)
      → ((x : A) → Moves R (f x))
      → Moves R (for_each f xs)
  unfolding for_each
  Moves-for_each f [] h = Moves-pure tt
  Moves-for_each f (x ∷ xs) h =
      Moves-bind (f x) (λ _. for_each f xs) (h x) (λ _. Moves-for_each f xs h)

pub Moves-modify :
    {R : Db → Db → Type 0} (f : Db → Db) → ((db : Db) → R db (f db)) → Moves R (modify f)
unfolding modify
Moves-modify f h = record { at = h }

pub ruleset moves = (
  Moves-bind, Moves-pure, Moves-gets, Moves-fail, Moves-require, Moves-require_some, Moves-if,
  Moves-when, Moves-option, Moves-for_each,
)
