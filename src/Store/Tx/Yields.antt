-- ===== src/Store/Tx/Yields.antt =====
-- What holds of the value of a transaction that succeeds.
use mews.Prelude.{subst}
use mews.Store.Result.{Result, ok, err}
use mews.Store.Tables.{Db}
use mews.Store.Tx.{Tx, ◌>>=◌, pure, IsPreorder, Leaves, Leaves-from, Moves}
use mews.Store.Tx.Runs.{Runs}

abbrev pub Holds : {A : Type 0} → (A → Type 0) → Result (A × Db) → Type 0
Holds Q (ok (a, db)) = Q a
Holds Q (err e) = Unit

pub record Yields {A : Type 0} (Q : A → Type 0) (m : Tx A) : Type 0 where
  pub at : (db : Db) → Holds Q (m db)

bind-Holds :
    {A B : Type 0} (Q : B → Type 0) (f : A → Tx B) (r : Result (A × Db))
    → ((a : A) → Yields Q (f a))
    → Holds Q (elim r [ err e ↦ err e | ok (a, db') ↦ f a db' ])
bind-Holds Q f (ok (a, db)) h = (h a).at db
bind-Holds Q f (err e) h = tt

-- The value of a sequence is that of its last step.
pub Yields-bind :
    {A B : Type 0} (Q : B → Type 0) (m : Tx A) (f : A → Tx B)
    → ((a : A) → Yields Q (f a))
    → Yields Q (m >>= f)
unfolding ◌>>=◌
Yields-bind Q m f h = record { at = λ db. bind-Holds Q f (m db) h }

any-Holds : {A : Type 0} (r : Result (A × Db)) → Holds (λ a. Unit {0}) r
any-Holds (ok p) = tt
any-Holds (err e) = tt

Yields-any : {A : Type 0} (m : Tx A) → Yields (λ a. Unit {0}) m
Yields-any m = record { at = λ db. any-Holds (m db) }

after-Holds :
    {A B : Type 0} (P : A → Type 0) (Q : B → Type 0) (f : A → Tx B) (r : Result (A × Db))
    → Holds P r
    → ((a : A) → P a → Yields Q (f a))
    → Holds Q (elim r [ err e ↦ err e | ok (a, db') ↦ f a db' ])
after-Holds P Q f (ok (a, db)) k h = (h a k).at db
after-Holds P Q f (err e) k h = tt

-- The same, with what the value of the first step has.
pub Yields-after :
    {A B : Type 0} (P : A → Type 0) (Q : B → Type 0) (m : Tx A) (f : A → Tx B)
    → Yields P m
    → ((a : A) → P a → Yields Q (f a))
    → Yields Q (m >>= f)
unfolding ◌>>=◌
Yields-after P Q m f k h = record { at = λ db. after-Holds P Q f (m db) (k.at db) h }

pub Yields-pure : {A : Type 0} (Q : A → Type 0) (a : A) → Q a → Yields Q (pure a)
unfolding pure
Yields-pure Q a h = record { at = λ db. h }

yielding_result :
    {A B : Type 0} (R : Db → Db → Type 0) (Q : A → Type 0) (f : A → Tx B) (db : Db)
    (r : Result (A × Db))
    → IsPreorder R
    → Leaves R db r
    → Holds Q r
    → ((a : A) (db1 : Db) → Q a → R db db1 → Leaves R db1 (f a db1))
    → Leaves R db (elim r [ err e ↦ err e | ok (a, db') ↦ f a db' ])
yielding_result R Q f db (ok (a, db1)) o h q k = Leaves-from o db db1 _ h (k a db1 q h)
yielding_result R Q f db (err e) o h q k = tt

-- What follows a step, at the tables that it leaves and with what its value has.
pub Leaves-yield :
    {A B : Type 0} {R : Db → Db → Type 0} (order : IsPreorder R) (Q : A → Type 0) (m : Tx A)
    (f : A → Tx B) (db : Db)
    → Moves R m
    → Yields Q m
    → ((a : A) (db1 : Db) → Q a → R db db1 → Leaves R db1 (f a db1))
    → Leaves R db ((m >>= f) db)
unfolding ◌>>=◌
Leaves-yield {R = R} order Q m f db h q k =
    yielding_result R Q f db (m db) order (h.at db) (q.at db) k

pub Leaves-then :
    {A B : Type 0} {R : Db → Db → Type 0} (order : IsPreorder R) (m : Tx A) (f : A → Tx B) (db : Db)
    → Leaves R db (m db)
    → ((a : A) (db1 : Db) → R db db1 → Leaves R db1 (f a db1))
    → Leaves R db ((m >>= f) db)
unfolding ◌>>=◌
Leaves-then {R = R} order m f db h k =
    yielding_result R (λ a. Unit) f db (m db) order h (any-Holds (m db)) (λ a db1 u l. k a db1 l)

pub Leaves-after :
    {A B : Type 0} {R : Db → Db → Type 0} (order : IsPreorder R) (m : Tx A) (f : A → Tx B) (db : Db)
    → Moves R m
    → ((a : A) (db1 : Db) → R db db1 → Leaves R db1 (f a db1))
    → Leaves R db ((m >>= f) db)
Leaves-after order m f db h k =
    Leaves-yield order (λ a. Unit) m f db h (Yields-any m) (λ a db1 u r. k a db1 r)

pub Moves-yield :
    {A B : Type 0} {R : Db → Db → Type 0} (order : IsPreorder R) (Q : A → Type 0) (m : Tx A)
    (f : A → Tx B)
    → Moves R m
    → Yields Q m
    → ((a : A) → Q a → Moves R (f a))
    → Moves R (m >>= f)
Moves-yield order Q m f h q k = record {
  at = λ db. Leaves-yield order Q m f db h q (λ a db1 x r. (k a x).at db1);
}

pub Runs-Yields :
    {A : Type 0} (Q : A → Type 0) (m : Tx A) (db : Db) {a : A} {db' : Db}
    → Yields Q m
    → Runs m db a db'
    → Q a
Runs-Yields Q m db h k = subst (Holds Q) k (h.at db)
