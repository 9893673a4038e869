-- ===== src/Store/Tx/Runs.antt =====
-- What a transaction that succeeds has run.
use mews.Prelude.{Bool, true, false, ◌≡◌, refl, subst, ap, ◌∙◌}
use mews.Store.Result.{Result, ok, err, StoreError}
use mews.Store.Tables.{Db}
use mews.Store.Tx.{Tx, ◌>>=◌, require, Moves, Leaves}

-- The transaction succeeds on `db` with a value and leaves `db'`.
abbrev pub Runs : {A : Type 0} → Tx A → Db → A → Db → Type 0
Runs m db a db' = m db ≡ ok (a, db')

bind_result-Runs :
    {A B : Type 0} (f : A → Tx B) (r : Result (A × Db)) {b : B} {db' : Db}
    → elim r [ err e ↦ err e | ok (a, db1) ↦ f a db1 ] ≡ ok (b, db')
    → (a : A) × (db1 : Db) × (r ≡ ok (a, db1)) × Runs (f a) db1 b db'
bind_result-Runs f (ok (a, db1)) h = (a, db1, refl, h)
bind_result-Runs f (err e) h = absurd (cc)

-- A sequence that succeeds is one success after another.
pub bind-Runs :
    {A B : Type 0} (m : Tx A) (f : A → Tx B) (db : Db) {b : B} {db' : Db}
    → Runs (m >>= f) db b db'
    → (a : A) × (db1 : Db) × Runs m db a db1 × Runs (f a) db1 b db'
unfolding ◌>>=◌
bind-Runs m f db h = bind_result-Runs f (m db) h

pub Runs-bind :
    {A B : Type 0} (m : Tx A) (f : A → Tx B) (db : Db) {a : A} {db1 : Db} {b : B} {db' : Db}
    → Runs m db a db1
    → Runs (f a) db1 b db'
    → Runs (m >>= f) db b db'
unfolding ◌>>=◌
Runs-bind m f db h k = ap (λ r. elim r [ err e ↦ err e | ok (a, db1) ↦ f a db1 ]) h ∙ k

-- Where one step is read and the next follows from its value.
pub bind_ok :
    {A B : Type 0} (m : Tx A) (f : A → Tx B) (db : Db) {a : A} {db1 : Db}
    → Runs m db a db1
    → (m >>= f) db ≡ f a db1
unfolding ◌>>=◌
bind_ok m f db h = ap (λ r. elim r [ err e ↦ err e | ok (a, db1) ↦ f a db1 ]) h

pub require-Runs :
    (b : Bool) (e : StoreError) (db : Db) {u : Unit} {db' : Db}
    → Runs (require b e) db u db'
    → (b ≡ true) × (db' ≡ db)
unfolding require
require-Runs true e db h = (refl, cc)
require-Runs false e db h = absurd (cc)

pub Runs-Moves :
    {A : Type 0} {R : Db → Db → Type 0} (m : Tx A) (db : Db) {a : A} {db' : Db}
    → Moves R m
    → Runs m db a db'
    → R db db'
Runs-Moves {R = R} m db h k = subst (Leaves R db) k (h.at db)
