-- ===== src/Store/Sessions.antt =====
-- app/database.py `Database.session` and SQLAlchemy's `AsyncSession`: a request works on a copy of the
-- database that `commit` publishes and that is dropped where the session closes. Requests are run
-- one after another, as their row locks and the unique indexes arrange it.
use dalm_backend.Models.{DateTime, Uuid}
use dalm_backend.Prelude.{
  Bool, List, Option, [], false, if◌then◌else◌, none, some, true, ℕ, ◌∷◌, ◌≡◌,
}
use dalm_backend.Store.Constraints.{satisfies_constraints}
use dalm_backend.Store.Errors.{
  Error, Result, err, integrity_error, multiple_results_found, no_result_found, ok,
}
use dalm_backend.Store.Tables.{Db}

-- What a request asks of its environment: `datetime.now(UTC)`, the transaction's `now()` for the
-- server defaults, the successive `uuid4()`s.
pub record Env : Type 0 where
  pub now : DateTime
  pub db_now : DateTime
  pub uuid4 : ℕ → Uuid

pub record Session : Type 0 where
  pub committed : Db
  pub working : Db

abbrev pub Action : Type 0 → Type 0
Action A = Session → Result A × Session

module _ {A : Type 0} where
  abbrev pub pure : A → Action A
  pure a s = (ok a, s)

  abbrev pub raise : Error → Action A
  raise e s = (err e, s)

  abbrev pub or_raise : Option A → Error → Action A
  or_raise none e s = (err e, s)
  or_raise (some a) e s = (ok a, s)

  -- `scalar_one_or_none()`.
  abbrev pub scalar_one_or_none : List A → Action (Option A)
  scalar_one_or_none [] s = (ok none, s)
  scalar_one_or_none (x ∷ []) s = (ok (some x), s)
  scalar_one_or_none (x ∷ y ∷ xs) s = (err multiple_results_found, s)

  -- `scalar_one()`.
  abbrev pub scalar_one : List A → Action A
  scalar_one [] s = (err no_result_found, s)
  scalar_one (x ∷ []) s = (ok x, s)
  scalar_one (x ∷ y ∷ xs) s = (err multiple_results_found, s)

infixl 5 ◌>>=◌ ◌>>◌
abbrev pub ◌>>=◌ : {A B : Type 0} → Action A → (A → Action B) → Action B
◌>>=◌ m f s = let (r, s') = m s in elim r [ ok a ↦ f a s' | err e ↦ (err e, s') ]

abbrev pub ◌>>◌ : {A B : Type 0} → Action A → Action B → Action B
m >> k = m >>= λ _. k

abbrev pub raise_if : Bool → Error → Action (Unit {0})
raise_if c e s = (if c then err e else ok tt, s)

-- A query reads the session's own view.
abbrev pub query : {A : Type 0} → (Db → A) → Action A
query f s = (ok (f s.working), s)

-- An ORM change or an UPDATE, INSERT or DELETE statement.
abbrev pub modify : (Db → Db) → Action (Unit {0})
modify f s = (ok tt, record s { working = f s.working })

-- The constraints are checked where changes reach the database.
abbrev pub flush_if : Bool → Action (Unit {0})
flush_if true s = (ok tt, s)
flush_if false s = (err integrity_error, s)

abbrev pub flush : Action (Unit {0})
flush s = flush_if (satisfies_constraints s.working) s

abbrev pub commit_if : Bool → Action (Unit {0})
commit_if true s = (ok tt, record s { committed = s.working })
commit_if false s = (err integrity_error, s)

abbrev pub commit : Action (Unit {0})
commit s = commit_if (satisfies_constraints s.working) s

abbrev pub rollback : Action (Unit {0})
rollback s = (ok tt, record s { working = s.committed })

-- `try: commit() except IntegrityError: rollback(); raise e`.
abbrev pub commit_or_if : Bool → Error → Action (Unit {0})
commit_or_if true e s = (ok tt, record s { committed = s.working })
commit_or_if false e s = (err e, record s { working = s.committed })

abbrev pub commit_or : Error → Action (Unit {0})
commit_or e s = commit_or_if (satisfies_constraints s.working) e s

-- A new session on the database.
abbrev pub start : Db → Session
start db = record { committed = db; working = db }

-- One request: a new session, whose uncommitted work is dropped at the end.
abbrev pub request : {A : Type 0} → Action A → Db → Result A × Db
request m db = let (r, s) = m (start db) in (r, s.committed)

-- A request that raises leaves the database as it was.
abbrev pub IsAtomic : {A : Type 0} → Action A → Type 0
IsAtomic m = (db : Db) (x : Error) → (request m db).0 ≡ err x → (request m db).1 ≡ db

-- A plain computation that may raise.
abbrev pub lift : {A : Type 0} → Result A → Action A
lift r s = (r, s)
