-- ===== src/Session.antt =====
-- A unit of work: SQLAlchemy's `Session` as the program uses it, with `autoflush=False`. Changes to
-- loaded rows go to the working copy `db`; added rows wait in `pending` for the commit. `M` holds the
-- Prometheus counters of the process, which no rollback takes back.
pub mod Transaction
pub mod Accounts
pub mod Entries
use global_ledger_consistenc.Base.{
  ◌≡◌, ℕ, String, Bool, true, false, Option, none, some, List, [], ◌∷◌, ◌++◌, ◌==◌, if◌then◌else◌,
  not,
}
use global_ledger_consistenc.Int.{ℤ}
use global_ledger_consistenc.Table.{get, modify}
use global_ledger_consistenc.Contracts.{debit, credit}
use global_ledger_consistenc.Orm.{
  Account, Payment, OutboxEvent, LedgerEntry, Db, Row, entry_row, account_keyed,
}
use global_ledger_consistenc.Orm.Flush.{flush}

pub data Result (E A : Type 0) : Type 0 where
  ok : A → Result E A
  err : E → Result E A

pub record Session (M : Type 0) : Type 0 where
  pub committed : Db
  pub db : Db
  pub pending : List Row
  pub metrics : M

-- A call that may raise; what it did to the session stays until a rollback.
abbrev pub Action : Type 0 → Type 0 → Type 0 → Type 0
Action M E A = Session M → Result E A × Session M

module _ {M E A : Type 0} where
  abbrev pub pure : A → Action M E A
  pure a s = (ok a, s)

  abbrev pub raise : E → Action M E A
  raise e s = (err e, s)

  abbrev pub or_raise : Option A → E → Action M E A
  or_raise none e s = (err e, s)
  or_raise (some a) e s = (ok a, s)

module _ {M E : Type 0} where
  abbrev pub raise_if : Bool → E → Action M E (Unit {0})
  raise_if c e s = (if c then err e else ok tt, s)

  abbrev pub read : Action M E Db
  read s = (ok s.db, s)

  abbrev pub update : (Db → Db) → Action M E (Unit {0})
  update f s = (ok tt, record s { db = f s.db })

  -- `session.add`
  abbrev pub add : Row → Action M E (Unit {0})
  add row s = (ok tt, record s { pending = s.pending ++ row ∷ [] })

  abbrev pub count : (M → M) → Action M E (Unit {0})
  count f s = (ok tt, record s { metrics = f s.metrics })

infixl 5 ◌>>=◌ ◌>>◌
abbrev pub ◌>>=◌ : {M E A B : Type 0} → Action M E A → (A → Action M E B) → Action M E B
◌>>=◌ m f s = let (r, s') = m s in elim r [ ok a ↦ f a s' | err e ↦ (err e, s') ]

abbrev pub ◌>>◌ : {M E B : Type 0} → Action M E (Unit {0}) → Action M E B → Action M E B
m >> k = m >>= λ _. k

-- `session.rollback()`
unfoldable pub rollback : {M : Type 0} → Session M → Session M
rollback s = record s { db = s.committed; pending = [] }

pub ok-injective : {E A : Type 0} {a b : A} → ◌≡◌ {A = Result E A} (ok a) (ok b) → a ≡ b
ok-injective h = cc
