-- ===== src/Payments/Migrate.antt =====
-- payments_api/db/migrate.py: the seed accounts and the reset of everything else.
use global_ledger_consistenc.Base.{
  ℕ, String, Bool, Option, none, some, List, [], ◌∷◌, if◌then◌else◌,
}
use global_ledger_consistenc.Int.{ℤ, pos}
use global_ledger_consistenc.Table.{get}
use global_ledger_consistenc.Orm.{Account, Db, account_row, account_keyed}
use global_ledger_consistenc.Session.{pure, read, update, add, ◌>>=◌, ◌>>◌}
use global_ledger_consistenc.Session.Transaction.{Conditions, begin}
use global_ledger_consistenc.Payments.{ApiAction, integrity_error, sqlalchemy_error}
use global_ledger_consistenc.Payments.Strategies.{in_account}

abbrev pub seed_accounts_list : List (String × ℤ)
seed_accounts_list =
    ("acc-001", pos 1_000_000)
    ∷ ("acc-002", pos 1_000_000)
    ∷ ("acc-003", pos 1_000_000)
    ∷ ("acc-004", pos 1_000_000)
    ∷ []

abbrev pub seeded : ℤ → Account → Account
seeded balance a = record a {
  available_balance_cents = balance;
  reserved_balance_cents = pos 0;
  version = 0;
}

abbrev pub new_account : ℕ → String → ℤ → Account
new_account created_at id balance = record {
  id = id;
  available_balance_cents = balance;
  reserved_balance_cents = pos 0;
  version = 0;
  created_at = created_at;
}

-- The database that `drop_all` and `create_all` leave.
abbrev pub empty : Db
empty = record {
  accounts = [];
  payments = [];
  idempotency_keys = [];
  outbox_events = [];
  ledger_entries = [];
}

-- `create_schema`; on a schema that is there `create_all` changes nothing.
unfoldable pub create_schema : Bool → Db → Db
create_schema recreate db = if recreate then empty else db

-- The four deletions of `reset_transactional_state`.
unfoldable pub reset_transactional_state : Db → Db
reset_transactional_state db = record empty { accounts = db.accounts }

-- One round of the loop of `seed_accounts`.
unfoldable pub seed_account : ℕ → String → ℤ → Option Account → ApiAction (Unit {0})
seed_account created_at id balance none = add (account_row (new_account created_at id balance))
seed_account created_at id balance (some existing) =
    update (in_account existing.id (seeded balance))

unfoldable pub seed_all : ℕ → List (String × ℤ) → ApiAction (Unit {0})
unfolding seed_account
seed_all created_at [] = pure tt
seed_all created_at ((id, balance) ∷ rest) = do
  db ← read
  seed_account created_at id balance (get id db.accounts)
  seed_all created_at rest

-- `seed_accounts`
unfoldable pub seed_accounts : Conditions → ℕ → ApiAction (Unit {0})
unfolding begin seed_all
seed_accounts c created_at =
    begin integrity_error sqlalchemy_error c (seed_all created_at seed_accounts_list)

-- `reset_transactional_state`, in its own unit of work.
unfoldable pub reset : Conditions → ApiAction (Unit {0})
unfolding begin reset_transactional_state
reset c = begin integrity_error sqlalchemy_error c (update reset_transactional_state)

-- `migrate`, on the schema that `create_schema` leaves; an exception ends it.
unfoldable pub migrate_data : Bool → Conditions → Conditions → ℕ → ApiAction (Unit {0})
unfolding reset seed_accounts
migrate_data recreate c c' created_at =
    if recreate then seed_accounts c' created_at else (do reset c; seed_accounts c' created_at)
