-- ===== src/System/Start.antt =====
-- The system from the database that migrate.py leaves.
use global_ledger_consistenc.Base.{
  ℕ, false, true, ◌≡◌, refl, subst, ap, arith, ltb, List, [], ◌∷◌, All,
}
use global_ledger_consistenc.Int.{pos, ◌+ℤ◌}
use global_ledger_consistenc.Table.{get, has}
use global_ledger_consistenc.Orm.{Db, Account}
use global_ledger_consistenc.Orm.Flush.{flush}
use global_ledger_consistenc.Externals.{Externals}
use global_ledger_consistenc.Ledger.{
  ledger_imbalance, has_negative_balances, is_negative, count_where,
}
use global_ledger_consistenc.Session.Transaction.{Conditions, begin, leave}
use global_ledger_consistenc.Payments.{Metrics}
use global_ledger_consistenc.Payments.Migrate.{
  migrate_data, create_schema, empty, new_account, seed_accounts, seed_all,
}
use global_ledger_consistenc.Worker.Payload.RoundTrip.{PayloadRoundTrip}
use global_ledger_consistenc.System.Steps.{Reach}
use global_ledger_consistenc.System.Intake.{fresh}
use global_ledger_consistenc.System.Books.{total_money}
use global_ledger_consistenc.System.Books.Runs.{imbalance-Reach, total-Reach}
use global_ledger_consistenc.System.Solvency.{IsSolvent, IsSolvent-Reach, IsNonneg}

-- The four accounts and nothing else.
abbrev pub seed_db : ℕ → Db
seed_db at = record empty {
  accounts =
      new_account at "acc-004" (pos 1_000_000)
      ∷ new_account at "acc-003" (pos 1_000_000)
      ∷ new_account at "acc-002" (pos 1_000_000)
      ∷ new_account at "acc-001" (pos 1_000_000)
      ∷ [];
}

migrate-seed_db :
    (c c' : Conditions) (at : ℕ) (m : Metrics) (old : Db)
    → c'.reachable ≡ true
    → c'.commits ≡ true
    → (migrate_data true c c' at (fresh (create_schema true old) m)).1.committed ≡ seed_db at
unfolding migrate_data seed_accounts begin leave flush create_schema seed_all get has
migrate-seed_db c c' at m old up goes = rw (up, goes) refl

seed_db-IsSolvent : (lib : Externals) (at : ℕ) → IsSolvent lib (seed_db at)
seed_db-IsSolvent lib at = record { accounts = omega arith; events = tt }

none_negative : (rows : List Account) → All IsNonneg rows → count_where is_negative rows ≡ 0
none_negative [] all = refl
none_negative (a ∷ rows) all = ground (arith, none_negative rows all.1, all.0)

solvent-has_negative_balances :
    (lib : Externals) (db : Db) → IsSolvent lib db → has_negative_balances db ≡ false
unfolding has_negative_balances
solvent-has_negative_balances lib db h = ap (ltb 0) (none_negative db.accounts h.accounts)

-- From the database that a migration with a new schema leaves, no run of the system creates or loses
-- money, unbalances the ledger or makes a balance negative, so no reconciliation has anything to
-- report, provided that `json.loads` gives back what `json.dumps` was given.
pub migrate-Reach :
    (lib : Externals) (c c' : Conditions) (at : ℕ) (m : Metrics) (old db : Db)
    → PayloadRoundTrip lib
    → c'.reachable ≡ true
    → c'.commits ≡ true
    → Reach lib (migrate_data true c c' at (fresh (create_schema true old) m)).1.committed db
    → (total_money db ≡ pos 4_000_000)
      × (ledger_imbalance db ≡ pos 0)
      × (has_negative_balances db ≡ false)
unfolding total_money ledger_imbalance ◌+ℤ◌
migrate-Reach lib c c' at m old db law up goes run =
    let start = subst (λ x. Reach lib x db) (migrate-seed_db c c' at m old up goes) run in
    (
      total-Reach start,
      imbalance-Reach start,
      solvent-has_negative_balances lib db
          (IsSolvent-Reach lib law (seed_db-IsSolvent lib at) start),
    )
