-- ===== src/System/Books/Runs.antt =====
-- The books over every run of the system.
use global_ledger_consistenc.Base.{String, ◌≡◌, refl, ◌∙◌, arith}
use global_ledger_consistenc.Int.{int_laws, sum_of}
use global_ledger_consistenc.Orm.{Db}
use global_ledger_consistenc.Externals.{Externals}
use global_ledger_consistenc.Ledger.{ledger_imbalance}
use global_ledger_consistenc.Worker.Outbox.Untouched.{fetch-SameMoney}
use global_ledger_consistenc.System.Steps.{
  Step, Reach, strong_paid, hybrid_paid, eventual_paid, leased as leased_step, reserved_settled,
  request_settled, here, next,
}
use global_ledger_consistenc.System.Books.{
  opening, holding, total_money, owned, opening-transfer, total-transfer, debit_available-Shifts,
  debit_reserved-Shifts, credit_available-Shifts, reserve-Shifts, holding-modify, total-modify,
  +ℤ-zero,
}

module _ {lib : Externals} where
  -- One commit keeps every account's opening balance.
  opening-Step : {db db' : Db} (id : String) → Step lib db db' → opening id db' ≡ opening id db
  unfolding opening
  opening-Step id (strong_paid d r hash a b db _ ha hb _ _) =
      opening-transfer r.amount_cents d.entries _ r.source_account_id r.destination_account_id id a
        b db.accounts db.ledger_entries (debit_available-Shifts r.amount_cents)
        (credit_available-Shifts r.amount_cents) ha hb
  opening-Step id (hybrid_paid d r hash t a b db _ ha hb _ _ _) =
      rw (holding-modify (reserve-Shifts r.amount_cents) r.source_account_id id a db.accounts ha)
        (ground (arith, +ℤ-zero (holding id db.accounts)))
  opening-Step id (eventual_paid d r hash t db _ _ _) = refl
  opening-Step id (leased_step now timeout size locked db) =
      let h = fetch-SameMoney lib now timeout size locked db in rw (h.accounts, h.ledger_entries)
  opening-Step id (reserved_settled d e p pay a b db _ _ ha hb _) =
      opening-transfer p.amount_cents d _ p.source_account_id p.destination_account_id id a b
        db.accounts db.ledger_entries (debit_reserved-Shifts p.amount_cents)
        (credit_available-Shifts p.amount_cents) ha hb
  opening-Step id (request_settled d e p pay a b db _ _ ha hb _) =
      opening-transfer p.amount_cents d _ p.source_account_id p.destination_account_id id a b
        db.accounts db.ledger_entries (debit_available-Shifts p.amount_cents)
        (credit_available-Shifts p.amount_cents) ha hb
  opening-Step id _ = refl

  -- Over any run of the system, what each account owns, less what the ledger's entries brought it, stays
  -- what it was at the start.
  pub opening-Reach :
      {db db' : Db} (id : String) → Reach lib db db' → opening id db' ≡ opening id db
  opening-Reach id here = refl
  opening-Reach id (next r st) = opening-Step id st ∙ opening-Reach id r

  -- One commit adds a debit and a credit of the same amount, or no entry.
  imbalance-Step : {db db' : Db} → Step lib db db' → ledger_imbalance db' ≡ ledger_imbalance db
  unfolding ledger_imbalance
  imbalance-Step (strong_paid d r hash a b db _ ha hb _ _) = omega int_laws
  imbalance-Step (leased_step now timeout size locked db) =
      rw (fetch-SameMoney lib now timeout size locked db).ledger_entries
  imbalance-Step (reserved_settled d e p pay a b db _ _ ha hb _) = omega int_laws
  imbalance-Step (request_settled d e p pay a b db _ _ ha hb _) = omega int_laws
  imbalance-Step _ = refl

  -- Over any run of the system the sum that both services report as the ledger's imbalance stays what it
  -- was at the start.
  pub imbalance-Reach :
      {db db' : Db} → Reach lib db db' → ledger_imbalance db' ≡ ledger_imbalance db
  imbalance-Reach here = refl
  imbalance-Reach (next r st) = imbalance-Step st ∙ imbalance-Reach r

  total-Step : {db db' : Db} → Step lib db db' → total_money db' ≡ total_money db
  unfolding total_money
  total-Step (strong_paid d r hash a b db _ ha hb _ _) =
      total-transfer r.amount_cents r.source_account_id r.destination_account_id a b db.accounts
        (debit_available-Shifts r.amount_cents) (credit_available-Shifts r.amount_cents) ha hb
  total-Step (hybrid_paid d r hash t a b db _ ha hb _ _ _) =
      rw (total-modify (reserve-Shifts r.amount_cents) r.source_account_id a db.accounts ha)
        (+ℤ-zero (sum_of owned db.accounts))
  total-Step (leased_step now timeout size locked db) =
      rw (fetch-SameMoney lib now timeout size locked db).accounts
  total-Step (reserved_settled d e p pay a b db _ _ ha hb _) =
      total-transfer p.amount_cents p.source_account_id p.destination_account_id a b db.accounts
        (debit_reserved-Shifts p.amount_cents) (credit_available-Shifts p.amount_cents) ha hb
  total-Step (request_settled d e p pay a b db _ _ ha hb _) =
      total-transfer p.amount_cents p.source_account_id p.destination_account_id a b db.accounts
        (debit_available-Shifts p.amount_cents) (credit_available-Shifts p.amount_cents) ha hb
  total-Step _ = refl

  -- Over any run of the system the money in all accounts, available and reserved, stays the same.
  pub total-Reach : {db db' : Db} → Reach lib db db' → total_money db' ≡ total_money db
  total-Reach here = refl
  total-Reach (next r st) = total-Step st ∙ total-Reach r
