-- ===== src/Ledger.antt =====
-- The aggregate queries of both services: payments_api/repositories and
-- ledger_worker/repositories/domain_repository.py; and `stats` of api/routes_internal.py.
use global_ledger_consistenc.Base.{
  ℕ, suc, Bool, true, false, ◌||◌, List, [], ◌∷◌, if◌then◌else◌, ltb,
}
use global_ledger_consistenc.Int.{ℤ, pos, neg, ltb_ℤ, sum_of}
use global_ledger_consistenc.Contracts.{
  LedgerDirection, debit, credit, PaymentStatus, OutboxStatus, pending, processing, dead,
}
use global_ledger_consistenc.Orm.{Account, LedgerEntry, Db}

abbrev pub count_where : {A : Type 0} → (A → Bool) → List A → ℕ
count_where test [] = 0
count_where test (a ∷ rows) = if test a then suc (count_where test rows) else count_where test rows

abbrev pub signed : LedgerDirection → ℤ → ℤ
signed debit amount = amount
signed credit amount = neg amount

-- `case((direction == DEBIT, amount_cents), else_=-amount_cents)`
abbrev pub signed_amount : LedgerEntry → ℤ
signed_amount e = signed e.direction e.amount_cents

-- `imbalance_sum` and `ledger_imbalance`: the sum, or 0 over no rows.
unfoldable pub ledger_imbalance : Db → ℤ
ledger_imbalance db = sum_of signed_amount db.ledger_entries

abbrev pub is_negative : Account → Bool
is_negative a = ltb_ℤ a.available_balance_cents (pos 0) || ltb_ℤ a.reserved_balance_cents (pos 0)

-- `negative_balance_count`
unfoldable pub negative_balance_count : Db → ℕ
negative_balance_count db = count_where is_negative db.accounts

-- `has_negative_balances`
unfoldable pub has_negative_balances : Db → Bool
unfolding negative_balance_count
has_negative_balances db = ltb 0 (negative_balance_count db)

abbrev pub has_status : PaymentStatus → PaymentStatus → Bool
has_status PaymentStatus.received PaymentStatus.received = true
has_status PaymentStatus.reserved PaymentStatus.reserved = true
has_status PaymentStatus.completed PaymentStatus.completed = true
has_status PaymentStatus.rejected PaymentStatus.rejected = true
has_status _ _ = false

-- `count_by_status`
unfoldable pub count_by_status : PaymentStatus → Db → ℕ
count_by_status status db = count_where (λ p. has_status p.status status) db.payments

abbrev pub is_open : OutboxStatus → Bool
is_open pending = true
is_open processing = true
is_open _ = false

abbrev pub is_dead : OutboxStatus → Bool
is_dead dead = true
is_dead _ = false

-- `pending_count`
unfoldable pub pending_count : Db → ℕ
pending_count db = count_where (λ e. is_open e.status) db.outbox_events

-- `dead_count`
unfoldable pub dead_count : Db → ℕ
dead_count db = count_where (λ e. is_dead e.status) db.outbox_events

pub record Stats : Type 0 where
  pub completed : ℕ
  pub rejected : ℕ
  pub outbox_pending : ℕ
  pub outbox_dead : ℕ
  pub ledger_imbalance : ℤ
  pub negative_balance_detected : ℕ

-- `stats` of routes_internal.py
unfoldable pub stats : Db → Stats
stats db = record {
  completed = count_by_status PaymentStatus.completed db;
  rejected = count_by_status PaymentStatus.rejected db;
  outbox_pending = pending_count db;
  outbox_dead = dead_count db;
  ledger_imbalance = ledger_imbalance db;
  negative_balance_detected = if has_negative_balances db then 1 else 0;
}
