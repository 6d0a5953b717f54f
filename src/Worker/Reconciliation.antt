-- ===== src/Worker/Reconciliation.antt =====
-- ledger_worker/services/reconciliation.py
use global_ledger_consistenc.Base.{ℕ, ◌+◌, Bool, ltb, if◌then◌else◌, ◌||◌}
use global_ledger_consistenc.Int.{ℤ, pos, ltb_ℤ}
use global_ledger_consistenc.Ledger.{ledger_imbalance, negative_balance_count}
use global_ledger_consistenc.Session.{ok, pure, count, ◌>>=◌, ◌>>◌}
use global_ledger_consistenc.Session.Transaction.{Conditions}
use global_ledger_consistenc.Worker.{Metrics, WorkerAction}
use global_ledger_consistenc.Worker.Processor.{unit_of_work}

pub record Reconciled : Type 0 where
  pub imbalance : ℤ
  pub negative_count : ℕ

abbrev pub is_nonzero : ℤ → Bool
is_nonzero n = ltb_ℤ n (pos 0) || ltb_ℤ (pos 0) n

abbrev pub imbalanced : Metrics → Metrics
imbalanced m = record m { ledger_imbalance = m.ledger_imbalance + 1 }

abbrev pub negative_seen : Metrics → Metrics
negative_seen m = record m { negative_balance_detected = m.negative_balance_detected + 1 }

abbrev pub same : Metrics → Metrics
same m = m

-- The two queries, in one unit of work.
abbrev pub queries : WorkerAction Reconciled
queries s = (
  ok (record { imbalance = ledger_imbalance s.db; negative_count = negative_balance_count s.db }),
  s,
)

-- The counters that follow, and the answer.
abbrev pub report : Reconciled → WorkerAction Reconciled
report found = do
  count (if is_nonzero found.imbalance then imbalanced else same)
  count (if ltb 0 found.negative_count then negative_seen else same)
  pure found

-- `ReconciliationService.run_once`
unfoldable pub run_once : Conditions → WorkerAction Reconciled
unfolding unit_of_work
run_once c = do found ← unit_of_work c queries; report found
