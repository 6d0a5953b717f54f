-- ===== src/System/Convergence/Accounts.antt =====
-- `wait_outbox_drained` of scripts/run_experiment.py, against the runs of the system.
use global_ledger_consistenc.Externals.{Externals}
