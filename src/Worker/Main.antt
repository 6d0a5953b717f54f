-- ===== src/Worker/Main.antt =====
-- `build_processor` and `run_loop` of ledger_worker/main.py: the polls, and a reconciliation whenever its
-- interval is over.
pub mod Profiles
pub mod Intervals
use global_ledger_consistenc.Base.{
  ℕ, ◌-◌, String, Bool, Option, none, some, List, [], ◌∷◌, leb, if◌then◌else◌,
}
use global_ledger_consistenc.Config.{WorkerSettings}
use global_ledger_consistenc.Worker.Injector.{Scoring, failure_injector}
use global_ledger_consistenc.Contracts.{ConsistencyMode}
use global_ledger_consistenc.Externals.{Externals}
use global_ledger_consistenc.Session.{pure, ◌>>=◌}
use global_ledger_consistenc.Session.Transaction.{Conditions}
use global_ledger_consistenc.Worker.{WorkerAction, FailureInjectorPort}
use global_ledger_consistenc.Worker.Processor.{Surroundings, process_available_events}
use global_ledger_consistenc.Worker.Reconciliation.{run_once}

-- What one round of the loop meets: the clocks' readings (`time.monotonic` after the poll), the rows
-- that other transactions hold, and the database during the poll and the reconciliation.
pub record Round : Type 0 where
  pub now : ℕ
  pub monotonic : ℕ
  pub locked : String → Bool
  pub acquiring : Conditions
  pub events : String → Surroundings
  pub reconciling : Conditions

-- The `WorkerProcessor` and the settings that the loop reads; times are microseconds.
pub record Loop : Type 0 where
  pub mode : ConsistencyMode
  pub injector : FailureInjectorPort
  pub processing_timeout : ℕ
  pub reconciliation_interval : ℕ
  pub batch_size : ℕ

-- `build_processor`, with the default batch size of `process_available_events`; `microseconds` reads
-- a float of seconds, and `none` is the `ValueError` of an unknown profile.
unfoldable pub build_processor : {F : Type 0} → Scoring F → (F → ℕ) → WorkerSettings F → Option Loop
unfolding failure_injector
build_processor sc microseconds settings =
    elim (failure_injector sc settings.fail_profile settings.experiment_seed) [
      | none ↦ none
      | some injector ↦ some (record {
        mode = settings.consistency_mode;
        injector = injector;
        processing_timeout = microseconds settings.processing_timeout_seconds;
        reconciliation_interval = microseconds settings.reconciliation_interval_seconds;
        batch_size = 20;
      })
    ]

module _ (lib : Externals) (l : Loop) where
  -- The `if` of the loop's body: the new `last_reconciliation`.
  unfoldable pub reconcile_if_due : Round → ℕ → WorkerAction ℕ
  unfolding run_once
  reconcile_if_due r last =
      if leb l.reconciliation_interval (r.monotonic - last)
      then (do found ← run_once r.reconciling; pure r.monotonic)
      else pure last

  -- One round, up to `asyncio.sleep`.
  unfoldable pub run_round : Round → ℕ → WorkerAction ℕ
  unfolding process_available_events reconcile_if_due
  run_round r last = do
    taken ←
        process_available_events lib l.mode l.injector r.acquiring r.now l.processing_timeout
          r.locked r.events l.batch_size
    reconcile_if_due r last

  -- So many rounds of `while True`; an exception ends the worker.
  unfoldable pub run_loop : List Round → ℕ → WorkerAction ℕ
  unfolding run_round
  run_loop [] last = pure last
  run_loop (r ∷ rounds) last = do last' ← run_round r last; run_loop rounds last'
