-- ===== src/Scripts/Experiment/Totals.antt =====
-- `aggregate_results` of scripts/run_experiment.py, and what the application tests read of it.
use global_ledger_consistenc.Base.{
  ℕ, ◌+◌, ◌*◌, String, Option, none, some, List, [], ◌∷◌, ◌++◌, length, if◌then◌else◌,
}
use global_ledger_consistenc.Int.{ℤ, pos, sum_of}
use global_ledger_consistenc.Config.{◌>>=◌}
use global_ledger_consistenc.Scripts.{Summary}
use global_ledger_consistenc.Scripts.Percentile.{Floats, percentile}
use global_ledger_consistenc.Scripts.Experiment.{Args, Metrics, RunResult, TimelineEvent, non_2xx}

-- What the summary is computed with: `statistics.mean`, `round(x, 2)` and the literal 99.9.
pub record Rounding (Float : Type 0) : Type 0 where
  pub mean : List Float → Float
  pub round_2 : Float → Float
  pub pct_999 : Float

-- The dict that `aggregate_results` returns.
pub record Aggregate (Float : Type 0) : Type 0 where
  pub mode : String
  pub requests : ℕ
  pub requests_per_run : ℕ
  pub concurrency : ℕ
  pub profile : String
  pub scenario : String
  pub runs : ℕ
  pub warmup_runs : ℕ
  pub completed : ℕ
  pub rejected : ℕ
  pub outbox_pending : ℕ
  pub outbox_dead : ℕ
  pub ledger_imbalance : ℤ
  pub negative_balance_detected : ℕ
  pub avg_latency_ms : Float
  pub p50_latency_ms : Float
  pub p95_latency_ms : Float
  pub p99_latency_ms : Float
  pub p999_latency_ms : Float
  pub throughput_rps : Float
  pub http_non_2xx : ℕ
  pub metrics : Metrics Float
  pub timeline : List TimelineEvent

module _ {A : Type 0} where
  -- `sum(f(item) for item in runs)` of integers.
  abbrev pub total : (A → ℕ) → List A → ℕ
  total f [] = 0
  total f (a ∷ rest) = f a + total f rest

  -- `[x for item in runs for x in f(item)]`
  abbrev pub concat_map : {B : Type 0} → (A → List B) → List A → List B
  concat_map f [] = []
  concat_map f (a ∷ rest) = f a ++ concat_map f rest

module _ {Float : Type 0} (fl : Floats Float) (r : Rounding Float) where
  -- `sum` of floats, from the left.
  abbrev add_all : Float → List Float → Float
  add_all acc [] = acc
  add_all acc (x ∷ xs) = add_all (fl.add acc x) xs

  abbrev pub total_float : {A : Type 0} → (A → Float) → List A → Float
  total_float f runs = add_all (fl.of_int 0) (concat_map (λ a. f a ∷ []) runs)

  abbrev mean_of : List Float → Float
  mean_of [] = fl.of_int 0
  mean_of (x ∷ xs) = r.round_2 (r.mean (x ∷ xs))

  abbrev throughput : ℕ → Float → Float
  throughput requests elapsed =
      if fl.lt (fl.of_int 0) elapsed then fl.div (fl.of_int requests) elapsed else fl.of_int 0

  -- The metrics of all runs.
  unfoldable pub total_metrics : List (RunResult Float) → Metrics Float
  total_metrics runs = record {
    payments_received_total = total_float (λ x. x.metrics.payments_received_total) runs;
    payments_processed_total_api = total_float (λ x. x.metrics.payments_processed_total_api) runs;
    idempotency_replay_total = total_float (λ x. x.metrics.idempotency_replay_total) runs;
    optimistic_lock_conflict_total_api =
        total_float (λ x. x.metrics.optimistic_lock_conflict_total_api) runs;
    payments_processed_total_worker =
        total_float (λ x. x.metrics.payments_processed_total_worker) runs;
    outbox_retry_total = total_float (λ x. x.metrics.outbox_retry_total) runs;
    ledger_imbalance_total_metric = total_float (λ x. x.metrics.ledger_imbalance_total_metric) runs;
    negative_balance_detected_total_metric =
        total_float (λ x. x.metrics.negative_balance_detected_total_metric) runs;
  }

  -- The dict, from the percentiles of all latencies.
  unfoldable pub summary_with :
      Args → List (RunResult Float) → Float → Float → Float → Float → Aggregate Float
  unfolding total_metrics non_2xx
  summary_with args runs p50 p95 p99 p999 = record {
    mode = args.mode;
    requests = args.requests * length runs;
    requests_per_run = args.requests;
    concurrency = args.concurrency;
    profile = args.profile;
    scenario = args.scenario;
    runs = length runs;
    warmup_runs = args.warmup_runs;
    completed = total (λ x. x.stats.completed) runs;
    rejected = total (λ x. x.stats.rejected) runs;
    outbox_pending = total (λ x. x.stats.outbox_pending) runs;
    outbox_dead = total (λ x. x.stats.outbox_dead) runs;
    ledger_imbalance = sum_of (λ x. x.stats.ledger_imbalance) runs;
    negative_balance_detected = total (λ x. x.stats.negative_balance_detected) runs;
    avg_latency_ms = mean_of (concat_map (λ x. x.latencies_ms) runs);
    p50_latency_ms = r.round_2 p50;
    p95_latency_ms = r.round_2 p95;
    p99_latency_ms = r.round_2 p99;
    p999_latency_ms = r.round_2 p999;
    throughput_rps =
        r.round_2
          (throughput (args.requests * length runs) (total_float (λ x. x.elapsed_seconds) runs));
    http_non_2xx = non_2xx (concat_map (λ x. x.statuses) runs);
    metrics = total_metrics runs;
    timeline = concat_map (λ x. x.timeline) runs;
  }

  -- `aggregate_results`; `none` is the `RuntimeError` without measured runs, or an `IndexError` of
  -- `percentile`.
  unfoldable pub aggregate_results : Args → List (RunResult Float) → Option (Aggregate Float)
  unfolding percentile summary_with
  aggregate_results args [] = none
  aggregate_results args (run ∷ runs) = do
    let latencies = concat_map (λ x. x.latencies_ms) (run ∷ runs)
    p50 ← percentile fl latencies (fl.of_int 50)
    p95 ← percentile fl latencies (fl.of_int 95)
    p99 ← percentile fl latencies (fl.of_int 99)
    p999 ← percentile fl latencies r.pct_999
    some (summary_with args (run ∷ runs) p50 p95 p99 p999)

-- The reads of `evaluate_scenario` from the dict.
unfoldable pub read_summary : {Float : Type 0} → Aggregate Float → Summary Float
read_summary a = record {
  requests = pos a.requests;
  completed = pos a.completed;
  rejected = pos a.rejected;
  outbox_pending = pos a.outbox_pending;
  outbox_dead = pos a.outbox_dead;
  ledger_imbalance = a.ledger_imbalance;
  negative_balance_detected = pos a.negative_balance_detected;
  http_non_2xx = pos a.http_non_2xx;
  outbox_retry_total = a.metrics.outbox_retry_total;
  p95_latency_ms = a.p95_latency_ms;
  p99_latency_ms = a.p99_latency_ms;
  p999_latency_ms = a.p999_latency_ms;
}
