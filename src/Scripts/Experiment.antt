-- ===== src/Scripts/Experiment.antt =====
-- scripts/run_experiment.py: the requests of a run, its timeline with the incidents, and the environment
-- of the services. Numbers of the command line are not negative here.
pub mod Totals
pub mod Incidents
pub mod Setup
pub mod Verdicts
use Prim.Native.String.{◌++◌}
use Prim.Native.Nat.{◌%◌}
use global_ledger_consistenc.Base.{
  ℕ, zero, suc, ◌+◌, String, Bool, true, false, ◌||◌, ◌&&◌, not, ◌==◌, Option, none, some, List, [],
  ◌∷◌, if◌then◌else◌, length, ltb, leb,
}
use global_ledger_consistenc.Int.{ℤ, pos, leb_ℤ}
use global_ledger_consistenc.Contracts.{
  CreatePaymentRequest, pix, IncidentSeverity, info, p1, p2, severity_value,
}
use global_ledger_consistenc.Ledger.{Stats, count_where}
use global_ledger_consistenc.Config.{Environment}
use global_ledger_consistenc.Scripts.{eq_ℤ}
use global_ledger_consistenc.Scripts.Waiting.{Waited, done, equals}

-- The arguments of the command line.
pub record Args : Type 0 where
  pub mode : String
  pub requests : ℕ
  pub concurrency : ℕ
  pub profile : String
  pub scenario : String
  pub base_url : String
  pub runs : ℕ
  pub warmup_runs : ℕ

-- `str` of a number, and the formats `:03d` and `:06d`.
pub record Texts : Type 0 where
  pub str : ℕ → String
  pub str_ℤ : ℤ → String
  pub pad_3 : ℕ → String
  pub pad_6 : ℕ → String

module _ (texts : Texts) where
  -- `payload_for`
  unfoldable pub payload_for : ℕ → String → String → String → CreatePaymentRequest
  payload_for index mode scenario run_label = record {
    idempotency_key = "exp-" ++ run_label ++ "-" ++ mode ++ "-" ++ texts.pad_6 index;
    source_account_id = if equals (index % 2) 0 then "acc-001" else "acc-003";
    destination_account_id = if equals (index % 2) 0 then "acc-002" else "acc-004";
    amount_cents =
        if scenario == "insufficient_funds" && mode == "eventual" then pos 1_250_000 else pos 100;
    method = pix;
  }

pub record TimelineEvent : Type 0 where
  pub timestamp : String
  pub event : String
  pub severity : String
  pub details : String

abbrev pub append : {A : Type 0} → List A → A → List A
append [] a = a ∷ []
append (x ∷ xs) a = x ∷ append xs a

-- `add_timeline_event`; the clock shows `times i` when the `i`-th event is added.
unfoldable pub add_timeline_event :
    (ℕ → String) → List TimelineEvent → String → String → IncidentSeverity → List TimelineEvent
unfolding severity_value
add_timeline_event times timeline event details severity = append timeline (record {
  timestamp = times (length timeline);
  event = event;
  severity = severity_value severity;
  details = details;
})

-- `len([status for status in statuses if status < 200 or status >= 300])`
unfoldable pub non_2xx : List ℕ → ℕ
non_2xx statuses = count_where (λ status. ltb status 200 || leb 300 status) statuses

-- What `collect_metrics` reads.
pub record Metrics (Float : Type 0) : Type 0 where
  pub payments_received_total : Float
  pub payments_processed_total_api : Float
  pub idempotency_replay_total : Float
  pub optimistic_lock_conflict_total_api : Float
  pub payments_processed_total_worker : Float
  pub outbox_retry_total : Float
  pub ledger_imbalance_total_metric : Float
  pub negative_balance_detected_total_metric : Float

pub record RunResult (Float : Type 0) : Type 0 where
  pub statuses : List ℕ
  pub latencies_ms : List Float
  pub stats : Stats
  pub metrics : Metrics Float
  pub elapsed_seconds : Float
  pub timeline : List TimelineEvent

-- What a run meets: the clock of its timeline, the processes it starts, how the waits end, what the
-- load and the metrics give (`none` is an exception), and how long it took.
pub record Met (Float : Type 0) : Type 0 where
  pub times : ℕ → String
  pub api_pid : ℕ
  pub worker_pid : ℕ
  pub health : Waited (Unit {0})
  pub load : Option (List ℕ × List Float)
  pub drained : Waited Stats
  pub metrics : Option (Metrics Float)
  pub elapsed_seconds : Float

-- `int` of a float that is not negative.
module _ {Float : Type 0} (int_of : Float → ℕ) (texts : Texts) (args : Args)
    (times : ℕ → String) where
  unfoldable pub add_if :
      Bool → List TimelineEvent → String → String → IncidentSeverity → List TimelineEvent
  unfolding add_timeline_event
  add_if test timeline event details severity =
      if test then add_timeline_event times timeline event details severity else timeline

  -- The four incident rules.
  unfoldable pub add_incidents : List TimelineEvent → ℕ → Stats → List TimelineEvent
  unfolding add_if
  add_incidents timeline retries stats =
      let unstable =
        add_if (ltb 0 retries) timeline "incident_dependency_instability"
          ("retry_events=" ++ texts.str retries ++ " under profile=" ++ args.profile) p1 in
      let refused =
        add_if (ltb 0 stats.rejected) unstable "incident_business_rejections"
          ("rejected=" ++ texts.str stats.rejected ++ " scenario=" ++ args.scenario) p2 in
      let unbalanced =
        add_if (not (eq_ℤ stats.ledger_imbalance (pos 0))) refused "incident_invariant_imbalance"
          ("ledger_imbalance=" ++ texts.str_ℤ stats.ledger_imbalance) p1 in
      add_if (not (equals stats.negative_balance_detected 0)) unbalanced
        "incident_invariant_negative_balance"
        ("negative_balance_detected=" ++ texts.str stats.negative_balance_detected) p1

  -- The events before the health check.
  unfoldable pub started_timeline : String → ℕ → ℕ → List TimelineEvent
  unfolding add_timeline_event
  started_timeline run_label api_pid worker_pid =
      add_timeline_event times
        (add_timeline_event times
          (add_timeline_event times [] "run_started"
            ("label="
              ++ run_label
              ++ " mode="
              ++ args.mode
              ++ " profile="
              ++ args.profile
              ++ " requests="
              ++ texts.str args.requests
              ++ " concurrency="
              ++ texts.str args.concurrency)
            info)
          "migration_completed" "schema recreated and seed accounts reset" info)
        "services_started"
        ("payments_api_pid=" ++ texts.str api_pid ++ " ledger_worker_pid=" ++ texts.str worker_pid)
        info

  -- The events up to the drained outbox.
  unfoldable pub loaded_timeline : List TimelineEvent → List ℕ → Stats → List TimelineEvent
  unfolding add_timeline_event non_2xx
  loaded_timeline timeline statuses stats =
      add_timeline_event times
        (add_timeline_event times
          (add_timeline_event times
            (add_timeline_event times timeline "api_healthy" ("base_url=" ++ args.base_url) info)
            "load_started" "sending payment requests" info)
          "load_completed"
          ("sent=" ++ texts.str (length statuses) ++ " non_2xx=" ++ texts.str (non_2xx statuses))
          info)
        "outbox_drained"
        ("pending="
          ++ texts.str stats.outbox_pending
          ++ " dead="
          ++ texts.str stats.outbox_dead
          ++ " completed="
          ++ texts.str stats.completed
          ++ " rejected="
          ++ texts.str stats.rejected)
        info

  abbrev pub run_timeline : String → ℕ → ℕ → List ℕ → Stats → ℕ → List TimelineEvent
  run_timeline run_label api_pid worker_pid statuses stats retries =
      add_timeline_event times
        (add_incidents
          (loaded_timeline (started_timeline run_label api_pid worker_pid) statuses stats) retries
          stats)
        "services_terminated" "payments-api and ledger-worker stopped" info

-- `run_single_experiment`, once the migration has run and both processes are started; `none` is the
-- exception that leaves it, after which no timeline is seen.
unfoldable pub run_single_experiment :
    {Float : Type 0} → (Float → ℕ) → Texts → Args → Met Float → String → Option (RunResult Float)
unfolding add_timeline_event started_timeline loaded_timeline add_incidents
run_single_experiment int_of texts args met run_label = elim met.health [
  | done _ ↦ elim met.load [
    | some (statuses, latencies_ms) ↦ elim met.drained [
      | done stats ↦ elim met.metrics [
        | some metrics ↦ some (record {
          statuses = statuses;
          latencies_ms = latencies_ms;
          stats = stats;
          metrics = metrics;
          elapsed_seconds = met.elapsed_seconds;
          timeline =
              run_timeline int_of texts args met.times run_label met.api_pid met.worker_pid statuses
                stats (int_of metrics.outbox_retry_total);
        })
        | none ↦ none
      ]
      | _ ↦ none
    ]
    | none ↦ none
  ]
  | _ ↦ none
]
