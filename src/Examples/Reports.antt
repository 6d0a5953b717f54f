-- ===== src/Examples/Reports.antt =====
-- The report's timeline, of one execution whose summary has two events and an item that is no dict.
use global_ledger_consistenc.Base.{String, true, some, [], ◌∷◌, All}
use global_ledger_consistenc.Int.{pos}
use global_ledger_consistenc.Externals.{Json, Items, Fields}
use global_ledger_consistenc.Sorting.{IsSorted}
use global_ledger_consistenc.Scripts.Report.{ScenarioExecution, collect_timeline_events}
use global_ledger_consistenc.Scripts.Report.Timeline.{
  earlier, IsWanted, collect_timeline_events-IsSorted,
}

abbrev item : String → String → Json
item timestamp event = Json.object (
    Fields.field "timestamp" (Json.str timestamp)
      (Fields.field "event" (Json.str event) (Fields.field "severity" (Json.str "p1") Fields.end)))

abbrev execution : ScenarioExecution String
execution = record {
  scenario = record {
    scenario_id = "failure-hybrid-harsh";
    category = "Failure scenarios";
    title = "Hybrid mode with harsh failure profile";
    mode = "hybrid";
    profile = "harsh";
    scenario_type = "normal";
    description = "";
    min_requests = 120;
  };
  summary = record {
    requests = pos 120;
    completed = pos 120;
    rejected = pos 0;
    outbox_pending = pos 0;
    outbox_dead = pos 0;
    ledger_imbalance = pos 0;
    negative_balance_detected = pos 0;
    http_non_2xx = pos 0;
    outbox_retry_total = "3";
    p95_latency_ms = "1";
    p99_latency_ms = "1";
    p999_latency_ms = "1";
  };
  throughput_rps = "1";
  timeline = some (
      Json.array (
        Items.cons (item "2026-01-01T00:00:09Z" "incident_dependency_instability") (
          Items.cons Json.null
            (Items.cons (item "2026-01-01T00:00:01Z" "run_started") Items.nil))));
  checks = [];
}

collect_timeline_events-IsSorted_example :
    IsSorted earlier (collect_timeline_events (λ j. "?") (λ s. s) (execution ∷ execution ∷ []) true)
    × All
        (IsWanted true)
        (collect_timeline_events (λ j. "?") (λ s. s) (execution ∷ execution ∷ []) true)
collect_timeline_events-IsSorted_example =
    collect_timeline_events-IsSorted (λ j. "?") (λ s. s) true (execution ∷ execution ∷ [])
