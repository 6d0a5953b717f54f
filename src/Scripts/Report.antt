-- ===== src/Scripts/Report.antt =====
-- scripts/run_application_tests.py: its scenarios, the command of each, and the timeline and checklist
-- of its report.
pub mod Timeline
pub mod Checklist
use Prim.Native.Nat.{max}
use text.Mathlib.Text.{starts_with}
use global_ledger_consistenc.Base.{
  ℕ, String, Bool, true, false, ◌&&◌, ◌||◌, not, ◌==◌, Option, none, some, List, [], ◌∷◌,
  if◌then◌else◌, ◌++◌,
}
use global_ledger_consistenc.Contracts.{
  IncidentSeverity, info, p1, p2, severity_value, severity_of_value,
}
use global_ledger_consistenc.Externals.{Json, Items, Fields, get_field}
use global_ledger_consistenc.Session.Accounts.{str_lt}
use global_ledger_consistenc.Sorting.{sorted}
use global_ledger_consistenc.Scripts.{Numbers, Summary, Scenario, CheckResult}
use global_ledger_consistenc.Scripts.Experiment.Totals.{concat_map}

-- `scenario_matrix`
unfoldable pub scenario_matrix : List Scenario
scenario_matrix =
    record {
      scenario_id = "success-strong";
      category = "Success scenarios";
      title = "Strong mode under load";
      mode = "strong";
      profile = "none";
      scenario_type = "normal";
      description =
          "Fully synchronous processing should complete all requests without invariant drift.";
      min_requests = 1;
    }
    ∷ record {
      scenario_id = "success-hybrid";
      category = "Success scenarios";
      title = "Hybrid mode under load";
      mode = "hybrid";
      profile = "none";
      scenario_type = "normal";
      description =
          "Reservation + async finalization should complete all requests with drained outbox.";
      min_requests = 1;
    }
    ∷ record {
      scenario_id = "success-eventual";
      category = "Success scenarios";
      title = "Eventual mode under load";
      mode = "eventual";
      profile = "none";
      scenario_type = "normal";
      description =
          "Fully async processing should converge with no imbalance and no pending outbox events.";
      min_requests = 1;
    }
    ∷ record {
      scenario_id = "failure-hybrid-harsh";
      category = "Failure scenarios";
      title = "Hybrid mode with harsh failure profile";
      mode = "hybrid";
      profile = "harsh";
      scenario_type = "normal";
      description =
          "Deterministic injected faults should trigger retries while preserving invariants.";
      min_requests = 120;
    }
    ∷ record {
      scenario_id = "failure-eventual-harsh";
      category = "Failure scenarios";
      title = "Eventual mode with harsh failure profile";
      mode = "eventual";
      profile = "harsh";
      scenario_type = "normal";
      description =
          "Deterministic injected faults should trigger retries and still converge safely.";
      min_requests = 120;
    }
    ∷ record {
      scenario_id = "negative-eventual-funds";
      category = "Failure scenarios";
      title = "Eventual mode insufficient funds";
      mode = "eventual";
      profile = "none";
      scenario_type = "insufficient_funds";
      description = "Business negative path must produce rejections without invariant violations.";
      min_requests = 1;
    }
    ∷ []

-- The command of `run_experiment`, with `str` of a number.
unfoldable pub experiment_command : (ℕ → String) → Scenario → ℕ → ℕ → ℕ → ℕ → List String
experiment_command str scenario requests concurrency runs warmup_runs =
    "poetry"
    ∷ "run"
    ∷ "python"
    ∷ "../../scripts/run_experiment.py"
    ∷ "--mode"
    ∷ scenario.mode
    ∷ "--requests"
    ∷ str (max requests scenario.min_requests)
    ∷ "--concurrency"
    ∷ str concurrency
    ∷ "--profile"
    ∷ scenario.profile
    ∷ "--scenario"
    ∷ scenario.scenario_type
    ∷ "--runs"
    ∷ str runs
    ∷ "--warmup-runs"
    ∷ str warmup_runs
    ∷ "--json"
    ∷ []

-- `part in s`
abbrev pub contains : String → String → Bool
contains part String.[] = part == ""
contains part (String.◌∷◌ c s) = starts_with (String.◌∷◌ c s) part || contains part s

-- `event_name.startswith("incident_")`
abbrev pub is_incident : String → Bool
is_incident event_name = starts_with event_name "incident_"

-- The severity that the name of an event tells.
unfoldable pub severity_of_name : String → IncidentSeverity
severity_of_name event_name =
    if is_incident event_name
    then if contains "p1_" event_name || contains "invariant_" event_name then p1 else p2
    else info

-- `infer_severity`, with `.strip().lower()` as a parameter.
unfoldable pub infer_severity : (String → String) → String → Option Json → IncidentSeverity
unfolding severity_of_name severity_of_value
infer_severity normal event_name (some (Json.str raw)) = elim (severity_of_value (normal raw)) [
  | some severity ↦ severity
  | none ↦ severity_of_name event_name
]
infer_severity normal event_name _ = severity_of_name event_name

-- One scenario's result; `timeline` is the value under that key of the summary.
pub record ScenarioExecution (Float : Type 0) : Type 0 where
  pub scenario : Scenario
  pub summary : Summary Float
  pub throughput_rps : Float
  pub timeline : Option Json
  pub checks : List CheckResult

pub record CollectedEvent : Type 0 where
  pub timestamp : String
  pub scenario_id : String
  pub scenario_title : String
  pub event : String
  pub severity : String
  pub details : String

module _ (show : Json → String) (normal : String → String) where
  -- `str(item.get(key, default))`, where `str` of a text is the text.
  abbrev pub text_of : String → Option Json → String
  text_of default none = default
  text_of default (some (Json.str s)) = s
  text_of default (some value) = show value

  -- One item that is a dict.
  unfoldable pub collect_fields : Bool → Scenario → Fields → List CollectedEvent
  unfolding infer_severity severity_value get_field
  collect_fields incidents_only scenario fields =
      let event_name = text_of "unknown_event" (get_field "event" fields) in
      if incidents_only && not (is_incident event_name)
      then []
      else record {
        timestamp = text_of "" (get_field "timestamp" fields);
        scenario_id = scenario.scenario_id;
        scenario_title = scenario.title;
        event = event_name;
        severity = severity_value (infer_severity normal event_name (get_field "severity" fields));
        details = text_of "" (get_field "details" fields);
      }
        ∷ []

  -- The inner loop.
  unfoldable pub collect_items : Bool → Scenario → Items → List CollectedEvent
  unfolding collect_fields
  collect_items incidents_only scenario Items.nil = []
  collect_items incidents_only scenario (Items.cons (Json.object fields) rest) =
      collect_fields incidents_only scenario fields ++ collect_items incidents_only scenario rest
  collect_items incidents_only scenario (Items.cons _ rest) =
      collect_items incidents_only scenario rest

  -- One execution; a missing timeline is an empty list.
  unfoldable pub collect_execution :
      {Float : Type 0} → Bool → ScenarioExecution Float → List CollectedEvent
  unfolding collect_items
  collect_execution incidents_only execution = elim execution.timeline [
    | some (Json.array items) ↦ collect_items incidents_only execution.scenario items
    | _ ↦ []
  ]

  -- `collect_timeline_events`
  unfoldable pub collect_timeline_events :
      {Float : Type 0} → List (ScenarioExecution Float) → Bool → List CollectedEvent
  unfolding collect_execution sorted
  collect_timeline_events executions incidents_only =
      sorted (λ a b. str_lt a.timestamp b.timestamp)
        (concat_map (collect_execution incidents_only) executions)
