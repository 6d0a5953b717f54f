-- ===== src/Scripts/Report/Checklist.antt =====
-- `mode_summary` and `build_checklist` of scripts/run_application_tests.py.
use Prim.Native.String.{◌++◌}
use global_ledger_consistenc.Base.{
  ℕ, String, Bool, true, false, ◌≡◌, refl, ◌&&◌, ◌||◌, ◌==◌, some, List, [], ◌∷◌, map,
  if◌then◌else◌, length, ltb, All, ap, subst, arith,
}
use global_ledger_consistenc.Contracts.{p1, p2, severity_value}
use global_ledger_consistenc.Session.Accounts.{str_lt}
use global_ledger_consistenc.Sorting.{sorted}
use global_ledger_consistenc.Scripts.{
  Numbers, Summary, Scenario, evaluate_scenario, common_checks, all_passed,
}
use global_ledger_consistenc.Scripts.Percentile.{get_elem?}
use global_ledger_consistenc.Scripts.Report.{ScenarioExecution, CollectedEvent}

-- Python's floats as the report uses them.
pub record ReportFloats (Float : Type 0) : Type 0 where
  pub le : Float → Float → Bool
  pub is_positive : Float → Bool
  pub of_int : ℕ → Float
  -- `sum(...) / n`
  pub sum : List Float → Float
  pub div : Float → ℕ → Float

module _ {Float : Type 0} (fl : ReportFloats Float) where
  abbrev plain_runs : String → List (ScenarioExecution Float) → List (ScenarioExecution Float)
  plain_runs mode [] = []
  plain_runs mode (x ∷ rest) =
      let others = plain_runs mode rest in
      if x.scenario.mode == mode
        && x.scenario.profile == "none"
        && x.scenario.scenario_type == "normal"
      then x ∷ others
      else others

  abbrev mean_over : (ScenarioExecution Float → Float) → List (ScenarioExecution Float) → Float
  mean_over f [] = fl.of_int 0
  mean_over f (x ∷ rest) = fl.div (fl.sum (map f (x ∷ rest))) (length (x ∷ rest))

  -- `mode_summary`: throughput, p99 and p999.
  unfoldable pub mode_summary : List (ScenarioExecution Float) → String → Float × Float × Float
  mode_summary executions mode =
      let selected = plain_runs mode executions in
      (
        mean_over (λ x. x.throughput_rps) selected,
        mean_over (λ x. x.summary.p99_latency_ms) selected,
        mean_over (λ x. x.summary.p999_latency_ms) selected,
      )

pub record ChecklistItem : Type 0 where
  pub name : String
  pub passed : Bool
  pub detail : String

module _ {A : Type 0} where
  abbrev pub any : (A → Bool) → List A → Bool
  any test [] = false
  any test (a ∷ rest) = test a || any test rest

  abbrev pub every : (A → Bool) → List A → Bool
  every test [] = true
  every test (a ∷ rest) = test a && every test rest

-- The values of a set of texts, each once.
abbrev pub distinct : List String → List String
distinct [] = []
distinct (s ∷ rest) =
    let others = distinct rest in if any (λ t. t == s) others then others else s ∷ others

-- `separator.join(texts)`
abbrev pub join : String → List String → String
join separator [] = ""
join separator (s ∷ []) = s
join separator (s ∷ t ∷ rest) = s ++ separator ++ join separator (t ∷ rest)

-- `text or "none"`
abbrev pub or_none : String → String
or_none text = if text == "" then "none" else text

-- The ids of the scenarios with a profile.
abbrev pub ids_under : {Float : Type 0} → String → List (ScenarioExecution Float) → List String
ids_under profile [] = []
ids_under profile (x ∷ rest) =
    if x.scenario.profile == profile
    then x.scenario.scenario_id ∷ ids_under profile rest
    else ids_under profile rest

-- `f"{b}"` of a truth value.
abbrev pub bool_text : Bool → String
bool_text true = "True"
bool_text false = "False"

module _ {Float : Type 0} (fl : ReportFloats Float) (str : ℕ → String) where
  -- `build_checklist`; `str` is that of a number.
  unfoldable pub build_checklist :
      List (ScenarioExecution Float) → List CollectedEvent → List ChecklistItem
  unfolding severity_value
  build_checklist executions incident_events =
      let harsh_ids = ids_under "harsh" executions in
      let has_harsh_incident =
        any (λ e. any (λ id. id == e.scenario_id) harsh_ids) incident_events in
      let severities = distinct (map (λ e. e.severity) incident_events) in
      let has_p1_and_p2 =
        any (λ s. s == severity_value p1) severities
        && any (λ s. s == severity_value p2) severities in
      record {
        name = "Failure sequence timeline";
        passed = ltb 0 (length incident_events);
        detail = str (length incident_events) ++ " incident events captured";
      }
      ∷ record {
        name = "P1/P2 incident simulation evidence";
        passed = has_harsh_incident && has_p1_and_p2;
        detail =
            "Harsh incidents="
            ++ bool_text has_harsh_incident
            ++ ", severities="
            ++ or_none (join "," (sorted str_lt severities));
      }
      ∷ record {
        name = "P95 vs P99 vs P999 metrics";
        passed = every (λ x. fl.le x.summary.p99_latency_ms x.summary.p999_latency_ms) executions;
        detail = "All scenarios contain monotonic p95/p99/p999";
      }
      ∷ record {
        name = "Estimated throughput calculation";
        passed = every (λ x. fl.is_positive x.throughput_rps) executions;
        detail = "All scenarios report throughput_rps";
      }
      ∷ record {
        name = "Multi-node concurrency diagram";
        passed = true;
        detail = "Diagram embedded in report";
      }
      ∷ record {
        name = "CAP comparison (applied)";
        passed = true;
        detail = "Mode-by-mode CAP tradeoff table embedded";
      }
      ∷ record {
        name = "Simplified contention model";
        passed = true;
        detail = "Formula and estimated lock pressure embedded";
      }
      ∷ []

-- The seventh of the common checks.
monotonic :
    {Float : Type 0} (n : Numbers Float) (r : Summary Float) (scenario : Scenario)
    → all_passed (evaluate_scenario n r scenario) ≡ true
    → n.le r.p99_latency_ms r.p999_latency_ms ≡ true
unfolding evaluate_scenario common_checks
monotonic n r scenario h = ground (arith, h)

every_monotonic :
    {Float : Type 0} (n : Numbers Float) (executions : List (ScenarioExecution Float))
    → All (λ x. all_passed (evaluate_scenario n x.summary x.scenario) ≡ true) executions
    → every (λ x. n.le x.summary.p99_latency_ms x.summary.p999_latency_ms) executions ≡ true
every_monotonic n [] all = refl
every_monotonic n (x ∷ executions) all =
    rw (monotonic n x.summary x.scenario all.0, every_monotonic n executions all.1) refl

-- If the checks of every execution pass, so does the checklist's item on the percentiles.
pub build_checklist-percentiles :
    {Float : Type 0} (fl : ReportFloats Float) (n : Numbers Float) (str : ℕ → String)
    (executions : List (ScenarioExecution Float)) (incident_events : List CollectedEvent)
    → n.le ≡ fl.le
    → All (λ x. all_passed (evaluate_scenario n x.summary x.scenario) ≡ true) executions
    → get_elem? (map (λ c. c.passed) (build_checklist fl str executions incident_events)) 2
      ≡ some true
unfolding build_checklist
build_checklist-percentiles fl n str executions incident_events same all = ap some (
    subst
      (λ le. every (λ x. le x.summary.p99_latency_ms x.summary.p999_latency_ms) executions ≡ true)
      same (every_monotonic n executions all))
