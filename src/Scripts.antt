-- ===== src/Scripts.antt =====
-- scripts/run_application_tests.py: the checks of one scenario's result.
pub mod Percentile
pub mod Waiting
pub mod Experiment
pub mod Report
use Prim.Native.String.{◌++◌}
use global_ledger_consistenc.Base.{ℕ, String, Bool, true, false, ◌&&◌, List, [], ◌∷◌, ◌==◌}
use global_ledger_consistenc.Int.{ℤ, pos, ◌+ℤ◌, ltb_ℤ, leb_ℤ}

-- Python's floats and what the texts are made with.
pub record Numbers (Float : Type 0) : Type 0 where
  -- `<=`
  pub le : Float → Float → Bool
  -- `x > 0.0`
  pub is_positive : Float → Bool
  -- `f"{x:.2f}"` and `f"{x:.0f}"`
  pub fixed_2 : Float → String
  pub fixed_0 : Float → String
  -- `str` of an integer
  pub str : ℤ → String

-- The summary of an experiment, as far as the checks read it.
pub record Summary (Float : Type 0) : Type 0 where
  pub requests : ℤ
  pub completed : ℤ
  pub rejected : ℤ
  pub outbox_pending : ℤ
  pub outbox_dead : ℤ
  pub ledger_imbalance : ℤ
  pub negative_balance_detected : ℤ
  pub http_non_2xx : ℤ
  pub outbox_retry_total : Float
  pub p95_latency_ms : Float
  pub p99_latency_ms : Float
  pub p999_latency_ms : Float

pub record Scenario : Type 0 where
  pub scenario_id : String
  pub category : String
  pub title : String
  pub mode : String
  pub profile : String
  pub scenario_type : String
  pub description : String
  pub min_requests : ℕ

pub record CheckResult : Type 0 where
  pub name : String
  pub passed : Bool
  pub expected : String
  pub actual : String

abbrev pub eq_ℤ : ℤ → ℤ → Bool
eq_ℤ a b = leb_ℤ a b && leb_ℤ b a

-- `if test: checks.append(check)`
abbrev pub append_if : Bool → CheckResult → List CheckResult → List CheckResult
append_if true check [] = check ∷ []
append_if false check [] = []
append_if test check (c ∷ checks) = c ∷ append_if test check checks

module _ {Float : Type 0} (n : Numbers Float) (r : Summary Float) where
  -- A check that one of the counts is zero.
  abbrev zero_check : String → String → ℤ → CheckResult
  zero_check name key count = record {
    name = name;
    passed = eq_ℤ count (pos 0);
    expected = key ++ " == 0";
    actual = key ++ " = " ++ n.str count;
  }

  -- The checks of every scenario.
  unfoldable pub common_checks : List CheckResult
  common_checks =
      zero_check "Ledger balanced" "ledger_imbalance" r.ledger_imbalance
      ∷ zero_check "No negative balances" "negative_balance_detected" r.negative_balance_detected
      ∷ zero_check "Outbox drained" "outbox_pending" r.outbox_pending
      ∷ zero_check "No dead outbox events" "outbox_dead" r.outbox_dead
      ∷ record {
        name = "Request accounting";
        passed = eq_ℤ (r.completed +ℤ r.rejected) r.requests;
        expected = "completed + rejected == requests";
        actual = n.str r.completed ++ " + " ++ n.str r.rejected ++ " vs " ++ n.str r.requests;
      }
      ∷ zero_check "API transport stability" "http_non_2xx" r.http_non_2xx
      ∷ record {
        name = "Latency percentiles monotonic";
        passed = n.le r.p95_latency_ms r.p99_latency_ms && n.le r.p99_latency_ms r.p999_latency_ms;
        expected = "p95 <= p99 <= p999";
        actual =
            "p95="
            ++ n.fixed_2 r.p95_latency_ms
            ++ ", p99="
            ++ n.fixed_2 r.p99_latency_ms
            ++ ", p999="
            ++ n.fixed_2 r.p999_latency_ms;
      }
      ∷ []

  -- `evaluate_scenario`
  unfoldable pub evaluate_scenario : Scenario → List CheckResult
  unfolding common_checks
  evaluate_scenario scenario =
      append_if (scenario.scenario_type == "insufficient_funds")
        (record {
          name = "Insufficient funds rejections observed";
          passed = ltb_ℤ (pos 0) r.rejected;
          expected = "rejected > 0";
          actual = "rejected = " ++ n.str r.rejected;
        })
        (append_if (scenario.profile == "harsh")
          (record {
            name = "Retry evidence under harsh profile";
            passed = n.is_positive r.outbox_retry_total;
            expected = "outbox_retry_total > 0";
            actual = "outbox_retry_total = " ++ n.fixed_0 r.outbox_retry_total;
          })
          (append_if (scenario.category == "Success scenarios")
            (record {
              name = "All requests completed";
              passed = eq_ℤ r.completed r.requests && eq_ℤ r.rejected (pos 0);
              expected = "completed == requests and rejected == 0";
              actual =
                  "completed="
                  ++ n.str r.completed
                  ++ ", rejected="
                  ++ n.str r.rejected
                  ++ ", requests="
                  ++ n.str r.requests;
            })
            common_checks))

-- `ScenarioExecution.passed`
abbrev pub all_passed : List CheckResult → Bool
all_passed [] = true
all_passed (c ∷ checks) = c.passed && all_passed checks
