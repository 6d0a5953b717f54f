-- ===== src/Scripts/Experiment/Verdicts.antt =====
-- The summary of scripts/run_experiment.py under the checks of scripts/run_application_tests.py.
use native.Mathlib.Nat.{mul-suc}
use global_ledger_consistenc.Base.{
  ℕ, ◌+◌, ◌*◌, Bool, true, ◌≡◌, refl, ◌∙◌, some, List, [], ◌∷◌, ◌++◌, length, All, All-map, take,
  arith, ◌||◌, ltb, leb,
}
use global_ledger_consistenc.Int.{ℤ, pos, ◌+ℤ◌, sum_of, int_laws, parts_of_eq}
use global_ledger_consistenc.Ledger.{count_where}
use global_ledger_consistenc.Scripts.{Numbers, eq_ℤ, Scenario, evaluate_scenario}
use global_ledger_consistenc.Scripts.Percentile.{Floats, FloatLaws, percentile-defined}
use global_ledger_consistenc.Scripts.Experiment.{Args, RunResult, non_2xx}
use global_ledger_consistenc.Scripts.Experiment.Totals.{
  Rounding, Aggregate, total, concat_map, aggregate_results, summary_with, read_summary,
}

-- A run whose payments are all settled and whose books are in order.
pub record IsClean {Float : Type 0} (args : Args) (x : RunResult Float) : Type 0 where
  pub accounted : x.stats.completed + x.stats.rejected ≡ args.requests
  pub drained : x.stats.outbox_pending ≡ 0
  pub alive : x.stats.outbox_dead ≡ 0
  pub balanced : x.stats.ledger_imbalance ≡ pos 0
  pub solvent : x.stats.negative_balance_detected ≡ 0
  pub accepted : non_2xx x.statuses ≡ 0

count_where-append :
    {A : Type 0} (test : A → Bool) (xs ys : List A)
    → count_where test (xs ++ ys) ≡ count_where test xs + count_where test ys
count_where-append test [] ys = omega arith
count_where-append test (x ∷ xs) ys = ground (arith, count_where-append test xs ys)

non_2xx-append : (xs ys : List ℕ) → non_2xx (xs ++ ys) ≡ non_2xx xs + non_2xx ys
unfolding non_2xx
non_2xx-append xs ys = count_where-append (λ status. ltb status 200 || leb 300 status) xs ys

add_pos : (a b : ℕ) → pos a +ℤ pos b ≡ pos (a + b)
add_pos a b = unfold ◌+ℤ◌ in ground arith

eq_ℤ_refl : (n : ℕ) → eq_ℤ (pos n) (pos n) ≡ true
eq_ℤ_refl n = ground arith

module _ {A : Type 0} where
  total_zero : (f : A → ℕ) (xs : List A) → All (λ x. f x ≡ 0) xs → total f xs ≡ 0
  total_zero f [] all = refl
  total_zero f (x ∷ xs) all = omega (arith, all.0, total_zero f xs all.1)

  sum_zero : (f : A → ℤ) (xs : List A) → All (λ x. f x ≡ pos 0) xs → sum_of f xs ≡ pos 0
  sum_zero f [] all = refl
  sum_zero f (x ∷ xs) all = omega (int_laws, parts_of_eq all.0, parts_of_eq (sum_zero f xs all.1))

module _ {Float : Type 0} (args : Args) where
  requests_settled :
      (runs : List (RunResult Float))
      → All (IsClean args) runs
      → total (λ x. x.stats.completed) runs + total (λ x. x.stats.rejected) runs
        ≡ args.requests * length runs
  requests_settled [] all = omega arith
  requests_settled (x ∷ runs) all =
      omega
        (arith, all.0.accounted, requests_settled runs all.1, mul-suc args.requests (length runs))

  responses_good :
      (runs : List (RunResult Float))
      → All (IsClean args) runs
      → non_2xx (concat_map (λ x. x.statuses) runs) ≡ 0
  responses_good [] all = unfold non_2xx in refl
  responses_good (x ∷ runs) all =
      non_2xx-append x.statuses (concat_map (λ x. x.statuses) runs)
      ∙ omega (arith, all.0.accepted, responses_good runs all.1)

  -- What the checks read of the summary of clean runs.
  summary_passes :
      (fl : Floats Float) (r : Rounding Float) (n : Numbers Float) (scenario : Scenario)
      (runs : List (RunResult Float)) (p50 p95 p99 p999 : Float)
      → All (IsClean args) runs
      → All
          (λ check. check.passed ≡ true)
          (take 6 (
            evaluate_scenario n
              (read_summary (summary_with fl r args runs p50 p95 p99 p999))
              scenario))
  unfolding evaluate_scenario summary_with read_summary
  summary_passes fl r n scenario runs p50 p95 p99 p999 all =
      let books =
        sum_zero (λ (x : RunResult Float). x.stats.ledger_imbalance) runs
          (All-map runs (λ x c. c.balanced) all) in
      let solvent =
        total_zero (λ (x : RunResult Float). x.stats.negative_balance_detected) runs
          (All-map runs (λ x c. c.solvent) all) in
      let drained =
        total_zero (λ (x : RunResult Float). x.stats.outbox_pending) runs
          (All-map runs (λ x c. c.drained) all) in
      let alive =
        total_zero (λ (x : RunResult Float). x.stats.outbox_dead) runs
          (All-map runs (λ x c. c.alive) all) in
      let settled =
        add_pos (total (λ (x : RunResult Float). x.stats.completed) runs)
          (total (λ (x : RunResult Float). x.stats.rejected) runs) in
      (
        rw books refl,
        (
          rw solvent refl,
          (
            rw drained refl,
            (
              rw alive refl,
              (
                rw (settled, requests_settled runs all) (eq_ℤ_refl (args.requests * length runs)),
                (rw (responses_good runs all) refl, tt),
              ),
            ),
          ),
        ),
      )

  -- The summary of at least one run is computed, and passes the six checks on books, outbox, requests
  -- and transport in every scenario if in each run all requests were completed or rejected, no event
  -- was left open or dead, the books were in order and every response was a success, provided that
  -- the floats are no NaN and a proper share of a number does not exceed it.
  pub aggregate_results-passes :
      (fl : Floats Float) (law : FloatLaws fl) (r : Rounding Float) (n : Numbers Float)
      (scenario : Scenario) (run : RunResult Float) (runs : List (RunResult Float))
      → All (IsClean args) (run ∷ runs)
      → (a : Aggregate Float) × ((aggregate_results fl r args (run ∷ runs) ≡ some a)
          × All
              (λ check. check.passed ≡ true)
              (take 6 (evaluate_scenario n (read_summary a) scenario)))
  unfolding aggregate_results
  aggregate_results-passes fl law r n scenario run runs all =
      let latencies = concat_map (λ x. x.latencies_ms) (run ∷ runs) in
      let (p50, h50) = percentile-defined fl law latencies (fl.of_int 50) in
      let (p95, h95) = percentile-defined fl law latencies (fl.of_int 95) in
      let (p99, h99) = percentile-defined fl law latencies (fl.of_int 99) in
      let (p999, h999) = percentile-defined fl law latencies r.pct_999 in
      (
        summary_with fl r args (run ∷ runs) p50 p95 p99 p999,
        (
          rw (h50, h95, h99, h999) refl,
          summary_passes fl r n scenario (run ∷ runs) p50 p95 p99 p999 all,
        ),
      )
