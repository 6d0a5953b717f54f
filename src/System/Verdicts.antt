-- ===== src/System/Verdicts.antt =====
-- The checks of scripts/run_application_tests.py on what the system can reach.
use global_ledger_consistenc.Base.{ℕ, true, ◌≡◌, take, All, arith}
use global_ledger_consistenc.Int.{pos}
use global_ledger_consistenc.Orm.{Db}
use global_ledger_consistenc.Externals.{Externals}
use global_ledger_consistenc.Ledger.{stats}
use global_ledger_consistenc.Session.Transaction.{Conditions}
use global_ledger_consistenc.Payments.{Metrics}
use global_ledger_consistenc.Payments.Migrate.{migrate_data, create_schema}
use global_ledger_consistenc.Worker.Payload.RoundTrip.{PayloadRoundTrip}
use global_ledger_consistenc.System.Steps.{Reach}
use global_ledger_consistenc.System.Intake.{fresh}
use global_ledger_consistenc.System.Start.{migrate-Reach}
use global_ledger_consistenc.Scripts.{Numbers, Summary, Scenario, evaluate_scenario}

-- The summary shows what `GET /internal/stats` tells of the books.
pub record Shows {Float : Type 0} (r : Summary Float) (db : Db) : Type 0 where
  pub imbalance : r.ledger_imbalance ≡ (stats db).ledger_imbalance
  pub negative : r.negative_balance_detected ≡ pos (stats db).negative_balance_detected

-- In whatever state an experiment that started with a migration to a new schema ends, the first two
-- checks of every scenario, on the ledger's balance and on negative balances, pass, provided that the
-- summary shows the statistics of that state and `json.loads` gives back what `json.dumps` was given.
pub evaluate_scenario-Reach :
    {Float : Type 0} (n : Numbers Float) (r : Summary Float) (scenario : Scenario) (lib : Externals)
    (c c' : Conditions) (at : ℕ) (m : Metrics) (old db : Db)
    → PayloadRoundTrip lib
    → c'.reachable ≡ true
    → c'.commits ≡ true
    → Reach lib (migrate_data true c c' at (fresh (create_schema true old) m)).1.committed db
    → Shows r db
    → All (λ check. check.passed ≡ true) (take 2 (evaluate_scenario n r scenario))
unfolding evaluate_scenario stats
evaluate_scenario-Reach n r scenario lib c c' at m old db law up goes run shows =
    let (total, imbalance, negatives) = migrate-Reach lib c c' at m old db law up goes run in
    (ground (arith, shows.imbalance, imbalance), (ground (arith, shows.negative, negatives), tt))
