-- ===== src/Examples/Calls.antt =====
-- The theorems on single calls of payments-api, at concrete requests.
use global_ledger_consistenc.Base.{◌≡◌, refl, true, false, none, some, [], ◌∷◌}
use global_ledger_consistenc.Table.{get, has}
use global_ledger_consistenc.Int.{pos}
use global_ledger_consistenc.Contracts.{
  CreatePaymentRequest, PaymentResponse, hybrid, strong, eventual, reserved,
}
use global_ledger_consistenc.Orm.{Db, IdempotencyKey, key_keyed}
use global_ledger_consistenc.Orm.Flush.{flush, has_idempotency_key}
use global_ledger_consistenc.Session.Accounts.{lock_pair}
use global_ledger_consistenc.Ledger.{ledger_imbalance, has_negative_balances}
use global_ledger_consistenc.Session.{Session, ok, err}
use global_ledger_consistenc.Payments
use global_ledger_consistenc.Payments.{domain}
use global_ledger_consistenc.Payments.CreatePayment.{execute, replayed, key_conflict}
use global_ledger_consistenc.Payments.Migrate.{migrate_data, create_schema}
use global_ledger_consistenc.System.Steps.{here}
use global_ledger_consistenc.System.Books.{total_money}
use global_ledger_consistenc.System.Intake.{fresh}
use global_ledger_consistenc.System.Replay.Repeats.Later.{execute-replays, execute_other_hash}
use global_ledger_consistenc.System.Replay.Conflicts.{execute-conflict}
use global_ledger_consistenc.Base.{ℕ, leb, ltb, take, All, sym, ap, arith}
use global_ledger_consistenc.Ledger.{stats}
use global_ledger_consistenc.Scripts.{Numbers, Summary, Scenario, evaluate_scenario}
use global_ledger_consistenc.System.Verdicts.{Shows, evaluate_scenario-Reach}
use global_ledger_consistenc.Base.{◌⊎◌}
use global_ledger_consistenc.System.Refusals.{execute-refused}
use global_ledger_consistenc.System.Start.{migrate-Reach}
use global_ledger_consistenc.Examples.Library.{
  small, small-ResponseRoundTrip, small-PayloadRoundTrip, no_hash, small-IsSeparating,
}
use global_ledger_consistenc.Examples.Data.{start, body, draws, calm, api_metrics}

abbrev answered : Session Payments.Metrics
answered = (execute small hybrid calm draws body none (fresh start api_metrics)).1

abbrev response : PaymentResponse
response = record { payment_id = "pay-01"; status = reserved }

first_call :
    execute small hybrid calm draws body none (fresh start api_metrics) ≡ (ok response, answered)
unfolding execute get lock_pair flush has has_idempotency_key
first_call = refl

execute-replays_example :
    execute small strong calm draws body none answered
    ≡ (ok response, fresh answered.committed (replayed answered.metrics))
execute-replays_example =
    execute-replays small small-ResponseRoundTrip body hybrid strong calm calm draws draws none none
      (fresh start api_metrics) answered answered response refl first_call here refl refl

abbrev other_body : CreatePaymentRequest
other_body = record body { amount_cents = pos 301 }

abbrev taken : IdempotencyKey
taken = record {
  key = "key-00001";
  request_hash = "another";
  response_payload_json = "x";
  created_at = 12;
}

abbrev taken_db : Db
taken_db = record start { idempotency_keys = taken ∷ [] }

taken_found : get "key-00001" taken_db.idempotency_keys ≡ some taken
unfolding get
taken_found = refl

texts_differ : (body ≡ other_body) → ⊥
texts_differ h = ground (arith, h)

execute-conflict_example :
    execute small eventual calm draws other_body none answered
    ≡ (err (domain key_conflict), fresh answered.committed answered.metrics)
execute-conflict_example =
    execute-conflict small small-ResponseRoundTrip body other_body hybrid eventual calm calm draws
      draws none none (fresh start api_metrics) answered answered response
      (small-IsSeparating body (pos 301)) refl texts_differ refl first_call here refl

conflicting_call :
    execute small eventual calm draws other_body none (fresh taken_db api_metrics)
    ≡ (err (domain key_conflict), fresh taken_db api_metrics)
conflicting_call =
    execute_other_hash small eventual calm draws other_body none (fresh taken_db api_metrics) taken
      refl refl taken_found (no_hash other_body)

abbrev migrated : Db
migrated =
    (migrate_data true calm calm 5 (fresh (create_schema true start) api_metrics)).1.committed

migrate-Reach_example :
    (total_money migrated ≡ pos 4_000_000)
    × (ledger_imbalance migrated ≡ pos 0)
    × (has_negative_balances migrated ≡ false)
migrate-Reach_example =
    migrate-Reach small calm calm 5 api_metrics start migrated small-PayloadRoundTrip refl refl here

abbrev numbers : Numbers ℕ
numbers = record {
  le = leb;
  is_positive = λ x. ltb 0 x;
  fixed_2 = λ x. "x";
  fixed_0 = λ x. "x";
  str = λ n. "n";
}

abbrev summary : Summary ℕ
summary = record {
  requests = pos 100;
  completed = pos 100;
  rejected = pos 0;
  outbox_pending = pos 0;
  outbox_dead = pos 0;
  ledger_imbalance = pos 0;
  negative_balance_detected = pos 0;
  http_non_2xx = pos 0;
  outbox_retry_total = 3;
  p95_latency_ms = 10;
  p99_latency_ms = 20;
  p999_latency_ms = 30;
}

abbrev scenario : Scenario
scenario = record {
  scenario_id = "failure-hybrid-harsh";
  category = "Success scenarios";
  title = "Hybrid mode";
  mode = "hybrid";
  profile = "harsh";
  scenario_type = "happy_path";
  description = "";
  min_requests = 120;
}

-- What the migrated database's statistics say of the books.
balanced_stats :
    (db : Db)
    → ledger_imbalance db ≡ pos 0
    → has_negative_balances db ≡ false
    → ((stats db).ledger_imbalance ≡ pos 0) × ((stats db).negative_balance_detected ≡ 0)
unfolding stats
balanced_stats db e e' = (e, ground (arith, e'))

summary-Shows : Shows summary migrated
summary-Shows =
    let (total, e, e') =
      migrate-Reach small calm calm 5 api_metrics start migrated small-PayloadRoundTrip refl refl
        here in
    let (balance, negatives) = balanced_stats migrated e e' in
    record { imbalance = sym balance; negative = sym (ap pos negatives) }

evaluate_scenario-Reach_example :
    All (λ check. check.passed ≡ true) (take 2 (evaluate_scenario numbers summary scenario))
evaluate_scenario-Reach_example =
    evaluate_scenario-Reach numbers summary scenario small calm calm 5 api_metrics start migrated
      small-PayloadRoundTrip refl refl here summary-Shows

execute-refused_example : (taken_db ≡ taken_db) ⊎ (taken_db ≡ calm.others taken_db)
execute-refused_example =
    execute-refused small eventual calm draws other_body none (fresh taken_db api_metrics)
      (fresh taken_db api_metrics) (domain key_conflict) conflicting_call
