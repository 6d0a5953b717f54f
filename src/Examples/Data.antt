-- ===== src/Examples/Data.antt =====
-- A database with two accounts, a request between them, and calm surroundings.
use global_ledger_consistenc.Base.{ℕ, String, true, false, none, [], ◌∷◌}
use global_ledger_consistenc.Int.{pos}
use global_ledger_consistenc.Contracts.{CreatePaymentRequest, pix, hybrid}
use global_ledger_consistenc.Orm.{Account, Db}
use global_ledger_consistenc.Session.Transaction.{Conditions}
use global_ledger_consistenc.Payments
use global_ledger_consistenc.Payments.UseCase.{Draws}
use global_ledger_consistenc.Payments.CreatePayment.{post_payment}
use global_ledger_consistenc.Worker
use global_ledger_consistenc.Worker.{FailureInjectorPort}
use global_ledger_consistenc.Worker.Processor.{Surroundings, process_available_events}
use global_ledger_consistenc.System.Steps.{Reach, here, Reach-trans}
use global_ledger_consistenc.System.Intake.{fresh}
use global_ledger_consistenc.System.Intake.Commits.{OthersReach}
use global_ledger_consistenc.System.Intake.Refines.{post_payment-Reach}
use global_ledger_consistenc.System.Work.Refines.Polls.{process_available_events-Reach}
use global_ledger_consistenc.Examples.Library.{small}

abbrev pub account : String → ℕ → Account
account id cents = record {
  id = id;
  available_balance_cents = pos cents;
  reserved_balance_cents = pos 0;
  version = 0;
  created_at = 0;
}

abbrev pub start : Db
start = record {
  accounts = account "acc-001" 1000 ∷ account "acc-002" 500 ∷ [];
  payments = [];
  idempotency_keys = [];
  outbox_events = [];
  ledger_entries = [];
}

abbrev pub body : CreatePaymentRequest
body = record {
  idempotency_key = "key-00001";
  source_account_id = "acc-001";
  destination_account_id = "acc-002";
  amount_cents = pos 300;
  method = pix;
}

abbrev pub draws : Draws
draws = record {
  payment_hex = "01";
  event_hex = "02";
  payment_at = 10;
  event_at = 11;
  key_at = 12;
  entries = record { debit_hex = "03"; credit_hex = "04"; debit_at = 13; credit_at = 14 };
}

-- The database answers, nobody else commits, and the commit goes through.
abbrev pub calm : Conditions
calm = record { reachable = true; others = λ db. db; commits = true }

pub calm-OthersReach : OthersReach small calm
calm-OthersReach db = here

abbrev pub api_metrics : Payments.Metrics
api_metrics = record {
  payments_received = 0;
  payments_processed = 0;
  idempotency_replay = 0;
  request_latency = [];
}

abbrev pub worker_metrics : Worker.Metrics
worker_metrics = record {
  payments_processed = 0;
  ledger_imbalance = 0;
  outbox_retry = 0;
  negative_balance_detected = 0;
  invariant_violation = 0;
}

-- After one payment in hybrid mode.
abbrev pub reserved_db : Db
reserved_db =
    (post_payment small hybrid calm draws 0 5 body none (fresh start api_metrics)).1.committed

abbrev pub no_failures : FailureInjectorPort
no_failures = record {
  should_raise_worker_exception = λ id attempt. false;
  should_fail_redis_simulation = λ id attempt. false;
}

abbrev pub surroundings : String → Surroundings
surroundings id = record {
  during = calm;
  on_failure = calm;
  draws = record { debit_hex = "05"; credit_hex = "06"; debit_at = 20; credit_at = 21 };
  failed_at = 30;
}

-- After a poll of the worker that follows.
abbrev pub settled_db : Db
settled_db =
    (process_available_events small hybrid no_failures calm 20 30_000_000 (λ id. false) surroundings
      20 (fresh reserved_db worker_metrics)).1.committed

pub run : Reach small start settled_db
run =
    Reach-trans
      (post_payment-Reach small hybrid calm draws 0 5 body none (fresh start api_metrics)
        calm-OthersReach)
      (process_available_events-Reach small hybrid no_failures calm 20 30_000_000 (λ id. false)
        surroundings 20 (fresh reserved_db worker_metrics) calm-OthersReach (λ id. calm-OthersReach)
        (λ id. calm-OthersReach))
