-- ===== src/Examples/Reserves.antt =====
-- The theorems on reserved funds, at the payment that `Examples.Data` reserves.
use global_ledger_consistenc.Base.{◌≡◌, refl, none, some, arith}
use global_ledger_consistenc.Int.{pos}
use global_ledger_consistenc.Table.{get, has}
use global_ledger_consistenc.Contracts.{accepts, hybrid, reserved, payment_reserved}
use global_ledger_consistenc.Orm.{OutboxEvent, account_keyed, event_keyed}
use global_ledger_consistenc.Orm.Flush.{flush, has_idempotency_key}
use global_ledger_consistenc.Session.{ok}
use global_ledger_consistenc.Session.Accounts.{lock_pair}
use global_ledger_consistenc.Payments.CreatePayment.{post_payment, compute_request_hash}
use global_ledger_consistenc.Payments.UseCase.{new_event, new_payment}
use global_ledger_consistenc.Worker.Payload.{EventPayload, parse_payload}
use global_ledger_consistenc.Worker.Payload.RoundTrip.{parse-add_outbox}
use global_ledger_consistenc.System.Effects.{stored_event}
use global_ledger_consistenc.System.Intake.{fresh}
use global_ledger_consistenc.System.Intake.Refines.{post_payment-Reach}
use global_ledger_consistenc.System.Reserves.{reserved_of, claims}
use global_ledger_consistenc.System.Reserves.Backing.{IsBooked}
use global_ledger_consistenc.System.Reserves.Backing.Runs.{IsBooked-Reach}
use global_ledger_consistenc.System.Reserves.Settles.{Settles, process-Settles}
use global_ledger_consistenc.Examples.Library.{small, small-PayloadRoundTrip}
use global_ledger_consistenc.Examples.Data.{
  start, body, draws, calm, calm-OthersReach, api_metrics, worker_metrics, reserved_db, settled_db,
  surroundings, run,
}

start-IsBooked : IsBooked small start
unfolding reserved_of claims get
start-IsBooked = record { speaks = tt; backed = λ id. ground arith; amounts = tt }

IsBooked-Reach_example : IsBooked small settled_db
IsBooked-Reach_example = IsBooked-Reach small small-PayloadRoundTrip start-IsBooked run

abbrev reserved_event : OutboxEvent
reserved_event =
    stored_event small draws body (compute_request_hash small body) none reserved payment_reserved

abbrev payload : EventPayload
payload = record {
  payment_id = "pay-01";
  source_account_id = "acc-001";
  destination_account_id = "acc-002";
  amount_cents = pos 300;
  traceparent = none;
}

event_loaded : get "evt-02" reserved_db.outbox_events ≡ some reserved_event
unfolding post_payment get lock_pair flush has has_idempotency_key accepts
event_loaded = refl

payload_parsed : parse_payload small reserved_event.payload_json ≡ ok payload
unfolding new_event new_payment
payload_parsed =
    parse-add_outbox small small-PayloadRoundTrip "pay-01" "acc-001" "acc-002" (pos 300) none refl
      refl refl

process-Settles_example :
    Settles small (surroundings "evt-02").draws reserved_event payload reserved_db worker_metrics
unfolding new_event
process-Settles_example =
    process-Settles small (surroundings "evt-02").draws reserved_event payload worker_metrics
      small-PayloadRoundTrip start-IsBooked
      (post_payment-Reach small hybrid calm draws 0 5 body none (fresh start api_metrics)
        calm-OthersReach)
      event_loaded refl payload_parsed
