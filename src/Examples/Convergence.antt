-- ===== src/Examples/Convergence.antt =====
-- The theorems on forgotten payments, at one payment that is reserved and settled.
use global_ledger_consistenc.Base.{
  All, ap, arith, length, none, refl, suc, true, zero, ℕ, ◌+◌, ◌≡◌, ◌≢◌,
}
use global_ledger_consistenc.Int.{pos, int_laws}
use global_ledger_consistenc.Table.{get, has, modify}
use global_ledger_consistenc.Contracts.{
  accepts, hybrid, reserved, payment_reserved, mode_value, strong,
}
use global_ledger_consistenc.Orm.{
  Db, OutboxEvent, Payment, account_keyed, event_keyed, payment_keyed,
}
use global_ledger_consistenc.Orm.Flush.{has_idempotency_key}
use global_ledger_consistenc.Payments.CreatePayment.{compute_request_hash}
use global_ledger_consistenc.Payments.UseCase.{new_event, new_payment}
use global_ledger_consistenc.Worker.Payload.{EventPayload}
use global_ledger_consistenc.Worker.Payload.RoundTrip.{parse-add_outbox}
use global_ledger_consistenc.Worker.Handlers.{process, is_settled, debit_reserved}
use global_ledger_consistenc.Payments.Strategies.{reserve}
use global_ledger_consistenc.Ledger.{stats, pending_count, dead_count}
use global_ledger_consistenc.Worker.Outbox.{mark_processed}
use global_ledger_consistenc.System.Effects.{stored_event, pay_hybrid, settle}
use global_ledger_consistenc.System.Intake.{fresh}
use global_ledger_consistenc.System.Steps.{
  Reach, here, next, Step, IsProper, IsOpen, hybrid_paid, reserved_settled,
}
use global_ledger_consistenc.System.Convergence.Runs.{IsRemembered, IsRemembered-Reach}
use global_ledger_consistenc.System.Convergence.Drained.{stats-drained}
use global_ledger_consistenc.System.Convergence.Closes.{IsClosing, process-IsClosing}
use global_ledger_consistenc.Examples.Library.{small, small-PayloadRoundTrip}
use global_ledger_consistenc.Examples.Data.{
  start, body, draws, account, worker_metrics, surroundings,
}

start-IsRemembered : IsRemembered small start
unfolding get
start-IsRemembered = record { distinct = tt; awaited = λ id p h k. ground (arith, h) }

abbrev event : OutboxEvent
event =
    stored_event small draws body (compute_request_hash small body) none reserved payment_reserved

abbrev payment : Payment
payment = new_payment draws body (compute_request_hash small body) reserved

abbrev payload : EventPayload
payload = record {
  payment_id = "pay-01";
  source_account_id = "acc-001";
  destination_account_id = "acc-002";
  amount_cents = pos 300;
  traceparent = none;
}

body-IsProper : IsProper body
unfolding accepts
body-IsProper = record { accepted = refl; differ = refl }

abbrev accepted : Db
accepted = pay_hybrid small draws body (compute_request_hash small body) none start

accepted_step : Step small start accepted
unfolding get has has_idempotency_key new_payment new_event
accepted_step =
    hybrid_paid draws body (compute_request_hash small body) none (account "acc-001" 1000)
      (account "acc-002" 500) start body-IsProper refl refl (ground arith)
      (record { id = refl; payment_key = refl; key = refl }) refl

abbrev settled : Db
settled = settle (surroundings "evt-02").draws event payload payment debit_reserved accepted

event_opened : IsOpen small event payload payment accepted
unfolding get new_event new_payment modify
event_opened = record {
  loaded = refl;
  parsed =
      parse-add_outbox small small-PayloadRoundTrip "pay-01" "acc-001" "acc-002" (pos 300) none refl
        refl refl;
  found = refl;
  unsettled = refl;
}

settled_step : Step small accepted settled
unfolding get modify new_event
settled_step =
    reserved_settled (surroundings "evt-02").draws event payload payment
      (reserve (pos 300) (account "acc-001" 1000)) (account "acc-002" 500) accepted refl
      event_opened refl refl (omega int_laws)

abbrev run : Reach small start settled
run = next (next here accepted_step) settled_step

IsRemembered-Reach_example : IsRemembered small settled
unfolding accepted_step settled_step
IsRemembered-Reach_example =
    IsRemembered-Reach small small-PayloadRoundTrip run ((tt, tt), tt) start-IsRemembered

stats-drained_example :
    All (λ p. is_settled p.status ≡ true) settled.payments
    × ((stats settled).completed + (stats settled).rejected ≡ length settled.payments)
unfolding accepted_step settled_step stats modify mark_processed pending_count dead_count
stats-drained_example =
    stats-drained small small-PayloadRoundTrip run ((tt, tt), tt) start-IsRemembered refl refl

hybrid-weak : hybrid ≢ strong
unfolding mode_value
hybrid-weak h = ground (arith, ap mode_value h)

process-IsClosing_example :
    IsClosing "pay-01"
      (process (surroundings "evt-02").draws event payload hybrid (fresh accepted worker_metrics))
process-IsClosing_example =
    process-IsClosing (surroundings "evt-02").draws event payload accepted worker_metrics hybrid
      hybrid-weak

-- The first poll meets the accepted payment, every later one the settled payment.
abbrev met_db : ℕ → Db
met_db zero = accepted
met_db (suc k) = settled

abbrev met_run : (k : ℕ) → Reach small start (met_db k)
met_run zero = next here accepted_step
met_run (suc k) = run
