-- ===== src/Examples/Polls.antt =====
-- The theorems on the order, the keeping and the end of events that a worker polls, at two of them.
use global_ledger_consistenc.Base.{
  ◌==◌, ℕ, String, ◌≡◌, refl, false, none, some, [], ◌∷◌, List, arith, In, All, inl, ◌⊎◌,
}
use global_ledger_consistenc.Table.{get, modify}
use global_ledger_consistenc.Contracts.{hybrid, pending, payment_reserved}
use global_ledger_consistenc.Orm.{OutboxEvent, Db, event_keyed}
use global_ledger_consistenc.Worker.Outbox.{batch_rows, fetch_batch_for_processing}
use global_ledger_consistenc.Worker.Outbox.Holds.{retried, after_deeds, fetch_batch-excludes}
use global_ledger_consistenc.Worker.Outbox.Order.{IsOldestFirst, Precedes, batch_rows-oldest}
use global_ledger_consistenc.Worker.Processor.{Surroundings}
use global_ledger_consistenc.System.Intake.{fresh}
use global_ledger_consistenc.System.Progress.Attempts.{IsUndisturbed}
use global_ledger_consistenc.System.Progress.Ends.{
  IsCalm, is_open_at, process_until_closed, process_until_closed-ends,
}
use global_ledger_consistenc.Examples.Library.{small, small-IsCollation}
use global_ledger_consistenc.Examples.Data.{start, calm, surroundings, no_failures, worker_metrics}

abbrev waiting : String → ℕ → OutboxEvent
waiting id created_at = record {
  id = id;
  aggregate_type = "payment";
  aggregate_id = "pay-1";
  event_type = payment_reserved;
  payload_json = "";
  status = pending;
  attempts = 0;
  next_retry_at = none;
  created_at = created_at;
}

abbrev two_waiting : Db
two_waiting = record start { outbox_events = waiting "evt-2" 8 ∷ waiting "evt-1" 5 ∷ [] }

batch_rows-oldest_example :
    IsOldestFirst small (batch_rows small 20 (λ id. false) 1 two_waiting)
    × (In (waiting "evt-2" 8) (batch_rows small 20 (λ id. false) 1 two_waiting)
        ⊎ All
            (λ b. Precedes small b (waiting "evt-2" 8))
            (batch_rows small 20 (λ id. false) 1 two_waiting))
batch_rows-oldest_example =
    batch_rows-oldest small small-IsCollation 20 (λ id. false) 1 two_waiting (waiting "evt-2" 8)
      (inl refl) (inl refl, inl refl, refl)

calm-IsUndisturbed : IsUndisturbed calm
calm-IsUndisturbed = record { reachable = refl; commits = refl; others = λ db. refl }

around_evt_1-IsCalm : IsCalm (surroundings "evt-1")
around_evt_1-IsCalm = record { during = calm-IsUndisturbed; on_failure = calm-IsUndisturbed }

abbrev seven : List Surroundings
seven = let e = surroundings "evt-1" in e ∷ e ∷ e ∷ e ∷ e ∷ e ∷ e ∷ []

waiting_found : get "evt-1" two_waiting.outbox_events ≡ some (waiting "evt-1" 5)
unfolding get
waiting_found = refl

process_until_closed-ends_example :
    is_open_at "evt-1"
      (process_until_closed small hybrid no_failures "evt-1" seven
        (fresh two_waiting worker_metrics)).committed
    ≡ false
process_until_closed-ends_example =
    process_until_closed-ends small hybrid no_failures "evt-1" seven
      (fresh two_waiting worker_metrics) (waiting "evt-1" 5)
      (
        around_evt_1-IsCalm,
        (
          around_evt_1-IsCalm,
          (
            around_evt_1-IsCalm,
            (
              around_evt_1-IsCalm,
              (around_evt_1-IsCalm, (around_evt_1-IsCalm, (around_evt_1-IsCalm, tt))),
            ),
          ),
        ),
      )
      waiting_found (omega arith) (omega arith)

-- The first of the two events is taken, and the second fails and is retried; then all are polled again.
abbrev retried_db : Db
retried_db =
    after_deeds small 30_000_000 (retried "evt-2" 25 ∷ [])
      (fetch_batch_for_processing small 20 (λ id. false) 1 30_000_000 two_waiting)

abbrev retried_event : OutboxEvent
retried_event = record (waiting "evt-2" 8) { attempts = 1; next_retry_at = some 25 }

first_taken : In (waiting "evt-1" 5) (batch_rows small 20 (λ id. false) 1 two_waiting)
unfolding batch_rows
first_taken = inl refl

second_taken : In retried_event (batch_rows small 30 (λ id. false) 20 retried_db)
unfolding batch_rows after_deeds modify
second_taken = inl refl

second_found : get "evt-2" retried_db.outbox_events ≡ some retried_event
unfolding after_deeds modify get
second_found = refl

fetch_batch-excludes_example : ("evt-2" == "evt-1") ≡ false
fetch_batch-excludes_example =
    fetch_batch-excludes small 20 30_000_000 1 (λ id. false) two_waiting (retried "evt-2" 25 ∷ [])
      30 20 (λ id. false) retried_db (waiting "evt-1" 5) retried_event first_taken (refl, tt) refl
      (omega arith) second_taken second_found
