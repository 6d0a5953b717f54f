-- ===== src/Examples/Runs.antt =====
-- The theorems on runs of the system, at one payment and the poll that settles it.
use global_ledger_consistenc.Base.{◌≡◌, none}
use global_ledger_consistenc.Contracts.{hybrid}
use global_ledger_consistenc.Ledger.{ledger_imbalance}
use global_ledger_consistenc.System.Steps.{Reach}
use global_ledger_consistenc.System.Intake.{fresh}
use global_ledger_consistenc.System.Intake.Refines.{post_payment-Reach}
use global_ledger_consistenc.System.Work.Refines.Polls.{process_available_events-Reach}
use global_ledger_consistenc.System.Books.{opening, total_money}
use global_ledger_consistenc.System.Books.Runs.{opening-Reach, imbalance-Reach, total-Reach}
use global_ledger_consistenc.Base.{refl}
use global_ledger_consistenc.Table.{get}
use global_ledger_consistenc.Orm.{payment_keyed}
use global_ledger_consistenc.System.Postings.{IsPosted, IsPosted-Reach, entries_of, due}
use global_ledger_consistenc.System.Solvency.{IsSolvent, IsSolvent-Reach}
use global_ledger_consistenc.Examples.Library.{small, small-PayloadRoundTrip}
use global_ledger_consistenc.Examples.Data.{
  start, body, draws, calm, calm-OthersReach, api_metrics, worker_metrics, reserved_db, settled_db,
  no_failures, surroundings, run,
}
use global_ledger_consistenc.Base.{false, arith}

post_payment-Reach_example : Reach small start reserved_db
post_payment-Reach_example =
    post_payment-Reach small hybrid calm draws 0 5 body none (fresh start api_metrics)
      calm-OthersReach

process_available_events-Reach_example : Reach small reserved_db settled_db
process_available_events-Reach_example =
    process_available_events-Reach small hybrid no_failures calm 20 30_000_000 (λ id. false)
      surroundings 20 (fresh reserved_db worker_metrics) calm-OthersReach (λ id. calm-OthersReach)
      (λ id. calm-OthersReach)

opening-Reach_example : opening "acc-001" settled_db ≡ opening "acc-001" start
opening-Reach_example = opening-Reach "acc-001" run

imbalance-Reach_example : ledger_imbalance settled_db ≡ ledger_imbalance start
imbalance-Reach_example = imbalance-Reach run

total-Reach_example : total_money settled_db ≡ total_money start
total-Reach_example = total-Reach run

start-IsSolvent : IsSolvent small start
start-IsSolvent = record { accounts = omega arith; events = tt }

IsSolvent-Reach_example : IsSolvent small settled_db
IsSolvent-Reach_example = IsSolvent-Reach small small-PayloadRoundTrip start-IsSolvent run

start-IsPosted : IsPosted start
unfolding entries_of get
start-IsPosted id = refl

IsPosted-Reach_example :
    entries_of "pay-01" settled_db.ledger_entries ≡ due (get "pay-01" settled_db.payments)
IsPosted-Reach_example = IsPosted-Reach start-IsPosted run "pay-01"
