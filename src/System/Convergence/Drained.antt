-- ===== src/System/Convergence/Drained.antt =====
-- `GET /internal/stats` of services/payments-api once the outbox is drained.
use global_ledger_consistenc.Base.{
  ◌+◌, String, Bool, true, false, ◌≡◌, refl, some, List, [], ◌∷◌, arith, ◌==◌, Bool-cases, inl, inr,
  All, length,
}
use global_ledger_consistenc.Table.{Keyed, get}
use global_ledger_consistenc.Contracts.{
  completed, rejected, OutboxStatus, pending, processing, processed, dead,
}
use global_ledger_consistenc.Orm.{Payment, Db, event_keyed, payment_keyed}
use global_ledger_consistenc.Externals.{Externals}
use global_ledger_consistenc.Worker.Payload.RoundTrip.{PayloadRoundTrip}
use global_ledger_consistenc.Worker.Handlers.{is_settled}
use global_ledger_consistenc.Ledger.{
  count_where, has_status, stats, count_by_status, pending_count, dead_count, is_open, is_dead,
}
use global_ledger_consistenc.System.Steps.{Reach}
use global_ledger_consistenc.System.Convergence.{is_processed, All-found}
use global_ledger_consistenc.System.Convergence.Runs.{IsRemembered, IsUndropped, IsRemembered-Reach}

module _ {A : Type 0} ⦃k : Keyed A⦄ where
  -- A row that a key finds is counted.
  none_counted :
      (test : A → Bool) (id : String) (a : A) (rows : List A)
      → get id rows ≡ some a
      → count_where test rows ≡ 0
      → test a ≡ false
  unfolding get
  none_counted test id a [] h zero = ground arith
  none_counted test id a (b ∷ rows) h zero = elim (Bool-cases (k.key_of b == id)) [
    | inl e ↦ ground (arith, h, e, zero)
    | inr e ↦ none_counted test id a rows (ground (arith, h, e)) (ground (arith, zero))
  ]

open_or_dead :
    (status : OutboxStatus)
    → is_open status ≡ false
    → is_dead status ≡ false
    → is_processed status ≡ true
open_or_dead pending h k = cc
open_or_dead processing h k = cc
open_or_dead processed h k = refl
open_or_dead dead h k = cc

settled_counts :
    (ps : List Payment)
    → All (λ p. is_settled p.status ≡ true) ps
    → count_where (λ p. has_status p.status completed) ps
        + count_where (λ p. has_status p.status rejected) ps
      ≡ length ps
settled_counts [] all = refl
settled_counts (p ∷ ps) all = ground (arith, p.status, all.0, settled_counts ps all.1)

-- No event is open and none is dead, so no payment waits for one.
none_waiting :
    (lib : Externals) (db : Db)
    → IsRemembered lib db
    → pending_count db ≡ 0
    → dead_count db ≡ 0
    → All (λ p. is_settled p.status ≡ true) db.payments
unfolding pending_count dead_count
none_waiting lib db h drained alive =
    All-found (λ p. is_settled p.status ≡ true) db.payments h.distinct
      (λ id p found. elim (Bool-cases (is_settled p.status)) [
        | inl settled ↦ settled
        | inr unsettled ↦
            let w = h.awaited id p found unsettled in
            absurd (
              ground (
                arith,
                w.waits,
                open_or_dead w.event.status
                    (none_counted (λ e. is_open e.status) w.event.id w.event db.outbox_events
                      w.stored drained)
                    (none_counted (λ e. is_dead e.status) w.event.id w.event db.outbox_events
                      w.stored alive),
              ))
      ])

-- Once the statistics show no open and no dead event, every payment is completed or rejected, and the
-- statistics count them all, after any run in which no worker in strong mode closes an event, if at
-- the start each unsettled payment has an outbox event that is not processed and provided that
-- `json.loads` gives back what `json.dumps` was given.
pub stats-drained :
    (lib : Externals) (law : PayloadRoundTrip lib) {start db : Db} (run : Reach lib start db)
    → IsUndropped run
    → IsRemembered lib start
    → (stats db).outbox_pending ≡ 0
    → (stats db).outbox_dead ≡ 0
    → All (λ p. is_settled p.status ≡ true) db.payments
      × ((stats db).completed + (stats db).rejected ≡ length db.payments)
unfolding stats count_by_status
stats-drained lib law {db = db} run undropped h drained alive =
    let all = none_waiting lib db (IsRemembered-Reach lib law run undropped h) drained alive in
    (all, settled_counts db.payments all)
