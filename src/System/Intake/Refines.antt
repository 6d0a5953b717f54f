-- ===== src/System/Intake/Refines.antt =====
-- The endpoint's commits as runs of the system.
use global_ledger_consistenc.Base.{
  ℕ, ◌+◌, String, Bool, true, false, ◌≡◌, refl, inl, inr, Option, none, some, arith, ◌==◌,
  Bool-cases, subst, sym,
}
use global_ledger_consistenc.Session.{◌>>=◌}
use global_ledger_consistenc.Table.{get}
use global_ledger_consistenc.Contracts.{
  CreatePaymentRequest, PaymentResponse, ConsistencyMode, accepts,
}
use global_ledger_consistenc.Orm.{Db, account_keyed, key_keyed}
use global_ledger_consistenc.Externals.{Externals}
use global_ledger_consistenc.Session.{Session, Result, ok, err, rollback}
use global_ledger_consistenc.Session.Transaction.{Conditions, begin, leave}
use global_ledger_consistenc.Payments.{
  Raised, Metrics, domain, integrity_error, sqlalchemy_error, validation_error, key_error,
}
use global_ledger_consistenc.Payments.UseCase.{Draws}
use global_ledger_consistenc.Payments.CreatePayment.{
  transaction_body, replay_or_create, replay_of, get_or_validate_idempotency, handle,
  run_transaction, execute, validate_request, compute_request_hash, post_payment,
}
use global_ledger_consistenc.System.Steps.{Reach, here, IsProper, Reach-trans}
use global_ledger_consistenc.System.Intake.{fresh}
use global_ledger_consistenc.System.Intake.Commits.{
  OthersReach, flush-nil, leave-Reach, begin-Reach, leave_err, lookup-fresh,
}
use global_ledger_consistenc.System.Intake.Creates.{create-Lands}

module _ (lib : Externals) (mode : ConsistencyMode) (c : Conditions) (calm : OthersReach lib c)
    (d : Draws) (r : CreatePaymentRequest) (hash : String) (t : Option String)
    (proper : IsProper r) where
  -- What the body does after the lookup.
  abbrev resumed :
      Result Raised (Option PaymentResponse) × Session Metrics
      → Result Raised (PaymentResponse × Bool) × Session Metrics
  resumed out = ((λ _. out) >>= replay_or_create lib mode c d r hash t) out.1

  resumed-Reach :
      (db : Db) (found : Result Raised (Option PaymentResponse)) (m : Metrics)
      → Reach lib db
          (leave integrity_error sqlalchemy_error c (resumed (found, fresh db m))).1.committed
  unfolding replay_or_create
  resumed-Reach db (err e) m =
      subst (Reach lib db)
        (sym (leave_err (PaymentResponse × Bool) integrity_error sqlalchemy_error c e (fresh db m)))
        here
  resumed-Reach db (ok (some replay)) m =
      leave-Reach integrity_error sqlalchemy_error c (replay, false) (fresh db m) db here
        (λ db' e. subst (Reach lib db) (flush-nil db db' e) here)
  resumed-Reach db (ok none) m =
      Reach-trans (calm db) (create-Lands lib c d r hash t m proper mode db)

  transaction-Reach :
      (db : Db) (m : Metrics)
      → Reach lib db
          (begin integrity_error sqlalchemy_error c
            (transaction_body lib mode c d r hash t)
            (fresh db m)).1.committed
  unfolding transaction_body get_or_validate_idempotency
  transaction-Reach db m =
      let o = get r.idempotency_key db.idempotency_keys in
      let (m', e) = lookup-fresh lib hash db m o in
      begin-Reach integrity_error sqlalchemy_error c (transaction_body lib mode c d r hash t)
        (fresh db m) here
        (subst
          (λ s.
            Reach lib db
              (leave integrity_error sqlalchemy_error c
                (resumed ((replay_of lib hash o (fresh db m)).0, s))).1.committed)
          (sym e) (resumed-Reach db (replay_of lib hash o (fresh db m)).0 m'))

  handle-committed :
      (out : Result Raised (PaymentResponse × Bool) × Session Metrics)
      → (handle lib mode c d r hash out).1.committed ≡ out.1.committed
  unfolding handle replay_of
  handle-committed (ok done, s) = refl
  handle-committed (err (domain e), s) = refl
  handle-committed (err integrity_error, s) = ground arith
  handle-committed (err sqlalchemy_error, s) = refl
  handle-committed (err validation_error, s) = refl
  handle-committed (err key_error, s) = refl

  run-Reach :
      (db : Db) (m : Metrics)
      → Reach lib db (run_transaction lib mode c d r hash t (fresh db m)).1.committed
  unfolding run_transaction
  run-Reach db m =
      subst (Reach lib db)
        (sym (
          handle-committed (
            begin integrity_error sqlalchemy_error c (transaction_body lib mode c d r hash t)
              (fresh db m))))
        (transaction-Reach db m)

module _ (lib : Externals) (mode : ConsistencyMode) (c : Conditions) (calm : OthersReach lib c)
    (d : Draws) (r : CreatePaymentRequest) (t : Option String) (accepted : accepts r ≡ true) where
  execute-Reach :
      (s : Session Metrics) → Reach lib s.committed (execute lib mode c d r t s).1.committed
  unfolding execute rollback validate_request
  execute-Reach s = elim (Bool-cases (r.source_account_id == r.destination_account_id)) [
    | inl e ↦ subst (Reach lib s.committed) (ground (arith, e)) here
    | inr e ↦ subst (Reach lib s.committed) (ground (arith, e)) (
        run-Reach lib mode c calm d r (compute_request_hash lib r) t
          (record { accepted = accepted; differ = e }) s.committed s.metrics)
  ]

-- Whatever a call of the payments endpoint does to the database is a run of the system's steps, in
-- every mode and however the call ends, if what other processes commit during the call is such a run.
pub post_payment-Reach :
    (lib : Externals) (mode : ConsistencyMode) (c : Conditions) (d : Draws) (started ended : ℕ)
    (body : CreatePaymentRequest) (traceparent : Option String) (s : Session Metrics)
    → OthersReach lib c
    → Reach lib s.committed (post_payment lib mode c d started ended body traceparent s).1.committed
unfolding post_payment
post_payment-Reach lib mode c d started ended body t s calm = elim (Bool-cases (accepts body)) [
  | inl e ↦
      let m = s.metrics in
      subst (Reach lib s.committed) (ground (arith, e)) (
        execute-Reach lib mode c calm d body t e
          (record s { metrics = record m { payments_received = m.payments_received + 1 } }))
  | inr e ↦ subst (Reach lib s.committed) (ground (arith, e)) here
]
