-- ===== src/System/Replay/Repeats.antt =====
-- The whole call of `execute` in create_payment.py, and the same call once more.
pub mod Later
use global_ledger_consistenc.Base.{
  String, Bool, true, false, not, ◌≡◌, refl, ap, sym, subst, Option, none, some, List, [], ◌∷◌,
  arith, ◌==◌, eq_refl, eq_iff, inl, inr, Option-cases, Bool-cases, ◌≢◌, if◌then◌else◌,
}
use global_ledger_consistenc.Table.{get, has}
use global_ledger_consistenc.Contracts.{ConsistencyMode, CreatePaymentRequest, PaymentResponse}
use global_ledger_consistenc.Orm.{IdempotencyKey, Db, key_keyed}
use global_ledger_consistenc.Orm.Flush.{flush}
use global_ledger_consistenc.Externals.{Externals, ResponseRoundTrip}
use global_ledger_consistenc.Session.{Session, Result, ok, err, rollback, pure, count, ◌>>=◌, ◌>>◌}
use global_ledger_consistenc.Session.Transaction.{Conditions, begin, leave}
use global_ledger_consistenc.Payments.{
  Raised, Metrics, domain, integrity_error, sqlalchemy_error, validation_error, key_error,
}
use global_ledger_consistenc.Payments.UseCase.{Draws}
use global_ledger_consistenc.Payments.CreatePayment.{
  transaction_body, replay_or_create, replay_of, replay_or_race, handle, run_transaction, execute,
  validate_request, compute_request_hash, get_or_validate_idempotency, replayed, processed_one,
}
use global_ledger_consistenc.System.Steps.{
  Reach, here, next, Step, IsNewPayment, strong_paid, hybrid_paid, eventual_paid, leased,
}
use global_ledger_consistenc.System.Intake.{fresh}
use global_ledger_consistenc.System.Intake.Commits.{if_elim, flush-nil, lookup-fresh}
use global_ledger_consistenc.System.Replay.{
  Answers, Recorded, Keeps, Found, replay_of-Found, leave-Keeps, create-Keeps, ended,
}

module _ (lib : Externals) (law : ResponseRoundTrip lib) (mode : ConsistencyMode) (c : Conditions)
    (d : Draws) (r : CreatePaymentRequest) (hash : String) (t : Option String) where
  abbrev resumed :
      Result Raised (Option PaymentResponse) × Session Metrics
      → Result Raised (PaymentResponse × Bool) × Session Metrics
  resumed out = ((λ _. out) >>= replay_or_create lib mode c d r hash t) out.1

  resumed-Keeps :
      (db : Db) (found : Result Raised (Option PaymentResponse)) (m : Metrics)
      → Found lib law r hash found db
      → Keeps lib law r hash (ended lib law r hash c (resumed (found, fresh db m)))
  unfolding replay_or_create leave
  resumed-Keeps db (err e) m h = tt
  resumed-Keeps db (ok (some replay)) m h =
      leave-Keeps lib law r hash c (replay, false) (fresh db m)
        (λ db' e. subst (Recorded lib r.idempotency_key hash replay) (flush-nil db db' e) h)
  resumed-Keeps db (ok none) m h = create-Keeps lib law r hash c d t m mode db

  transaction-Keeps :
      (db : Db) (m : Metrics)
      → Keeps lib law r hash (
          begin integrity_error sqlalchemy_error c
            (transaction_body lib mode c d r hash t)
            (fresh db m))
  unfolding begin transaction_body get_or_validate_idempotency
  transaction-Keeps db m =
      let o = get r.idempotency_key db.idempotency_keys in
      let (m', e) = lookup-fresh lib hash db m o in
      if_elim (Keeps lib law r hash) c.reachable
        (subst
          (λ s.
            Keeps lib law r hash
              (ended lib law r hash c (resumed ((replay_of lib hash o (fresh db m)).0, s))))
          (sym e)
          (resumed-Keeps db (replay_of lib hash o (fresh db m)).0 m'
            (replay_of-Found lib law r hash (fresh db m) o refl)))
        tt

  abbrev raced :
      Result Raised (Option PaymentResponse) × Session Metrics
      → Result Raised (PaymentResponse × Bool) × Session Metrics
  raced out = ((λ _. out) >>= replay_or_race lib mode c d) out.1

  raced-Keeps :
      (db : Db) (found : Result Raised (Option PaymentResponse)) (m : Metrics)
      → Found lib law r hash found db
      → Keeps lib law r hash (raced (found, fresh db m))
  unfolding replay_or_race
  raced-Keeps db (err e) m h = tt
  raced-Keeps db (ok none) m h = tt
  raced-Keeps db (ok (some replay)) m h = h

  handle-Keeps :
      (out : Result Raised (PaymentResponse × Bool) × Session Metrics)
      → Keeps lib law r hash out
      → Keeps lib law r hash (handle lib mode c d r hash out)
  unfolding handle get_or_validate_idempotency rollback
  handle-Keeps (ok done, s) h = h
  handle-Keeps (err (domain e), s) h = tt
  handle-Keeps (err integrity_error, s) h =
      let o = get r.idempotency_key s.committed.idempotency_keys in
      let (m', e) = lookup-fresh lib hash s.committed s.metrics o in
      subst (λ s'. Keeps lib law r hash (raced ((replay_of lib hash o (rollback s)).0, s'))) (sym e)
        (raced-Keeps s.committed (replay_of lib hash o (rollback s)).0 m'
          (replay_of-Found lib law r hash (fresh s.committed s.metrics) o refl))
  handle-Keeps (err sqlalchemy_error, s) h = tt
  handle-Keeps (err validation_error, s) h = tt
  handle-Keeps (err key_error, s) h = tt

  run-Keeps :
      (db : Db) (m : Metrics)
      → Keeps lib law r hash (run_transaction lib mode c d r hash t (fresh db m))
  unfolding run_transaction
  run-Keeps db m = handle-Keeps _ (transaction-Keeps db m)

-- What `execute` has answered is recorded.
abbrev pub KeepsReply :
    (lib : Externals)
    → CreatePaymentRequest
    → Result Raised PaymentResponse × Session Metrics
    → Type 0
KeepsReply lib r (ok response, s) =
    Recorded lib r.idempotency_key (compute_request_hash lib r) response s.committed
KeepsReply lib r (err e, s) = Unit {0}

module _ (lib : Externals) (law : ResponseRoundTrip lib) (mode : ConsistencyMode) (c : Conditions)
    (d : Draws) (r : CreatePaymentRequest) (t : Option String) where
  abbrev counted :
      Result Raised (PaymentResponse × Bool) × Session Metrics
      → Result Raised PaymentResponse × Session Metrics
  counted out =
      ((λ _. out) >>= λ done. count (if done.1 then processed_one else (λ m. m)) >> pure done.0)
        out.1

  counted-KeepsReply :
      (out : Result Raised (PaymentResponse × Bool) × Session Metrics)
      → Keeps lib law r (compute_request_hash lib r) out
      → KeepsReply lib r (counted out)
  counted-KeepsReply (ok done, s) h = h
  counted-KeepsReply (err e, s) h = tt

  -- Whoever is answered finds the answer committed under the request's key.
  pub execute-KeepsReply : (s : Session Metrics) → KeepsReply lib r (execute lib mode c d r t s)
  unfolding execute rollback validate_request
  execute-KeepsReply s = elim (Bool-cases (r.source_account_id == r.destination_account_id)) [
    | inl e ↦ rw e tt
    | inr e ↦ rw e (
        counted-KeepsReply (run_transaction lib mode c d r (compute_request_hash lib r) t _)
          (run-Keeps lib law mode c d r (compute_request_hash lib r) t s.committed s.metrics))
  ]

  -- A recorded request is answered from its row, in any mode, and nothing is written.
  pub execute_again :
      (s : Session Metrics) (response : PaymentResponse)
      → (r.source_account_id == r.destination_account_id) ≡ false
      → c.reachable ≡ true
      → c.commits ≡ true
      → Recorded lib r.idempotency_key (compute_request_hash lib r) response s.committed
      → execute lib mode c d r t s ≡ (ok response, fresh s.committed (replayed s.metrics))
  unfolding execute rollback validate_request run_transaction handle begin leave transaction_body
      replay_or_create get_or_validate_idempotency replay_of flush
  execute_again s response differ up goes h =
      ground (arith, h.found, h.answers.same_hash, h.answers.is_full, h.answers.reads)
