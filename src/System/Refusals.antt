-- ===== src/System/Refusals.antt =====
-- What a call of `execute` in create_payment.py that ends in an error leaves behind.
use global_ledger_consistenc.Base.{
  String, Bool, false, ◌≡◌, refl, ap, sym, subst, Option, none, some, ◌==◌, inl, inr, Option-cases,
  Bool-cases, ◌⊎◌, ◌≢◌, if◌then◌else◌,
}
use global_ledger_consistenc.Table.{get}
use global_ledger_consistenc.Int.{ltb_ℤ}
use global_ledger_consistenc.Contracts.{
  ConsistencyMode, strong, hybrid, eventual, CreatePaymentRequest, PaymentResponse,
}
use global_ledger_consistenc.Orm.{Account, Db, account_keyed, key_keyed}
use global_ledger_consistenc.Orm.Flush.{flush}
use global_ledger_consistenc.Externals.{Externals}
use global_ledger_consistenc.Session.{Session, Result, ok, err, rollback, pure, count, ◌>>=◌, ◌>>◌}
use global_ledger_consistenc.Session.Transaction.{Conditions, begin, leave}
use global_ledger_consistenc.Payments.{
  Raised, Metrics, domain, integrity_error, sqlalchemy_error, validation_error, key_error,
}
use global_ledger_consistenc.Payments.UseCase.{Draws}
use global_ledger_consistenc.Payments.CreatePayment.{
  create, transaction_body, replay_or_create, replay_of, replay_or_race, handle, run_transaction,
  execute, validate_request, compute_request_hash, get_or_validate_idempotency, processed_one,
}
use global_ledger_consistenc.System.Intake.{
  fresh, create_strong_ok, create_hybrid_ok, create_eventual_ok, create_refused, create_uncovered,
}
use global_ledger_consistenc.System.Intake.Commits.{if_elim, lookup-fresh}

module _ (lib : Externals) (mode : ConsistencyMode) (c : Conditions) (d : Draws)
    (r : CreatePaymentRequest) (t : Option String) (db : Db) where
  -- An error leaves what was committed, by this call's start or by others during it.
  abbrev Leaves : {A : Type 0} → Result Raised A × Session Metrics → Type 0
  Leaves (ok done, s) = Unit {0}
  Leaves (err e, s) = (s.committed ≡ db) ⊎ (s.committed ≡ c.others db)

  module _ (hash : String) where
    abbrev ended :
        Result Raised (PaymentResponse × Bool) × Session Metrics
        → Result Raised (PaymentResponse × Bool) × Session Metrics
    ended out = leave integrity_error sqlalchemy_error c out

    abbrev Kept : Session Metrics → Type 0
    Kept s = (s.committed ≡ db) ⊎ (s.committed ≡ c.others db)

    leave-Leaves :
        (found : Result Raised (PaymentResponse × Bool)) (s : Session Metrics)
        → Kept s
        → Leaves (ended (found, s))
    unfolding leave rollback
    leave-Leaves (err e) s h = h
    leave-Leaves (ok done) s h = elim (Option-cases (flush s.pending s.db)) [
      | inl e ↦ rw (e, leave, ended) h
      | inr (db', e) ↦ rw (e, leave, ended) (if_elim Leaves c.commits tt h)
    ]

    locked-committed :
        (mode' : ConsistencyMode) (m : Metrics)
        → mode' ≢ eventual
        → ((a b : Account)
            → get r.source_account_id (c.others db).accounts ≡ some a
            → get r.destination_account_id (c.others db).accounts ≡ some b
            → ltb_ℤ a.available_balance_cents r.amount_cents ≡ false
            → (create lib mode' c d r hash t (fresh db m)).1.committed ≡ c.others db)
        → (create lib mode' c d r hash t (fresh db m)).1.committed ≡ c.others db
    locked-committed mode' m ne covered =
        elim (Option-cases (get r.source_account_id (c.others db).accounts)) [
          | inl ha ↦
              ap (λ out. out.1.committed) (create_refused lib c d r hash t db m mode' ne (inl ha))
          | inr (a, ha) ↦
              elim (Option-cases (get r.destination_account_id (c.others db).accounts)) [
                | inl hb ↦
                    ap (λ out. out.1.committed)
                      (create_refused lib c d r hash t db m mode' ne (inr hb))
                | inr (b, hb) ↦ elim (Bool-cases (ltb_ℤ a.available_balance_cents r.amount_cents)) [
                  | inl hc ↦
                      ap (λ out. out.1.committed)
                        (create_uncovered lib c d r hash t db m mode' a b ne ha hb hc)
                  | inr hc ↦ covered a b ha hb hc
                ]
              ]
        ]

    create-committed :
        (mode' : ConsistencyMode) (m : Metrics)
        → (create lib mode' c d r hash t (fresh db m)).1.committed ≡ c.others db
    create-committed strong m =
        locked-committed strong m (λ e. cc)
          λ a b ha hb hc.
            ap (λ out. out.1.committed) (create_strong_ok lib c d r hash t db m a b ha hb hc)
    create-committed hybrid m =
        locked-committed hybrid m (λ e. cc)
          λ a b ha hb hc.
            ap (λ out. out.1.committed) (create_hybrid_ok lib c d r hash t db m a b ha hb hc)
    create-committed eventual m =
        ap (λ out. out.1.committed) (create_eventual_ok lib c d r hash t db m)

    abbrev resumed :
        Result Raised (Option PaymentResponse) × Session Metrics
        → Result Raised (PaymentResponse × Bool) × Session Metrics
    resumed out = ((λ _. out) >>= replay_or_create lib mode c d r hash t) out.1

    resumed-Leaves :
        (found : Result Raised (Option PaymentResponse)) (m : Metrics)
        → Leaves (ended (resumed (found, fresh db m)))
    unfolding replay_or_create
    resumed-Leaves (err e) m = leave-Leaves (err e) (fresh db m) (inl refl)
    resumed-Leaves (ok (some replay)) m = leave-Leaves (ok (replay, false)) (fresh db m) (inl refl)
    resumed-Leaves (ok none) m =
        leave-Leaves (create lib mode c d r hash t (fresh db m)).0
          (create lib mode c d r hash t (fresh db m)).1 (inr (create-committed mode m))

    transaction-Leaves :
        (m : Metrics)
        → Leaves (
            begin integrity_error sqlalchemy_error c
              (transaction_body lib mode c d r hash t)
              (fresh db m))
    unfolding begin transaction_body get_or_validate_idempotency rollback
    transaction-Leaves m =
        let o = get r.idempotency_key db.idempotency_keys in
        let (m', e) = lookup-fresh lib hash db m o in
        if_elim Leaves c.reachable
          (subst (λ s. Leaves (ended (resumed ((replay_of lib hash o (fresh db m)).0, s)))) (sym e)
            (resumed-Leaves (replay_of lib hash o (fresh db m)).0 m'))
          (inl refl)

    abbrev raced :
        Result Raised (Option PaymentResponse) × Session Metrics
        → Result Raised (PaymentResponse × Bool) × Session Metrics
    raced out = ((λ _. out) >>= replay_or_race lib mode c d) out.1

    raced-Leaves :
        (found : Result Raised (Option PaymentResponse)) (s : Session Metrics)
        → Kept s
        → Leaves (raced (found, s))
    unfolding replay_or_race
    raced-Leaves (err e) s h = h
    raced-Leaves (ok none) s h = h
    raced-Leaves (ok (some replay)) s h = tt

    handle-Leaves :
        (out : Result Raised (PaymentResponse × Bool) × Session Metrics)
        → Leaves out
        → Leaves (handle lib mode c d r hash out)
    unfolding handle get_or_validate_idempotency rollback
    handle-Leaves (ok done, s) h = tt
    handle-Leaves (err (domain e), s) h = h
    handle-Leaves (err integrity_error, s) h =
        let o = get r.idempotency_key s.committed.idempotency_keys in
        let (m', e) = lookup-fresh lib hash s.committed s.metrics o in
        subst (λ s'. Leaves (raced ((replay_of lib hash o (rollback s)).0, s'))) (sym e)
          (raced-Leaves (replay_of lib hash o (rollback s)).0 (fresh s.committed m') h)
    handle-Leaves (err sqlalchemy_error, s) h = h
    handle-Leaves (err validation_error, s) h = h
    handle-Leaves (err key_error, s) h = h

  abbrev counted :
      Result Raised (PaymentResponse × Bool) × Session Metrics
      → Result Raised PaymentResponse × Session Metrics
  counted out =
      ((λ _. out) >>= λ done. count (if done.1 then processed_one else (λ m. m)) >> pure done.0)
        out.1

  counted-Leaves :
      (out : Result Raised (PaymentResponse × Bool) × Session Metrics)
      → Leaves out
      → Leaves (counted out)
  counted-Leaves (ok done, s) h = tt
  counted-Leaves (err e, s) h = h

module _ (lib : Externals) (mode : ConsistencyMode) (c : Conditions) (d : Draws)
    (r : CreatePaymentRequest) (t : Option String) where
  execute-Leaves :
      (s : Session Metrics) → Leaves lib mode c d r t s.committed (execute lib mode c d r t s)
  unfolding execute rollback validate_request run_transaction
  execute-Leaves s =
      let hash = compute_request_hash lib r in
      elim (Bool-cases (r.source_account_id == r.destination_account_id)) [
        | inl e ↦ rw e (inl refl)
        | inr e ↦ rw e (
            counted-Leaves lib mode c d r t s.committed (run_transaction lib mode c d r hash t _) (
              handle-Leaves lib mode c d r t s.committed hash _
                (transaction-Leaves lib mode c d r t s.committed hash s.metrics)))
      ]

  -- A call that ends in an error, whichever it is, commits nothing of its own: what is committed is what
  -- was there when it began, or that with what others committed during the call.
  pub execute-refused :
      (s s' : Session Metrics) (e : Raised)
      → execute lib mode c d r t s ≡ (err e, s')
      → (s'.committed ≡ s.committed) ⊎ (s'.committed ≡ c.others s.committed)
  execute-refused s s' e h = subst (Leaves lib mode c d r t s.committed) h (execute-Leaves s)
