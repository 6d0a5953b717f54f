-- ===== src/System/Replay.antt =====
-- The idempotency of create_payment.py: what an answered request leaves under its key.
pub mod Repeats
pub mod Conflicts
use global_ledger_consistenc.Base.{
  String, Bool, true, false, not, ◌≡◌, refl, ap, sym, subst, Option, none, some, List, [], ◌∷◌,
  arith, ◌==◌, eq_refl, inl, inr, Option-cases, Bool-cases, ◌≢◌, if◌then◌else◌,
}
use global_ledger_consistenc.Int.{ltb_ℤ}
use global_ledger_consistenc.Table.{get, has}
use global_ledger_consistenc.Contracts.{
  ConsistencyMode, strong, hybrid, eventual, CreatePaymentRequest, PaymentResponse, PaymentStatus,
  completed, reserved, received, payment_reserved, payment_requested,
}
use global_ledger_consistenc.Orm.{Account, IdempotencyKey, Db, account_keyed, key_keyed}
use global_ledger_consistenc.Orm.Flush.{flush}
use global_ledger_consistenc.Externals.{Externals, ResponseRoundTrip}
use global_ledger_consistenc.Session.{Session, Result, ok, err, rollback, ◌>>=◌}
use global_ledger_consistenc.Session.Transaction.{Conditions, begin, leave}
use global_ledger_consistenc.Session.Entries.{debit_entry, credit_entry}
use global_ledger_consistenc.Payments.{
  Raised, Metrics, domain, integrity_error, sqlalchemy_error, validation_error, key_error,
}
use global_ledger_consistenc.Payments.UseCase.{Draws, new_payment}
use global_ledger_consistenc.Payments.CreatePayment.{
  create, transaction_body, replay_or_create, replay_of, replay_or_race, handle, run_transaction,
  get_or_validate_idempotency, replayed,
}
use global_ledger_consistenc.Payments.Strategies.{reserve, debit_available, credit_available}
use global_ledger_consistenc.Table.{modify}
use global_ledger_consistenc.System.Effects.{answer, stored_key, stored_event, move}
use global_ledger_consistenc.System.Intake.{
  fresh, create_strong_ok, create_hybrid_ok, create_eventual_ok, create_refused, create_uncovered,
  flush_strong, flush_async,
}
use global_ledger_consistenc.System.Intake.Commits.{if_elim}

-- The row under the key answers the request with this hash.
pub record Answers (lib : Externals) (hash : String) (response : PaymentResponse)
    (k : IdempotencyKey) : Type 0 where
  pub same_hash : (k.request_hash == hash) ≡ true
  pub is_full : (k.response_payload_json == "") ≡ false
  pub reads : lib.model_validate_json k.response_payload_json ≡ some response

-- The database holds the answer to the request with this key and hash.
pub record Recorded (lib : Externals) (key hash : String) (response : PaymentResponse) (db : Db)
    : Type 0 where
  pub row : IdempotencyKey
  pub found : get key db.idempotency_keys ≡ some row
  pub answers : Answers lib hash response row

module _ (lib : Externals) (law : ResponseRoundTrip lib) (r : CreatePaymentRequest)
    (hash : String) where
  -- Whoever is answered finds the answer committed.
  abbrev pub Keeps : Result Raised (PaymentResponse × Bool) × Session Metrics → Type 0
  Keeps (ok done, s) = Recorded lib r.idempotency_key hash done.0 s.committed
  Keeps (err e, s) = Unit {0}

  abbrev Found : Result Raised (Option PaymentResponse) → Db → Type 0
  Found (ok (some replay)) db = Recorded lib r.idempotency_key hash replay db
  Found _ db = Unit {0}

  replay_of-Found :
      (s : Session Metrics) (o : Option IdempotencyKey)
      → get r.idempotency_key s.db.idempotency_keys ≡ o
      → Found (replay_of lib hash o s).0 s.db
  unfolding replay_of
  replay_of-Found s none h = tt
  replay_of-Found s (some k) h = elim (Bool-cases (k.request_hash == hash)) [
    | inr e ↦ rw e tt
    | inl e ↦ elim (Bool-cases (k.response_payload_json == "")) [
      | inl e' ↦ rw (e, e') tt
      | inr e' ↦ elim (Option-cases (lib.model_validate_json k.response_payload_json)) [
        | inl e'' ↦ rw (e, e', e'') tt
        | inr (a, e'') ↦
            rw (e, e', e'')
              (record {
                row = k;
                found = h;
                answers = record { same_hash = e; is_full = e'; reads = e'' };
              })
      ]
    ]
  ]

  -- What a commit of the answered request puts into the table.
  stored-Recorded :
      (d : Draws) (status : PaymentStatus) (keys : List IdempotencyKey) (db : Db)
      → db.idempotency_keys ≡ stored_key lib d r hash status ∷ keys
      → Recorded lib r.idempotency_key hash (answer lib d r hash status) db
  unfolding get
  stored-Recorded d status keys db h = record {
    row = stored_key lib d r hash status;
    found = ground (arith, h, eq_refl r.idempotency_key);
    answers = record {
      same_hash = eq_refl hash;
      is_full = law.dump_nonempty _;
      reads = law.validate-dump _;
    };
  }

  module _ (c : Conditions) where
    abbrev ended :
        Result Raised (PaymentResponse × Bool) × Session Metrics
        → Result Raised (PaymentResponse × Bool) × Session Metrics
    ended out = leave integrity_error sqlalchemy_error c out

    leave-Keeps :
        (done : PaymentResponse × Bool) (s : Session Metrics)
        → ((db' : Db)
            → flush s.pending s.db ≡ some db'
            → Recorded lib r.idempotency_key hash done.0 db')
        → Keeps (ended (ok done, s))
    unfolding leave
    leave-Keeps done s f = elim (Option-cases (flush s.pending s.db)) [
      | inl e ↦ rw (e, leave, ended) tt
      | inr (db', e) ↦ rw (e, leave, ended) (if_elim Keeps c.commits (f db' e) tt)
    ]

    module _ (d : Draws) (t : Option String) (m : Metrics) where
      refused-Keeps :
          (mode : ConsistencyMode) (db : Db) {e : Raised}
          → create lib mode c d r hash t (fresh db m) ≡ (err e, fresh (c.others db) m)
          → Keeps (ended (create lib mode c d r hash t (fresh db m)))
      unfolding leave
      refused-Keeps mode db e = subst (λ out. Keeps (ended out)) (sym e) tt

      locked-Keeps :
          (mode : ConsistencyMode) (db : Db)
          → mode ≢ eventual
          → ((a b : Account)
              → get r.source_account_id (c.others db).accounts ≡ some a
              → get r.destination_account_id (c.others db).accounts ≡ some b
              → ltb_ℤ a.available_balance_cents r.amount_cents ≡ false
              → Keeps (ended (create lib mode c d r hash t (fresh db m))))
          → Keeps (ended (create lib mode c d r hash t (fresh db m)))
      locked-Keeps mode db ne covered =
          elim (Option-cases (get r.source_account_id (c.others db).accounts)) [
            | inl ha ↦ refused-Keeps mode db (create_refused lib c d r hash t db m mode ne (inl ha))
            | inr (a, ha) ↦
                elim (Option-cases (get r.destination_account_id (c.others db).accounts)) [
                  | inl hb ↦
                      refused-Keeps mode db (create_refused lib c d r hash t db m mode ne (inr hb))
                  | inr (b, hb) ↦
                      elim (Bool-cases (ltb_ℤ a.available_balance_cents r.amount_cents)) [
                        | inl hc ↦
                            refused-Keeps mode db
                              (create_uncovered lib c d r hash t db m mode a b ne ha hb hc)
                        | inr hc ↦ covered a b ha hb hc
                      ]
                ]
          ]

      create-Keeps :
          (mode : ConsistencyMode) (db : Db)
          → Keeps (ended (create lib mode c d r hash t (fresh db m)))
      unfolding new_payment
      create-Keeps strong db =
          locked-Keeps strong db (λ e. cc)
            λ a b ha hb hc.
              subst (λ out. Keeps (ended out))
                (sym (create_strong_ok lib c d r hash t db m a b ha hb hc))
                (leave-Keeps _ _ λ db' e.
                  let (h1, h2, h3, f) = flush_strong _ _ _ _ _ db' e in
                  stored-Recorded d completed _ db' (ap (λ x. x.idempotency_keys) f))
      create-Keeps hybrid db =
          locked-Keeps hybrid db (λ e. cc)
            λ a b ha hb hc.
              subst (λ out. Keeps (ended out))
                (sym (create_hybrid_ok lib c d r hash t db m a b ha hb hc))
                (leave-Keeps _ _ λ db' e.
                  let (h1, h2, h3, h4, f) = flush_async _ _ _ _ db' e in
                  stored-Recorded d reserved _ db' (ap (λ x. x.idempotency_keys) f))
      create-Keeps eventual db =
          subst (λ out. Keeps (ended out)) (sym (create_eventual_ok lib c d r hash t db m))
            (leave-Keeps _ _ λ db' e.
              let (h1, h2, h3, h4, f) = flush_async _ _ _ _ db' e in
              stored-Recorded d received _ db' (ap (λ x. x.idempotency_keys) f))
