-- ===== src/System/Replay/Repeats/Later.antt =====
-- The same request once more, after any number of commits by any mix of processes.
use global_ledger_consistenc.Base.{
  String, true, false, ◌≡◌, ◌∙◌, ap, subst, Option, some, arith, ◌==◌,
}
use global_ledger_consistenc.Table.{get, get_newer}
use global_ledger_consistenc.Contracts.{
  ConsistencyMode, CreatePaymentRequest, PaymentResponse, completed, reserved, received,
}
use global_ledger_consistenc.Orm.{IdempotencyKey, Db, key_keyed}
use global_ledger_consistenc.Externals.{Externals, ResponseRoundTrip}
use global_ledger_consistenc.Session.{Session, ok, err, rollback}
use global_ledger_consistenc.Session.Transaction.{Conditions, begin, leave}
use global_ledger_consistenc.Payments.{Metrics, domain}
use global_ledger_consistenc.Payments.UseCase.{Draws, new_payment}
use global_ledger_consistenc.Payments.CreatePayment.{
  execute, compute_request_hash, replayed, key_conflict, validate_request, run_transaction, handle,
  transaction_body, get_or_validate_idempotency, replay_of,
}
use global_ledger_consistenc.Worker.Outbox.Untouched.{fetch-SameMoney}
use global_ledger_consistenc.System.Steps.{
  Reach, here, next, Step, strong_paid, hybrid_paid, eventual_paid, leased,
}
use global_ledger_consistenc.System.Effects.{stored_key}
use global_ledger_consistenc.System.Intake.{fresh}
use global_ledger_consistenc.System.Replay.{Recorded}
use global_ledger_consistenc.System.Replay.Repeats.{KeepsReply, execute-KeepsReply, execute_again}

module _ {lib : Externals} (key : String) (k : IdempotencyKey) where
  found-Step :
      {db db' : Db}
      → Step lib db db'
      → get key db.idempotency_keys ≡ some k
      → get key db'.idempotency_keys ≡ some k
  unfolding new_payment
  found-Step (strong_paid d r hash a b db _ _ _ _ new) h =
      get_newer key k (stored_key lib d r hash completed) db.idempotency_keys h new.key
  found-Step (hybrid_paid d r hash t a b db _ _ _ _ new _) h =
      get_newer key k (stored_key lib d r hash reserved) db.idempotency_keys h new.key
  found-Step (eventual_paid d r hash t db _ new _) h =
      get_newer key k (stored_key lib d r hash received) db.idempotency_keys h new.key
  found-Step (leased now timeout size locked db) h =
      (ap (get key) (fetch-SameMoney lib now timeout size locked db).idempotency_keys) ∙ h
  found-Step _ h = h

  -- No commit of the system takes an idempotency key away or changes it.
  pub found-Reach :
      {db db' : Db}
      → Reach lib db db'
      → get key db.idempotency_keys ≡ some k
      → get key db'.idempotency_keys ≡ some k
  found-Reach here h = h
  found-Reach (next r st) h = found-Step st (found-Reach r h)

module _ (lib : Externals) (law : ResponseRoundTrip lib) (r : CreatePaymentRequest) where
  pub Recorded-Reach :
      {hash : String} {response : PaymentResponse} {db db' : Db}
      → Reach lib db db'
      → Recorded lib r.idempotency_key hash response db
      → Recorded lib r.idempotency_key hash response db'
  Recorded-Reach run h = record {
    row = h.row;
    found = found-Reach r.idempotency_key h.row run h.found;
    answers = h.answers;
  }

  -- A request that was answered once gets the same response whenever it is sent again, in any mode and
  -- after any run of the system, and the repeated call writes nothing and counts one replay, provided
  -- that the database answers and that a stored response is read back as it was written.
  pub execute-replays :
      (mode mode' : ConsistencyMode) (c c' : Conditions) (d d' : Draws) (t t' : Option String)
      (s s' later : Session Metrics) (response : PaymentResponse)
      → (r.source_account_id == r.destination_account_id) ≡ false
      → execute lib mode c d r t s ≡ (ok response, s')
      → Reach lib s'.committed later.committed
      → c'.reachable ≡ true
      → c'.commits ≡ true
      → execute lib mode' c' d' r t' later
        ≡ (ok response, fresh later.committed (replayed later.metrics))
  execute-replays mode mode' c c' d d' t t' s s' later response differ done run up goes =
      execute_again lib law mode' c' d' r t' later response differ up goes (
        Recorded-Reach run
          (subst (KeepsReply lib r) done (execute-KeepsReply lib law mode c d r t s)))

module _ (lib : Externals) (mode : ConsistencyMode) (c : Conditions) (d : Draws)
    (r : CreatePaymentRequest) (t : Option String) where
  -- A key that was stored with another hash is refused, and nothing is written.
  pub execute_other_hash :
      (s : Session Metrics) (k : IdempotencyKey)
      → (r.source_account_id == r.destination_account_id) ≡ false
      → c.reachable ≡ true
      → get r.idempotency_key s.committed.idempotency_keys ≡ some k
      → (k.request_hash == compute_request_hash lib r) ≡ false
      → execute lib mode c d r t s ≡ (err (domain key_conflict), fresh s.committed s.metrics)
  unfolding execute rollback validate_request run_transaction handle begin leave transaction_body
      get_or_validate_idempotency replay_of
  execute_other_hash s k differ up found other = ground arith
