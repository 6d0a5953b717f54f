-- ===== src/Payments/CreatePayment.antt =====
-- payments_api/use_cases/create_payment.py and api/routes_payments.py: the idempotent transaction
-- and the endpoint around it.
use global_ledger_consistenc.Base.{
  ℕ, String, ◌+◌, ◌-◌, Bool, true, false, not, Option, none, some, ◌∷◌, ◌==◌, if◌then◌else◌,
}
use global_ledger_consistenc.Table.{get}
use global_ledger_consistenc.Contracts.{
  ConsistencyMode, CreatePaymentRequest, PaymentResponse, ApiErrorResponse, pix, ted, PaymentMethod,
  invalid_payment, idempotency_conflict, idempotency_unavailable, dependency_unavailable,
  source_destination_must_differ, conflict, in_progress, race, database_unavailable, domain_message,
  accepts,
}
use global_ledger_consistenc.Orm.{IdempotencyKey, key_row, key_keyed}
use global_ledger_consistenc.Externals.{Externals, Json, field, end}
use global_ledger_consistenc.Session.{
  Session, Result, ok, err, pure, raise, raise_if, or_raise, read, add, count, rollback, ◌>>=◌,
  ◌>>◌,
}
use global_ledger_consistenc.Session.Transaction.{Conditions, begin, let_others_commit}
use global_ledger_consistenc.Payments.{
  DomainError, Raised, domain, integrity_error, sqlalchemy_error, validation_error, Metrics,
  ApiAction,
}
use global_ledger_consistenc.Payments.UseCase.{Draws}
use global_ledger_consistenc.Payments.Strategies.{execute_mode}

abbrev pub same_account : DomainError
same_account = record {
  error_code = invalid_payment;
  message = source_destination_must_differ;
  http_status = 422;
}

abbrev pub key_conflict : DomainError
key_conflict = record { error_code = idempotency_conflict; message = conflict; http_status = 409 }

abbrev pub key_in_progress : DomainError
key_in_progress = record {
  error_code = idempotency_unavailable;
  message = in_progress;
  http_status = 503;
}

abbrev pub key_race : DomainError
key_race = record { error_code = idempotency_unavailable; message = race; http_status = 503 }

abbrev pub no_database : DomainError
no_database = record {
  error_code = dependency_unavailable;
  message = database_unavailable;
  http_status = 503;
}

-- `PaymentMethod.value`
abbrev pub method_value : PaymentMethod → String
method_value pix = "pix"
method_value ted = "ted"

-- `_validate_request`
unfoldable pub validate_request : CreatePaymentRequest → ApiAction (Unit {0})
validate_request request =
    raise_if (request.source_account_id == request.destination_account_id) (domain same_account)

abbrev pub replayed : Metrics → Metrics
replayed m = record m { idempotency_replay = m.idempotency_replay + 1 }

abbrev pub processed_one : Metrics → Metrics
processed_one m = record m { payments_processed = m.payments_processed + 1 }

-- `self.model_dump(mode="json")`
unfoldable pub request_payload : CreatePaymentRequest → Json
request_payload r = Json.object (
    field "idempotency_key" (Json.str r.idempotency_key) (
      field "source_account_id" (Json.str r.source_account_id) (
        field "destination_account_id" (Json.str r.destination_account_id) (
          field "amount_cents" (Json.int r.amount_cents)
            (field "method" (Json.str (method_value r.method)) end)))))

module _ (lib : Externals) where
  -- `CreatePaymentRequest.compute_request_hash`, in models.py
  unfoldable pub compute_request_hash : CreatePaymentRequest → String
  unfolding request_payload
  compute_request_hash r = lib.sha256_hexdigest (lib.dumps_compact (request_payload r))

  -- The tests of `_get_or_validate_idempotency` on the row that it found.
  unfoldable pub replay_of : String → Option IdempotencyKey → ApiAction (Option PaymentResponse)
  replay_of request_hash none = pure none
  replay_of request_hash (some existing) = do
    raise_if (not (existing.request_hash == request_hash)) (domain key_conflict)
    raise_if (existing.response_payload_json == "") (domain key_in_progress)
    count replayed
    response ← or_raise (lib.model_validate_json existing.response_payload_json) validation_error
    pure (some response)

  -- `_get_or_validate_idempotency`
  unfoldable pub get_or_validate_idempotency : String → String → ApiAction (Option PaymentResponse)
  unfolding replay_of
  get_or_validate_idempotency key request_hash = do
    db ← read
    replay_of request_hash (get key db.idempotency_keys)

  -- `IdempotencyRepository.save`
  unfoldable pub save_key : ℕ → String → String → String → ApiAction (Unit {0})
  save_key now key request_hash response_payload_json = add (
      key_row (record {
        key = key;
        request_hash = request_hash;
        response_payload_json = response_payload_json;
        created_at = now;
      }))

  module _ (mode : ConsistencyMode) (c : Conditions) (d : Draws) where
    -- The rest of the `with` block once the key was not found.
    unfoldable pub create :
        CreatePaymentRequest → String → Option String → ApiAction (PaymentResponse × Bool)
    unfolding execute_mode save_key let_others_commit
    create request request_hash traceparent = do
      let_others_commit c
      response ← execute_mode lib d mode request request_hash traceparent
      save_key d.key_at request.idempotency_key request_hash (lib.model_dump_json response)
      pure (response, true)

    unfoldable pub replay_or_create :
        CreatePaymentRequest
        → String
        → Option String
        → Option PaymentResponse
        → ApiAction (PaymentResponse × Bool)
    unfolding create
    replay_or_create request request_hash traceparent (some replay) = pure (replay, false)
    replay_or_create request request_hash traceparent none = create request request_hash traceparent

    -- The body of the `with` block of `_run_transaction`.
    unfoldable pub transaction_body :
        CreatePaymentRequest → String → Option String → ApiAction (PaymentResponse × Bool)
    unfolding replay_or_create get_or_validate_idempotency
    transaction_body request request_hash traceparent = do
      replay ← get_or_validate_idempotency request.idempotency_key request_hash
      replay_or_create request request_hash traceparent replay

    unfoldable pub replay_or_race : Option PaymentResponse → ApiAction (PaymentResponse × Bool)
    replay_or_race none = raise (domain key_race)
    replay_or_race (some replay) = pure (replay, false)

    -- The two `except` clauses of `_run_transaction`.
    unfoldable pub handle :
        CreatePaymentRequest
        → String
        → Result Raised (PaymentResponse × Bool) × Session Metrics
        → Result Raised (PaymentResponse × Bool) × Session Metrics
    unfolding replay_or_race get_or_validate_idempotency rollback
    handle request request_hash (ok done, s) = (ok done, s)
    handle request request_hash (err integrity_error, s) =
        (get_or_validate_idempotency request.idempotency_key request_hash >>= replay_or_race)
          (rollback s)
    handle request request_hash (err sqlalchemy_error, s) = (err (domain no_database), s)
    handle request request_hash (err e, s) = (err e, s)

    -- `_run_transaction`
    unfoldable pub run_transaction :
        CreatePaymentRequest → String → Option String → ApiAction (PaymentResponse × Bool)
    unfolding handle transaction_body begin
    run_transaction request request_hash traceparent s = handle request request_hash (
        begin integrity_error sqlalchemy_error c (transaction_body request request_hash traceparent)
          s)

    -- `execute`; a rollback outside a transaction changes nothing.
    unfoldable pub execute : CreatePaymentRequest → Option String → ApiAction PaymentResponse
    unfolding run_transaction validate_request compute_request_hash rollback
    execute request traceparent = do
      validate_request request
      (λ s. (ok tt, rollback s))
      done ← run_transaction request (compute_request_hash request) traceparent
      count (if done.1 then processed_one else (λ m. m))
      pure done.0

-- What the client receives; `unprocessable` is FastAPI's answer to a body that fails validation, and
-- `server_error` that to an exception that the endpoint does not catch.
pub data Reply : Type 0 where
  response : PaymentResponse → Reply
  error : ℕ → ApiErrorResponse → Reply
  unprocessable server_error : Reply

unfoldable pub reply_of : Result Raised PaymentResponse → Reply
reply_of (ok r) = response r
reply_of (err (domain e)) =
    error e.http_status (record { error_code = e.error_code; message = domain_message e.message })
reply_of (err _) = server_error

-- The endpoint `create_payment` of routes_payments.py; `started` and `ended` are the readings of
-- `time.perf_counter`.
unfoldable pub post_payment :
    Externals
    → ConsistencyMode
    → Conditions
    → Draws
    → ℕ
    → ℕ
    → CreatePaymentRequest
    → Option String
    → Session Metrics
    → Reply × Session Metrics
unfolding execute reply_of
post_payment lib mode c d started ended body traceparent s =
    if accepts body
    then (let m = s.metrics in
        let (r, s') =
          execute lib mode c d body traceparent
            (record s { metrics = record m { payments_received = m.payments_received + 1 } }) in
        let m' = s'.metrics in
        (
          reply_of r,
          record s' {
            metrics = record m' { request_latency = (ended - started) ∷ m'.request_latency };
          },
        ))
    else (unprocessable, s)
