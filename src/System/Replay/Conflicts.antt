-- ===== src/System/Replay/Conflicts.antt =====
-- Another request under a key that has been answered: the 409 of create_payment.py.
use global_ledger_consistenc.Base.{
  String, true, false, ◌≡◌, ◌≢◌, refl, sym, subst, Option, some, arith, ◌==◌, Bool-cases, eq_iff,
  inl, inr,
}
use global_ledger_consistenc.Table.{get}
use global_ledger_consistenc.Contracts.{
  ConsistencyMode, PaymentMethod, pix, ted, CreatePaymentRequest, PaymentResponse,
}
use global_ledger_consistenc.Orm.{key_keyed}
use global_ledger_consistenc.Externals.{Externals, Json, ResponseRoundTrip}
use global_ledger_consistenc.Session.{Session, ok, err}
use global_ledger_consistenc.Session.Transaction.{Conditions}
use global_ledger_consistenc.Payments.{Metrics, domain}
use global_ledger_consistenc.Payments.UseCase.{Draws}
use global_ledger_consistenc.Payments.CreatePayment.{
  execute, compute_request_hash, request_payload, method_value, key_conflict,
}
use global_ledger_consistenc.System.Steps.{Reach}
use global_ledger_consistenc.System.Intake.{fresh}
use global_ledger_consistenc.System.Replay.{Recorded}
use global_ledger_consistenc.System.Replay.Repeats.{KeepsReply, execute-KeepsReply}
use global_ledger_consistenc.System.Replay.Repeats.Later.{Recorded-Reach, execute_other_hash}

-- `json.dumps` writes two values differently that differ, and SHA-256 has no collision on what it
-- writes of these two.
pub record IsSeparating (lib : Externals) (a b : Json) : Type 0 where
  pub dumps : lib.dumps_compact a ≡ lib.dumps_compact b → a ≡ b
  pub sha256 :
      lib.sha256_hexdigest (lib.dumps_compact a) ≡ lib.sha256_hexdigest (lib.dumps_compact b)
      → lib.dumps_compact a ≡ lib.dumps_compact b

method_value-injective : (m m' : PaymentMethod) → method_value m ≡ method_value m' → m ≡ m'
method_value-injective pix pix h = refl
method_value-injective ted ted h = refl
method_value-injective pix ted h = absurd (ground (arith, subst (λ s. (s == "pix") ≡ true) h refl))
method_value-injective ted pix h = absurd (ground (arith, subst (λ s. (s == "ted") ≡ true) h refl))

-- The payload holds every field of the request.
request_payload-injective :
    (r r' : CreatePaymentRequest) → request_payload r ≡ request_payload r' → r ≡ r'
unfolding request_payload
request_payload-injective r r' h = ground (arith, h, method_value-injective r.method r'.method)

hash_differs :
    (lib : Externals) (r r' : CreatePaymentRequest)
    → IsSeparating lib (request_payload r) (request_payload r')
    → r ≢ r'
    → (compute_request_hash lib r == compute_request_hash lib r') ≡ false
unfolding compute_request_hash
hash_differs lib r r' law other =
    let h = compute_request_hash lib r in
    let h' = compute_request_hash lib r' in
    elim (Bool-cases (h == h')) [
      | inr e ↦ e
      | inl e ↦
          absurd
            (other (request_payload-injective r r' (law.dumps (law.sha256 ((eq_iff h h').0 e)))))
    ]

-- Whoever finds the answer to a request under its key is refused with another request.
conflict_found :
    (lib : Externals) (r r' : CreatePaymentRequest) (response : PaymentResponse)
    (mode : ConsistencyMode) (c : Conditions) (d : Draws) (t : Option String) (s : Session Metrics)
    → IsSeparating lib (request_payload r) (request_payload r')
    → r.idempotency_key ≡ r'.idempotency_key
    → r ≢ r'
    → (r'.source_account_id == r'.destination_account_id) ≡ false
    → Recorded lib r.idempotency_key (compute_request_hash lib r) response s.committed
    → c.reachable ≡ true
    → execute lib mode c d r' t s ≡ (err (domain key_conflict), fresh s.committed s.metrics)
conflict_found lib r r' response mode c d t s law same other differ stored up =
    let hash = compute_request_hash lib r in
    let hash' = compute_request_hash lib r' in
    let stored_hash = (eq_iff stored.row.request_hash hash).0 stored.answers.same_hash in
    execute_other_hash lib mode c d r' t s stored.row differ up
      (subst (λ key. get key s.committed.idempotency_keys ≡ some stored.row) same stored.found)
      (subst (λ h. (h == hash') ≡ false) (sym stored_hash) (hash_differs lib r r' law other))

-- Once a request was answered, another request under its key, between two different accounts, is
-- refused with the conflict error, in any mode and after any run of the system, and nothing is written:
-- whichever field makes it another. This is provided that the database answers, that a stored response
-- is read back as it was written, and that `json.dumps` and SHA-256 tell the two payloads apart.
pub execute-conflict :
    (lib : Externals) (law : ResponseRoundTrip lib) (r r' : CreatePaymentRequest)
    (mode mode' : ConsistencyMode) (c c' : Conditions) (d d' : Draws) (t t' : Option String)
    (s s' later : Session Metrics) (response : PaymentResponse)
    → IsSeparating lib (request_payload r) (request_payload r')
    → r.idempotency_key ≡ r'.idempotency_key
    → r ≢ r'
    → (r'.source_account_id == r'.destination_account_id) ≡ false
    → execute lib mode c d r t s ≡ (ok response, s')
    → Reach lib s'.committed later.committed
    → c'.reachable ≡ true
    → execute lib mode' c' d' r' t' later
      ≡ (err (domain key_conflict), fresh later.committed later.metrics)
execute-conflict lib law r r' mode mode' c c' d d' t t' s s' later response apart same other differ
      done run up =
    conflict_found lib r r' response mode' c' d' t' later apart same other differ
      (Recorded-Reach lib law r run
        (subst (KeepsReply lib r) done (execute-KeepsReply lib law mode c d r t s)))
      up
