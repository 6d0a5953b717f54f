-- ===== src/System/Convergence.antt =====
-- Which outbox event speaks of a payment that is neither completed nor rejected, and how the changes of
-- the outbox treat it: worker and API of services/, over their shared tables.
pub mod Runs
pub mod Drained
pub mod Closes
pub mod Accounts
use Prim.Native.String.{◌++◌}
use mathlib.Core.Option
use mathlib.Core.Option.{some-injective}
use global_ledger_consistenc.Base.{
  ℕ, String, Bool, true, false, ◌≡◌, ◌≢◌, refl, sym, ap, subst, ◌∙◌, Option, some, List, [], ◌∷◌,
  arith, ◌==◌, eq_iff, if◌then◌else◌, Bool-cases, inl, inr, All,
}
use global_ledger_consistenc.Table.{
  Keyed, get, has, modify, get-modify, key_of-get, get_front, get_newer,
}
use global_ledger_consistenc.Contracts.{
  CreatePaymentRequest, PaymentStatus, OutboxEventType, OutboxStatus, pending, processing,
  processed, dead, accepts-ids,
}
use global_ledger_consistenc.Orm.{Payment, OutboxEvent, event_keyed, payment_keyed}
use global_ledger_consistenc.Externals.{Externals}
use global_ledger_consistenc.Session.{ok, ok-injective}
use global_ledger_consistenc.Payments.UseCase.{Draws, new_payment, new_event}
use global_ledger_consistenc.Worker.Payload.{EventPayload, parse_payload}
use global_ledger_consistenc.Worker.Payload.RoundTrip.{
  PayloadRoundTrip, parse-add_outbox, nonempty_pay, nonempty_within, kept,
}
use global_ledger_consistenc.Worker.Outbox.{mark_processed}
use global_ledger_consistenc.System.Effects.{stored_event}
use global_ledger_consistenc.System.Steps.{IsProper}
use global_ledger_consistenc.System.Reserves.{has-modify}

abbrev pub is_processed : OutboxStatus → Bool
is_processed processed = true
is_processed _ = false

-- An event that is not processed speaks of the payment.
pub record IsAwaited (lib : Externals) (id : String) (events : List OutboxEvent) : Type 0 where
  pub event : OutboxEvent
  pub payload : EventPayload
  pub stored : get event.id events ≡ some event
  pub waits : is_processed event.status ≡ false
  pub parsed : parse_payload lib event.payload_json ≡ ok payload
  pub names : payload.payment_id ≡ id

module _ {A : Type 0} ⦃k : Keyed A⦄ where
  -- No key stands in two rows.
  abbrev pub IsDistinct : List A → Type 0
  IsDistinct [] = Unit
  IsDistinct (a ∷ rows) = (has (k.key_of a) rows ≡ false) × IsDistinct rows

  pub IsDistinct-modify :
      (id : String) (f : A → A) (rows : List A)
      → ((a : A) → k.key_of (f a) ≡ k.key_of a)
      → IsDistinct rows
      → IsDistinct (modify id f rows)
  unfolding modify
  IsDistinct-modify id f [] same h = tt
  IsDistinct-modify id f (a ∷ rows) same h = elim (Bool-cases (k.key_of a == id)) [
    | inl e ↦ rw e (ap (λ x. has x rows) (same a) ∙ h.0, h.1)
    | inr e ↦
        rw e (has-modify (k.key_of a) id f rows same ∙ h.0, IsDistinct-modify id f rows same h.1)
  ]

  -- What holds of each row that a key finds holds of all rows.
  pub All-found :
      (P : A → Type 0) (rows : List A)
      → IsDistinct rows
      → ((id : String) (a : A) → get id rows ≡ some a → P a)
      → All P rows
  All-found P [] h found = tt
  All-found P (a ∷ rows) h found = (
    found (k.key_of a) a (get_front (k.key_of a) a rows refl),
    All-found P rows h.1 (λ id b at. found id b (get_newer id b a rows at h.0)),
  )

module _ (lib : Externals) (id : String) where
  -- A change that keeps what the events say, and closes none.
  pub IsAwaited-modify :
      (j : String) (f : OutboxEvent → OutboxEvent) (events : List OutboxEvent)
      → ((e : OutboxEvent) → (f e).id ≡ e.id)
      → ((e : OutboxEvent) → (f e).payload_json ≡ e.payload_json)
      → ((e : OutboxEvent) → is_processed (f e).status ≡ false)
      → IsAwaited lib id events
      → IsAwaited lib id (modify j f events)
  IsAwaited-modify j f events same says open_one w = elim (Bool-cases (j == w.event.id)) [
    | inl e ↦ record {
      event = f w.event;
      payload = w.payload;
      stored =
          ap (λ x. get x (modify j f events)) (same w.event)
          ∙ get-modify j w.event.id f events same
          ∙ rw (e, w.stored) refl;
      waits = open_one w.event;
      parsed = ap (parse_payload lib) (says w.event) ∙ w.parsed;
      names = w.names;
    }
    | inr e ↦ record {
      event = w.event;
      payload = w.payload;
      stored = get-modify j w.event.id f events same ∙ rw (e, w.stored) refl;
      waits = w.waits;
      parsed = w.parsed;
      names = w.names;
    }
  ]

  pub IsAwaited-newer :
      (new : OutboxEvent) (events : List OutboxEvent)
      → has new.id events ≡ false
      → IsAwaited lib id events
      → IsAwaited lib id (new ∷ events)
  IsAwaited-newer new events free w = record {
    event = w.event;
    payload = w.payload;
    stored = get_newer w.event.id w.event new events w.stored free;
    waits = w.waits;
    parsed = w.parsed;
    names = w.names;
  }

  -- Closing an event leaves the others, and those speak of every other payment.
  pub IsAwaited-processed :
      (closed : OutboxEvent) (q : EventPayload) (events : List OutboxEvent)
      → get closed.id events ≡ some closed
      → parse_payload lib closed.payload_json ≡ ok q
      → q.payment_id ≢ id
      → IsAwaited lib id events
      → IsAwaited lib id (modify closed.id mark_processed events)
  IsAwaited-processed closed q events stored parsed other w =
      elim (Bool-cases (closed.id == w.event.id)) [
        | inl e ↦
            let same : closed ≡ w.event = some-injective closed w.event (
              sym stored ∙ ap (λ x. get x events) ((eq_iff closed.id w.event.id).0 e) ∙ w.stored) in
            let payload = ok-injective (
              sym parsed
              ∙ ap (λ (x : OutboxEvent). parse_payload lib x.payload_json) same
              ∙ w.parsed) in
            absurd (other (ap (λ (x : EventPayload). x.payment_id) payload ∙ w.names))
        | inr e ↦ record {
          event = w.event;
          payload = w.payload;
          stored =
              get-modify closed.id w.event.id mark_processed events
                (λ x. unfold mark_processed in refl)
              ∙ rw (e, w.stored) refl;
          waits = w.waits;
          parsed = w.parsed;
          names = w.names;
        }
      ]

-- A payment that hybrid or eventual mode has accepted has its own event.
pub new-IsAwaited :
    (lib : Externals) (law : PayloadRoundTrip lib) (d : Draws) (r : CreatePaymentRequest)
    (hash : String) (t : Option String) (status : PaymentStatus) (type : OutboxEventType)
    (events : List OutboxEvent)
    → IsProper r
    → IsAwaited lib
        (new_payment d r hash status).id
        (stored_event lib d r hash t status type ∷ events)
unfolding new_event new_payment
new-IsAwaited lib law d r hash t status type events proper =
    let (hs, hd) = accepts-ids r proper.accepted in
    record {
      event = stored_event lib d r hash t status type;
      payload = _;
      stored =
          get_front (stored_event lib d r hash t status type).id
            (stored_event lib d r hash t status type) events refl;
      waits = refl;
      parsed =
          parse-add_outbox lib law ("pay-" ++ d.payment_hex) r.source_account_id
            r.destination_account_id r.amount_cents t (nonempty_pay d.payment_hex)
            (nonempty_within r.source_account_id hs) (nonempty_within r.destination_account_id hd);
      names = refl;
    }
