-- ===== src/System/Reserves/Links.antt =====
-- What an outbox event says of its payment, as accounts and payments change.
use Prim.Native.String.{◌++◌}
use global_ledger_consistenc.Base.{
  String, true, false, ◌≡◌, refl, sym, subst, ap, ◌∙◌, Option, some, List, ◌∷◌, arith, ◌==◌, All,
  All-map, inl, inr, ◌⊎◌, Bool-cases,
}
use global_ledger_consistenc.Table.{get, has, modify, get-modify, get_front, get_newer, All-modify}
use global_ledger_consistenc.Contracts.{
  PaymentStatus, completed, rejected, reserved, received, OutboxEventType, payment_reserved,
  payment_requested, CreatePaymentRequest, accepts-ids,
}
use global_ledger_consistenc.Orm.{
  Account, Payment, OutboxEvent, account_keyed, payment_keyed, event_keyed,
}
use global_ledger_consistenc.Externals.{Externals}
use global_ledger_consistenc.Session.{ok, ok-injective}
use global_ledger_consistenc.Payments.UseCase.{Draws, new_payment, new_event}
use global_ledger_consistenc.Worker.Payload.{EventPayload, parse_payload}
use global_ledger_consistenc.Worker.Payload.RoundTrip.{
  PayloadRoundTrip, parse-add_outbox, nonempty_pay, nonempty_within,
}
use global_ledger_consistenc.Worker.Handlers.{is_settled, with_status}
use global_ledger_consistenc.System.Effects.{stored_event}
use global_ledger_consistenc.System.Steps.{IsProper}
use global_ledger_consistenc.System.Reserves.{Link, Knows, fits}

-- The same payment later: settled since, or in the same state.
pub record Later (p p' : Payment) : Type 0 where
  pub source : p'.source_account_id ≡ p.source_account_id
  pub amount : p'.amount_cents ≡ p.amount_cents
  pub state : (p'.status ≡ p.status) ⊎ (is_settled p'.status ≡ true)

pub Later-refl : (p : Payment) → Later p p
Later-refl p = record { source = refl; amount = refl; state = inl refl }

-- Accounts and payments may change and be added, and none is lost.
pub record Extends (accounts : List Account) (payments : List Payment) (accounts' : List Account)
    (payments' : List Payment) : Type 0 where
  pub keeps_accounts : (id : String) → has id accounts ≡ true → has id accounts' ≡ true
  pub keeps_payments :
      (id : String) (p : Payment)
      → get id payments ≡ some p
      → (p' : Payment) × (get id payments' ≡ some p') × Later p p'

settled-fits :
    (type : OutboxEventType) (status : PaymentStatus)
    → is_settled status ≡ true
    → fits type status ≡ true
settled-fits payment_reserved completed h = refl
settled-fits payment_reserved rejected h = refl
settled-fits payment_reserved received h = cc
settled-fits payment_reserved reserved h = refl
settled-fits payment_requested completed h = refl
settled-fits payment_requested rejected h = refl
settled-fits payment_requested received h = refl
settled-fits payment_requested reserved h = cc

module _ {rows : List Account} {ps : List Payment} {rows' : List Account} {ps' : List Payment}
    (x : Extends rows ps rows' ps') where
  Knows-later : (type : OutboxEventType) (q : EventPayload) → Knows type q rows → Knows type q rows'
  Knows-later payment_reserved q h = (x.keeps_accounts _ h.0, x.keeps_accounts _ h.1)
  Knows-later payment_requested q h = tt

  Link-later :
      (type : OutboxEventType) (q : EventPayload) → Link type q rows ps → Link type q rows' ps'
  Link-later type q l =
      let (p', found, later) = x.keeps_payments q.payment_id l.payment l.found in
      record {
        payment = p';
        found = found;
        source = later.source ∙ l.source;
        amount = later.amount ∙ l.amount;
        state = elim later.state [
          | inl same ↦ ap (fits type) same ∙ l.state
          | inr settled ↦ settled-fits type p'.status settled
        ];
        known = Knows-later type q l.known;
      }

-- What an event's payload, once read, says of its payment.
abbrev pub Speaks : Externals → List Account → List Payment → OutboxEvent → Type 0
Speaks lib accounts payments e =
    (q : EventPayload)
    → parse_payload lib e.payload_json ≡ ok q
    → Link e.event_type q accounts payments

pub Speaks-later :
    (lib : Externals) {rows : List Account} {ps : List Payment} {rows' : List Account}
    {ps' : List Payment} (events : List OutboxEvent)
    → Extends rows ps rows' ps'
    → All (Speaks lib rows ps) events
    → All (Speaks lib rows' ps') events
Speaks-later lib events x all =
    All-map events (λ e h. λ q parsed. Link-later x e.event_type q (h q parsed)) all

-- A change of an event that keeps its payload and its type.
pub Speaks-modify :
    (lib : Externals) (rows : List Account) (ps : List Payment) (id : String)
    (f : OutboxEvent → OutboxEvent) (events : List OutboxEvent)
    → ((e : OutboxEvent) → (f e).payload_json ≡ e.payload_json)
    → ((e : OutboxEvent) → (f e).event_type ≡ e.event_type)
    → All (Speaks lib rows ps) events
    → All (Speaks lib rows ps) (modify id f events)
Speaks-modify lib rows ps id f events payload type all =
    All-modify (Speaks lib rows ps) id f events
      (λ e _ h. λ q parsed.
        subst (λ t. Link t q rows ps) (sym (type e))
          (h q (ap (parse_payload lib) (sym (payload e)) ∙ parsed)))
      all

-- The ways in which the system changes accounts and payments.
pub new-Extends :
    (rows rows' : List Account) (ps : List Payment) (p : Payment)
    → ((id : String) → has id rows' ≡ has id rows)
    → has p.id ps ≡ false
    → Extends rows ps rows' (p ∷ ps)
new-Extends rows rows' ps p same free = record {
  keeps_accounts = λ id h. same id ∙ h;
  keeps_payments = λ id q h. (q, get_newer id q p ps h free, Later-refl q);
}

pub status-Extends :
    (rows rows' : List Account) (ps : List Payment) (id : String) (status : PaymentStatus)
    → ((j : String) → has j rows' ≡ has j rows)
    → is_settled status ≡ true
    → Extends rows ps rows' (modify id (with_status status) ps)
status-Extends rows rows' ps id status same settled = record {
  keeps_accounts = λ j h. same j ∙ h;
  keeps_payments = λ j p h. elim (Bool-cases (id == j)) [
    | inl e ↦ (
      record p { status = status },
      ground (arith, h, e, get-modify id j (with_status status) ps (λ a. refl)),
      record { source = refl; amount = refl; state = inr settled },
    )
    | inr e ↦
        (p, ground (arith, h, e, get-modify id j (with_status status) ps (λ a. refl)), Later-refl p)
  ];
}

pub new-Speaks :
    (lib : Externals) (law : PayloadRoundTrip lib) (d : Draws) (r : CreatePaymentRequest)
    (hash : String) (t : Option String) (status : PaymentStatus) (type : OutboxEventType)
    (rows : List Account) (ps : List Payment)
    → IsProper r
    → fits type status ≡ true
    → ((q : EventPayload)
        → q.source_account_id ≡ r.source_account_id
        → q.destination_account_id ≡ r.destination_account_id
        → Knows type q rows)
    → Speaks lib rows (new_payment d r hash status ∷ ps) (stored_event lib d r hash t status type)
unfolding new_event new_payment
new-Speaks lib law d r hash t status type rows ps proper fit known q parsed =
    let (hs, hd) = accepts-ids r proper.accepted in
    let same = ok-injective (
      sym parsed
      ∙ parse-add_outbox lib law ("pay-" ++ d.payment_hex) r.source_account_id
          r.destination_account_id r.amount_cents t (nonempty_pay d.payment_hex)
          (nonempty_within r.source_account_id hs) (nonempty_within r.destination_account_id hd)) in
    record {
      payment = new_payment d r hash status;
      found =
          get_front q.payment_id (new_payment d r hash status) ps
            (sym (ap (λ (x : EventPayload). x.payment_id) same));
      source = sym (ap (λ (x : EventPayload). x.source_account_id) same);
      amount = sym (ap (λ (x : EventPayload). x.amount_cents) same);
      state = fit;
      known =
          known q (ap (λ (x : EventPayload). x.source_account_id) same)
            (ap (λ (x : EventPayload). x.destination_account_id) same);
    }
