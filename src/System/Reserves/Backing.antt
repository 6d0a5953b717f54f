-- ===== src/System/Reserves/Backing.antt =====
-- Reserved balances against reserved payments.
pub mod Runs
use mathlib.Core.Option.{some-injective}
use global_ledger_consistenc.Base.{
  ℕ, ◌+◌, String, true, Bool, false, ◌≡◌, refl, sym, subst, ap, ◌∙◌, Option, none, some, List, [],
  ◌∷◌, arith, ◌==◌, eq_iff, All, inl, inr, Bool-cases, if◌then◌else◌,
}
use global_ledger_consistenc.Int.{ℤ, pos, neg, ◌+ℤ◌, ◌≤ℤ◌, sum_of, int_laws, parts_of_eq}
use global_ledger_consistenc.Table.{
  get, has, modify, key_of-get, sum_of-modify, All-modify, All-get,
}
use global_ledger_consistenc.Contracts.{
  PaymentStatus, completed, rejected, reserved, received, OutboxEventType, payment_reserved,
  payment_requested, accepts-amount, CreatePaymentRequest,
}
use global_ledger_consistenc.Orm.{
  Account, Payment, OutboxEvent, Db, account_keyed, payment_keyed, event_keyed,
}
use global_ledger_consistenc.Externals.{Externals}
use global_ledger_consistenc.Session.{ok}
use global_ledger_consistenc.Payments.UseCase.{new_payment}
use global_ledger_consistenc.Payments.Strategies.{debit_available, credit_available, reserve}
use global_ledger_consistenc.Worker.Payload.{EventPayload, parse_payload}
use global_ledger_consistenc.Worker.Payload.RoundTrip.{PayloadRoundTrip}
use global_ledger_consistenc.Worker.Outbox.{
  in_event, mark_processed, mark_retry, lease_all, leased, fetch_batch_for_processing, batch_rows,
}
use global_ledger_consistenc.Worker.Outbox.Untouched.{fetch-SameMoney}
use global_ledger_consistenc.Worker.Handlers.{is_settled, with_status, debit_reserved}
use global_ledger_consistenc.Worker.Processor.{kill}
use global_ledger_consistenc.System.Effects.{move, stored_event}
use global_ledger_consistenc.System.Books.{+ℤ-zero}
use global_ledger_consistenc.System.Steps.{
  Reach, here, next, Step, IsOpen, IsProper, strong_paid, hybrid_paid, eventual_paid,
  leased as leased_step, reserved_settled, request_settled, request_rejected, dropped, retried,
  killed,
}
use global_ledger_consistenc.System.Reserves.{
  Link, Knows, fits, has-modify, reserved_of, claim, claims, held, reserved_of-modify,
  reserved_of-move, debit_available-ShiftsReserved, debit_reserved-ShiftsReserved,
  reserve-ShiftsReserved,
}
use global_ledger_consistenc.System.Reserves.Links.{
  Speaks, Speaks-later, Speaks-modify, new-Speaks, new-Extends, status-Extends, Extends,
}

-- Every account has reserved exactly what its reserved payments amount to.
abbrev pub IsBacked : List Account → List Payment → Type 0
IsBacked accounts payments = (id : String) → reserved_of id accounts ≡ claims id payments

pub record IsBooked (lib : Externals) (db : Db) : Type 0 where
  pub speaks : All (Speaks lib db.accounts db.payments) db.outbox_events
  pub backed : IsBacked db.accounts db.payments
  pub amounts : All (λ p. pos 0 ≤ℤ p.amount_cents) db.payments

pub has-move :
    (source_id destination_id : String) (f g : Account → Account) (accounts : List Account)
    → ((a : Account) → (f a).id ≡ a.id)
    → ((a : Account) → (g a).id ≡ a.id)
    → (id : String) → has id (move source_id f destination_id g accounts) ≡ has id accounts
has-move source_id destination_id f g accounts hf hg id =
    has-modify id destination_id g (modify source_id f accounts) hg
    ∙ has-modify id source_id f accounts hf

claims-new :
    (id : String) (p : Payment) (ps : List Payment)
    → claims id (p ∷ ps) ≡ claim id p +ℤ claims id ps
unfolding claims
claims-new id p ps = refl

claims-status :
    (id : String) (pay : Payment) (status : PaymentStatus) (ps : List Payment)
    → get pay.id ps ≡ some pay
    → claims id (modify pay.id (with_status status) ps) +ℤ claim id pay
      ≡ claims id ps +ℤ claim id (with_status status pay)
unfolding claims
claims-status id pay status ps h = sum_of-modify (claim id) pay.id (with_status status) pay ps h

-- A new payment, with what it sets aside.
pub new-IsBacked :
    (p : Payment) (rows rows' : List Account) (ps : List Payment)
    → IsBacked rows ps
    → ((id : String) → reserved_of id rows' ≡ reserved_of id rows +ℤ claim id p)
    → IsBacked rows' (p ∷ ps)
new-IsBacked p rows rows' ps h shift id =
    omega (int_laws, parts_of_eq (h id), parts_of_eq (shift id), parts_of_eq (claims-new id p ps))

-- A payment changes its status, and the accounts follow.
pub status-IsBacked :
    (pay : Payment) (status : PaymentStatus) (rows rows' : List Account) (ps : List Payment)
    → get pay.id ps ≡ some pay
    → IsBacked rows ps
    → ((id : String)
        → reserved_of id rows' +ℤ claim id pay
          ≡ reserved_of id rows +ℤ claim id (with_status status pay))
    → IsBacked rows' (modify pay.id (with_status status) ps)
status-IsBacked pay status rows rows' ps found h shift id = omega (
  int_laws,
  parts_of_eq (h id),
  parts_of_eq (shift id),
  parts_of_eq (claims-status id pay status ps found),
)

pub if_zero : (b : Bool) (n : ℤ) → n ≡ n +ℤ (if b then pos 0 else pos 0)
if_zero true n = sym (+ℤ-zero n)
if_zero false n = sym (+ℤ-zero n)

-- An open payment that a reserved event speaks of is reserved, one that a requested event speaks of
-- is received.
pub open_reserved :
    (status : PaymentStatus)
    → fits payment_reserved status ≡ true
    → is_settled status ≡ false
    → status ≡ reserved
open_reserved received h k = cc
open_reserved reserved h k = refl
open_reserved completed h k = cc
open_reserved rejected h k = cc

pub open_requested :
    (status : PaymentStatus)
    → fits payment_requested status ≡ true
    → is_settled status ≡ false
    → status ≡ received
open_requested received h k = refl
open_requested reserved h k = cc
open_requested completed h k = cc
open_requested rejected h k = cc

pub found_by_id :
    (id : String) (pay : Payment) (ps : List Payment)
    → get id ps ≡ some pay
    → get pay.id ps ≡ some pay
found_by_id id pay ps h = ground (arith, key_of-get id pay ps h, h)

module _ (lib : Externals) {event : OutboxEvent} {q : EventPayload} {pay : Payment} {db : Db}
    (booked : IsBooked lib db) (opened : IsOpen lib event q pay db) where
  -- What the event says of the payment that was loaded.
  pub speaks_of : (l : Link event.event_type q db.accounts db.payments) × (l.payment ≡ pay)
  speaks_of =
      let l =
        All-get (Speaks lib db.accounts db.payments) event.id event db.outbox_events booked.speaks
          opened.loaded q opened.parsed in
      (l, some-injective l.payment pay (sym l.found ∙ opened.found))

  pub speaks_source : pay.source_account_id ≡ q.source_account_id
  speaks_source =
      let (l, e) = speaks_of in ap (λ (x : Payment). x.source_account_id) (sym e) ∙ l.source

  pub speaks_amount : pay.amount_cents ≡ q.amount_cents
  speaks_amount = let (l, e) = speaks_of in ap (λ (x : Payment). x.amount_cents) (sym e) ∙ l.amount

  pub speaks_status : (t : OutboxEventType) → event.event_type ≡ t → fits t pay.status ≡ true
  speaks_status t h =
      let (l, e) = speaks_of in
      subst (λ x. fits x pay.status ≡ true) h
        (subst (λ (x : Payment). fits event.event_type x.status ≡ true) e l.state)
