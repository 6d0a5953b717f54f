-- ===== src/System/Reserves/Settles.antt =====
-- The settlement of a reserved payment by processor.py.
use global_ledger_consistenc.Base.{
  String, true, false, ◌≡◌, refl, sym, subst, ap, ◌∙◌, some, arith, ◌==◌, eq_refl, All-map, inl,
  inr, Bool-cases,
}
use global_ledger_consistenc.Int.{ℤ, pos, ltb_ℤ, ◌≤ℤ◌, sum_of}
use global_ledger_consistenc.Table.{get, All-get, get-modify, key_of-get}
use global_ledger_consistenc.Contracts.{
  hybrid, completed, reserved, received, rejected, PaymentStatus, payment_reserved,
}
use global_ledger_consistenc.Orm.{
  Account, Payment, OutboxEvent, Db, account_keyed, payment_keyed, event_keyed,
}
use global_ledger_consistenc.Externals.{Externals}
use global_ledger_consistenc.Session.{Session, ok}
use global_ledger_consistenc.Session.Entries.{EntryDraws}
use global_ledger_consistenc.Worker.{Metrics}
use global_ledger_consistenc.Worker.Payload.{EventPayload, parse_payload}
use global_ledger_consistenc.Worker.Payload.RoundTrip.{PayloadRoundTrip}
use global_ledger_consistenc.Worker.Handlers.{is_settled, with_status, debit_reserved, process}
use global_ledger_consistenc.System.Steps.{Reach}
use global_ledger_consistenc.System.Intake.{fresh}
use global_ledger_consistenc.System.Work.{
  applied, already, settle_reserved_ok, handlers_settled, handlers_open, process_hybrid_reserved,
}
use global_ledger_consistenc.System.Reserves.{
  Link, reserved_by, reserved_of, held, claim, claims, found_of_has, le-sum_of,
}
use global_ledger_consistenc.System.Reserves.Links.{Speaks}
use global_ledger_consistenc.System.Reserves.Backing.{IsBooked, open_reserved}
use global_ledger_consistenc.System.Reserves.Backing.Runs.{IsBooked-Reach}

held-nonneg : (status : PaymentStatus) (n : ℤ) → pos 0 ≤ℤ n → pos 0 ≤ℤ held status n
held-nonneg reserved n h = h
held-nonneg completed n h = omega arith
held-nonneg rejected n h = omega arith
held-nonneg received n h = omega arith

claim-nonneg : (id : String) (p : Payment) → pos 0 ≤ℤ p.amount_cents → pos 0 ≤ℤ claim id p
claim-nonneg id p h = elim (Bool-cases (p.source_account_id == id)) [
  | inl e ↦ rw e (held-nonneg p.status p.amount_cents h)
  | inr e ↦ rw e (omega arith)
]

le-not-ltb : (a b : ℤ) → b ≤ℤ a → ltb_ℤ a b ≡ false
le-not-ltb a b h = ground arith

-- A reserved payment's amount is covered by what its source has reserved.
reserved-covers :
    (lib : Externals) (db : Db) (id : String) (pay : Payment) (a : Account)
    → IsBooked lib db
    → get id db.payments ≡ some pay
    → pay.status ≡ reserved
    → get pay.source_account_id db.accounts ≡ some a
    → ltb_ℤ a.reserved_balance_cents pay.amount_cents ≡ false
unfolding reserved_of claims
reserved-covers lib db id pay a booked found status ha =
    let source = pay.source_account_id in
    let h =
      le-sum_of (claim source) id pay db.payments
        (All-map db.payments (λ p. claim-nonneg source p) booked.amounts) found in
    let funds : a.reserved_balance_cents ≡ sum_of (claim source) db.payments =
      ap reserved_by (sym ha) ∙ booked.backed source in
    let amount : claim source pay ≡ pay.amount_cents = rw (eq_refl source, status) refl in
    le-not-ltb a.reserved_balance_cents pay.amount_cents (
      subst (λ n. n ≤ℤ a.reserved_balance_cents) amount
        (subst (λ n. claim source pay ≤ℤ n) (sym funds) h))

module _ (lib : Externals) (d : EntryDraws) (event : OutboxEvent) (q : EventPayload) (db : Db)
    (m : Metrics) where
  -- Processing the event in hybrid mode raises nothing, and leaves its payment settled.
  abbrev pub Settles : Type 0
  Settles =
      (s : Session Metrics) × (process d event q hybrid (fresh db m) ≡ (ok tt, s))
      × ((p : Payment) × (get q.payment_id s.db.payments ≡ some p) × (is_settled p.status ≡ true))

  booked-Settles :
      IsBooked lib db
      → get event.id db.outbox_events ≡ some event
      → event.event_type ≡ payment_reserved
      → parse_payload lib event.payload_json ≡ ok q
      → Settles
  booked-Settles booked loaded type parsed =
      let l =
        subst (λ t. Link t q db.accounts db.payments) type
          (All-get (Speaks lib db.accounts db.payments) event.id event db.outbox_events
            booked.speaks loaded q parsed) in
      let start = process_hybrid_reserved d event q db m type in
      elim (Bool-cases (is_settled l.payment.status)) [
        | inl done ↦ (
          already d event q db m,
          start ∙ (handlers_settled d event q db m l.payment l.found done).0,
          (l.payment, l.found, done),
        )
        | inr open_one ↦
            let (a, ha) = found_of_has q.source_account_id db.accounts l.known.0 in
            let (b, hb) = found_of_has q.destination_account_id db.accounts l.known.1 in
            let status = open_reserved l.payment.status l.state open_one in
            (
              applied d event q l.payment db m debit_reserved,
              start
                  ∙ (handlers_open d event q db m l.payment l.found open_one).0
                  ∙ settle_reserved_ok d event q l.payment db m a b ha hb (
                      subst (λ n. ltb_ℤ a.reserved_balance_cents n ≡ false) l.amount
                        (reserved-covers lib db q.payment_id l.payment a booked l.found status
                          (ap (λ x. get x db.accounts) l.source ∙ ha))),
              (
                record l.payment { status = completed },
                ground (
                  arith,
                  l.found,
                  key_of-get q.payment_id l.payment db.payments l.found,
                  eq_refl q.payment_id,
                  get-modify l.payment.id q.payment_id (with_status completed) db.payments
                      (λ x. refl),
                ),
                refl,
              ),
            )
      ]

-- In every run from a state whose books agree, an event of hybrid mode can be settled whenever the
-- worker takes it: processing it in hybrid mode raises nothing, neither for the payment, the accounts
-- nor the reserved funds, and leaves its payment completed or rejected, provided that `json.loads`
-- gives back what `json.dumps` was given.
pub process-Settles :
    (lib : Externals) (d : EntryDraws) (event : OutboxEvent) (q : EventPayload) (m : Metrics)
    {start db : Db}
    → PayloadRoundTrip lib
    → IsBooked lib start
    → Reach lib start db
    → get event.id db.outbox_events ≡ some event
    → event.event_type ≡ payment_reserved
    → parse_payload lib event.payload_json ≡ ok q
    → Settles lib d event q db m
process-Settles lib d event q m law booked run loaded type parsed =
    booked-Settles lib d event q _ m (IsBooked-Reach lib law booked run) loaded type parsed
