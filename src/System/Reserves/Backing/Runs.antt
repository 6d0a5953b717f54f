-- ===== src/System/Reserves/Backing/Runs.antt =====
-- Reserved balances and reserved payments over the steps and runs of the system.
use global_ledger_consistenc.Base.{
  ℕ, ◌+◌, String, Bool, true, false, ◌≡◌, refl, ap, ◌∙◌, List, [], ◌∷◌, arith, ◌==◌, All,
  if◌then◌else◌,
}
use global_ledger_consistenc.Int.{ℤ, pos, neg, ◌+ℤ◌, ◌≤ℤ◌, int_laws, parts_of_eq}
use global_ledger_consistenc.Table.{has, modify, All-modify, has-get}
use global_ledger_consistenc.Contracts.{
  PaymentStatus, completed, rejected, reserved, received, payment_reserved, payment_requested,
  accepts-amount,
}
use global_ledger_consistenc.Orm.{
  Account, Payment, OutboxEvent, LedgerEntry, Db, account_keyed, payment_keyed, event_keyed,
}
use global_ledger_consistenc.Externals.{Externals}
use global_ledger_consistenc.Payments.UseCase.{new_payment}
use global_ledger_consistenc.Payments.Strategies.{debit_available, credit_available, reserve}
use global_ledger_consistenc.Worker.Payload.{EventPayload}
use global_ledger_consistenc.Worker.Payload.RoundTrip.{PayloadRoundTrip}
use global_ledger_consistenc.Worker.Outbox.{
  in_event, mark_processed, mark_retry, lease_all, leased, fetch_batch_for_processing, batch_rows,
}
use global_ledger_consistenc.Worker.Handlers.{is_settled, with_status, debit_reserved}
use global_ledger_consistenc.Worker.Processor.{kill}
use global_ledger_consistenc.System.Steps.{
  Reach, here, next, Step, IsOpen, strong_paid, hybrid_paid, eventual_paid, leased as leased_step,
  reserved_settled, request_settled, request_rejected, redelivered, dropped, retried, killed,
}
use global_ledger_consistenc.System.Reserves.{
  has-modify, reserved_of, claim, held, reserved_of-modify, reserved_of-move,
  debit_available-ShiftsReserved, debit_reserved-ShiftsReserved, reserve-ShiftsReserved,
}
use global_ledger_consistenc.System.Reserves.Links.{
  Speaks-later, Speaks-modify, new-Speaks, new-Extends, status-Extends,
}
use global_ledger_consistenc.System.Reserves.Backing.{
  IsBooked, has-move, new-IsBacked, status-IsBacked, if_zero, open_reserved, open_requested,
  found_by_id, speaks_source, speaks_amount, speaks_status,
}

-- A payment's amount stays what it was.
amounts-modify :
    (id : String) (status : PaymentStatus) (ps : List Payment)
    → All (λ (p : Payment). pos 0 ≤ℤ p.amount_cents) ps
    → All (λ (p : Payment). pos 0 ≤ℤ p.amount_cents) (modify id (with_status status) ps)
amounts-modify id status ps h =
    All-modify (λ (p : Payment). pos 0 ≤ℤ p.amount_cents) id (with_status status) ps (λ p _ k. k) h

-- What a payment claims, by what is known of it.
claim_of :
    (id source_id : String) (n : ℤ) (status : PaymentStatus) (pay : Payment)
    → pay.source_account_id ≡ source_id
    → pay.amount_cents ≡ n
    → pay.status ≡ status
    → claim id pay ≡ (if source_id == id then held status n else pos 0)
claim_of id source_id n status pay hs hn ht = rw (hs, hn, ht) refl

-- A reserved amount is released by its settlement.
released :
    (taken : Bool) (n after before claimed settled : ℤ)
    → after ≡ before +ℤ (if taken then neg n else pos 0)
    → claimed ≡ (if taken then n else pos 0)
    → settled ≡ (if taken then pos 0 else pos 0)
    → after +ℤ claimed ≡ before +ℤ settled
released true n after before claimed settled h k l =
    omega (int_laws, parts_of_eq h, parts_of_eq k, parts_of_eq l)
released false n after before claimed settled h k l =
    omega (int_laws, parts_of_eq h, parts_of_eq k, parts_of_eq l)

-- Nothing was reserved, and nothing is.
untouched :
    (taken : Bool) (after before claimed settled : ℤ)
    → after ≡ before +ℤ (if taken then pos 0 else pos 0)
    → claimed ≡ (if taken then pos 0 else pos 0)
    → settled ≡ (if taken then pos 0 else pos 0)
    → after +ℤ claimed ≡ before +ℤ settled
untouched true after before claimed settled h k l =
    omega (int_laws, parts_of_eq h, parts_of_eq k, parts_of_eq l)
untouched false after before claimed settled h k l =
    omega (int_laws, parts_of_eq h, parts_of_eq k, parts_of_eq l)

module _ (lib : Externals) {event : OutboxEvent} {q : EventPayload} {pay : Payment} {db : Db}
    (booked : IsBooked lib db) (opened : IsOpen lib event q pay db) where
  -- The status of the event's payment changes, and the event is processed.
  closed-IsBooked :
      (status : PaymentStatus) (rows : List Account) (entries : List LedgerEntry)
      → is_settled status ≡ true
      → ((id : String) → has id rows ≡ has id db.accounts)
      → ((id : String)
          → reserved_of id rows +ℤ claim id pay
            ≡ reserved_of id db.accounts +ℤ claim id (with_status status pay))
      → IsBooked lib (record db {
        accounts = rows;
        payments = modify pay.id (with_status status) db.payments;
        outbox_events = modify event.id mark_processed db.outbox_events;
        ledger_entries = entries;
      })
  closed-IsBooked status rows entries settled same shift = record {
    speaks =
        Speaks-modify lib rows (modify pay.id (with_status status) db.payments) event.id
          mark_processed db.outbox_events (λ e. unfold mark_processed in refl)
          (λ e. unfold mark_processed in refl)
          (Speaks-later lib db.outbox_events
            (status-Extends db.accounts rows db.payments pay.id status same settled) booked.speaks);
    backed =
        status-IsBacked pay status db.accounts rows db.payments
          (found_by_id q.payment_id pay db.payments opened.found) booked.backed shift;
    amounts = amounts-modify pay.id status db.payments booked.amounts;
  }

-- A change of an event that keeps its payload and type.
pub event-IsBooked :
    (lib : Externals) (id : String) (f : OutboxEvent → OutboxEvent) (db : Db)
    → ((e : OutboxEvent) → (f e).payload_json ≡ e.payload_json)
    → ((e : OutboxEvent) → (f e).event_type ≡ e.event_type)
    → IsBooked lib db
    → IsBooked lib (in_event id f db)
event-IsBooked lib id f db payload type h = record {
  speaks = Speaks-modify lib db.accounts db.payments id f db.outbox_events payload type h.speaks;
  backed = h.backed;
  amounts = h.amounts;
}

lease_all-IsBooked :
    (lib : Externals) (until : ℕ) (batch : List OutboxEvent) (db : Db)
    → IsBooked lib db
    → IsBooked lib (lease_all until batch db)
unfolding lease_all
lease_all-IsBooked lib until [] db h = h
lease_all-IsBooked lib until (e ∷ batch) db h =
    lease_all-IsBooked lib until batch (in_event e.id (leased until) db)
      (event-IsBooked lib e.id (leased until) db (λ e. refl) (λ e. refl) h)

module _ (lib : Externals) (law : PayloadRoundTrip lib) where
  IsBooked-Step : {db db' : Db} → IsBooked lib db → Step lib db db' → IsBooked lib db'
  unfolding new_payment
  IsBooked-Step h (strong_paid d r hash a b db proper ha hb hc new) =
      let p = new_payment d r hash completed in
      let same =
        has-move r.source_account_id r.destination_account_id (debit_available r.amount_cents)
          (credit_available r.amount_cents) db.accounts (λ x. refl) (λ x. refl) in
      record {
        speaks =
            Speaks-later lib db.outbox_events (new-Extends db.accounts _ db.payments p same new.id)
              h.speaks;
        backed = new-IsBacked p db.accounts _ db.payments h.backed (λ id.
            reserved_of-move r.amount_cents r.source_account_id r.destination_account_id id a b
              db.accounts (debit_available-ShiftsReserved r.amount_cents) ha hb);
        amounts = (omega (arith, (accepts-amount r proper.accepted).0), h.amounts);
      }
  IsBooked-Step h (hybrid_paid d r hash t a b db proper ha hb hc new _) =
      let p = new_payment d r hash reserved in
      let same = λ (id : String).
        has-modify id r.source_account_id (reserve r.amount_cents) db.accounts (λ x. refl) in
      record {
        speaks = (
          new-Speaks lib law d r hash t reserved payment_reserved _ db.payments proper refl
              (λ q hs hd. (
                same q.source_account_id
                    ∙ ap (λ x. has x db.accounts) hs
                    ∙ has-get r.source_account_id db.accounts a ha,
                same q.destination_account_id
                    ∙ ap (λ x. has x db.accounts) hd
                    ∙ has-get r.destination_account_id db.accounts b hb,
              )),
          Speaks-later lib db.outbox_events (new-Extends db.accounts _ db.payments p same new.id)
              h.speaks,
        );
        backed = new-IsBacked p db.accounts _ db.payments h.backed (λ id.
            reserved_of-modify (reserve-ShiftsReserved r.amount_cents) r.source_account_id id a
              db.accounts ha);
        amounts = (omega (arith, (accepts-amount r proper.accepted).0), h.amounts);
      }
  IsBooked-Step h (eventual_paid d r hash t db proper new _) =
      let p = new_payment d r hash received in
      record {
        speaks = (
          new-Speaks lib law d r hash t received payment_requested db.accounts db.payments proper
              refl (λ q _ _. tt),
          Speaks-later lib db.outbox_events
              (new-Extends db.accounts db.accounts db.payments p (λ id. refl) new.id) h.speaks,
        );
        backed =
            new-IsBacked p db.accounts db.accounts db.payments h.backed
              (λ id. if_zero (r.source_account_id == id) (reserved_of id db.accounts));
        amounts = (omega (arith, (accepts-amount r proper.accepted).0), h.amounts);
      }
  IsBooked-Step h (leased_step now timeout size locked db) =
      unfold fetch_batch_for_processing in
      lease_all-IsBooked lib (now + timeout) (batch_rows lib now locked size db) db h
  IsBooked-Step h (reserved_settled d e q pay a b db type opened ha hb hc) =
      closed-IsBooked lib h opened completed _ _ refl
        (has-move q.source_account_id q.destination_account_id (debit_reserved q.amount_cents)
          (credit_available q.amount_cents) db.accounts (λ x. refl) (λ x. refl))
        (λ id.
          let n = q.amount_cents in
          released (q.source_account_id == id) n _ _ _ _
            (reserved_of-move n q.source_account_id q.destination_account_id id a b db.accounts
              (debit_reserved-ShiftsReserved n) ha hb)
            (claim_of id q.source_account_id n reserved pay (speaks_source lib h opened)
              (speaks_amount lib h opened)
              (open_reserved pay.status (speaks_status lib h opened payment_reserved type)
                opened.unsettled))
            (claim_of id q.source_account_id n completed (with_status completed pay)
              (speaks_source lib h opened) (speaks_amount lib h opened) refl))
  IsBooked-Step h (request_settled d e q pay a b db type opened ha hb hc) =
      closed-IsBooked lib h opened completed _ _ refl
        (has-move q.source_account_id q.destination_account_id (debit_available q.amount_cents)
          (credit_available q.amount_cents) db.accounts (λ x. refl) (λ x. refl))
        (λ id.
          let n = q.amount_cents in
          untouched (q.source_account_id == id) _ _ _ _
            (reserved_of-move n q.source_account_id q.destination_account_id id a b db.accounts
              (debit_available-ShiftsReserved n) ha hb)
            (claim_of id q.source_account_id n received pay (speaks_source lib h opened)
              (speaks_amount lib h opened)
              (open_requested pay.status (speaks_status lib h opened payment_requested type)
                opened.unsettled))
            (claim_of id q.source_account_id n completed (with_status completed pay)
              (speaks_source lib h opened) (speaks_amount lib h opened) refl))
  IsBooked-Step h (request_rejected e q pay a db type opened ha hc) =
      closed-IsBooked lib h opened rejected db.accounts db.ledger_entries refl (λ id. refl)
        (λ id.
          let n = q.amount_cents in
          untouched (q.source_account_id == id) _ _ _ _
            (if_zero (q.source_account_id == id) (reserved_of id db.accounts))
            (claim_of id q.source_account_id n received pay (speaks_source lib h opened)
              (speaks_amount lib h opened)
              (open_requested pay.status (speaks_status lib h opened payment_requested type)
                opened.unsettled))
            (claim_of id q.source_account_id n rejected (with_status rejected pay)
              (speaks_source lib h opened) (speaks_amount lib h opened) refl))
  IsBooked-Step h (redelivered e _ _ db _) =
      event-IsBooked lib e.id mark_processed db (λ x. unfold mark_processed in refl)
        (λ x. unfold mark_processed in refl) h
  IsBooked-Step h (dropped e db _) =
      event-IsBooked lib e.id mark_processed db (λ x. unfold mark_processed in refl)
        (λ x. unfold mark_processed in refl) h
  IsBooked-Step h (retried e at db _) =
      event-IsBooked lib e.id (mark_retry at) db (λ x. unfold mark_retry in ground arith)
        (λ x. unfold mark_retry in ground arith) h
  IsBooked-Step h (killed e db _) = event-IsBooked lib e.id kill db (λ x. refl) (λ x. refl) h

  -- If at the start each account has reserved what its reserved payments amount to, every event speaks
  -- truly of its payment and no payment is for a negative amount, the same holds after any run of the
  -- system, provided that `json.loads` gives back what `json.dumps` was given.
  pub IsBooked-Reach : {db db' : Db} → IsBooked lib db → Reach lib db db' → IsBooked lib db'
  IsBooked-Reach h here = h
  IsBooked-Reach h (next run st) = IsBooked-Step (IsBooked-Reach h run) st
