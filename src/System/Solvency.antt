-- ===== src/System/Solvency.antt =====
-- The signs of balances, over the runs of the system.
use Prim.Native.String.{◌++◌}
use mathlib.Core.Option.{some-injective}
use global_ledger_consistenc.Base.{
  ℕ, ◌+◌, String, ◌≡◌, refl, sym, subst, ap, ◌∙◌, Option, some, List, [], ◌∷◌, arith, All,
}
use global_ledger_consistenc.Int.{ℤ, pos, ◌≤ℤ◌, int_laws}
use global_ledger_consistenc.Table.{get, modify, All-modify, All-get}
use global_ledger_consistenc.Contracts.{
  CreatePaymentRequest, accepts-amount, accepts-ids, PaymentStatus, OutboxEventType,
}
use global_ledger_consistenc.Orm.{Account, OutboxEvent, Db, account_keyed, event_keyed}
use global_ledger_consistenc.Externals.{Externals}
use global_ledger_consistenc.Session.{ok, ok-injective}
use global_ledger_consistenc.Payments.UseCase.{Draws, new_payment, new_event}
use global_ledger_consistenc.Payments.Strategies.{debit_available, credit_available, reserve}
use global_ledger_consistenc.Worker.Payload.{EventPayload, parse_payload}
use global_ledger_consistenc.Worker.Payload.RoundTrip.{
  PayloadRoundTrip, parse-add_outbox, nonempty_pay, nonempty_within,
}
use global_ledger_consistenc.Worker.Outbox.{
  in_event, mark_processed, mark_retry, lease_all, leased, fetch_batch_for_processing, batch_rows,
}
use global_ledger_consistenc.Worker.Handlers.{debit_reserved}
use global_ledger_consistenc.Worker.Processor.{kill}
use global_ledger_consistenc.System.Effects.{move, stored_event}
use global_ledger_consistenc.System.Steps.{
  Step, Reach, IsProper, strong_paid, hybrid_paid, eventual_paid, leased as leased_step,
  reserved_settled, request_settled, request_rejected, redelivered, dropped, retried, killed, here,
  next,
}

-- Neither balance is negative.
abbrev pub IsNonneg : Account → Type 0
IsNonneg a = (pos 0 ≤ℤ a.available_balance_cents) × (pos 0 ≤ℤ a.reserved_balance_cents)

-- An event asks for no negative amount.
abbrev pub AsksNonneg : Externals → OutboxEvent → Type 0
AsksNonneg lib e =
    (p : EventPayload) → parse_payload lib e.payload_json ≡ ok p → pos 0 ≤ℤ p.amount_cents

pub record IsSolvent (lib : Externals) (db : Db) : Type 0 where
  pub accounts : All IsNonneg db.accounts
  pub events : All (AsksNonneg lib) db.outbox_events

-- A transfer that the source covers keeps every balance from going below zero.
move-IsNonneg :
    (f : ℤ → Account → Account) (n : ℤ) (source_id destination_id : String) {a : Account}
    (accounts : List Account)
    → pos 0 ≤ℤ n
    → get source_id accounts ≡ some a
    → (IsNonneg a → IsNonneg (f n a))
    → All IsNonneg accounts
    → All IsNonneg (move source_id (f n) destination_id (credit_available n) accounts)
move-IsNonneg f n source_id destination_id accounts pn ha covered h =
    All-modify IsNonneg destination_id (credit_available n) (modify source_id (f n) accounts)
      (λ b _ hb. (omega (int_laws, hb), omega (int_laws, hb)))
      (All-modify IsNonneg source_id (f n) accounts
        (λ b e hb.
          subst (λ x. IsNonneg (f n x)) (some-injective _ _ (sym ha ∙ e))
            (covered (subst IsNonneg (some-injective _ _ (sym e ∙ ha)) hb)))
        h)

reserve-IsNonneg :
    (n : ℤ) (a : Account)
    → pos 1 ≤ℤ n
    → n ≤ℤ a.available_balance_cents
    → IsNonneg a
    → IsNonneg (reserve n a)
reserve-IsNonneg n a hn hc h = (omega (int_laws, hn), omega (int_laws, hn))

module _ (lib : Externals) (law : PayloadRoundTrip lib) where
  new_event-AsksNonneg :
      (d : Draws) (r : CreatePaymentRequest) (hash : String) (t : Option String)
      (status : PaymentStatus) (type : OutboxEventType)
      → IsProper r
      → AsksNonneg lib (stored_event lib d r hash t status type)
  unfolding new_event new_payment
  new_event-AsksNonneg d r hash t status type proper p h =
      let (hs, hd) = accepts-ids r proper.accepted in
      let e =
        parse-add_outbox lib law ("pay-" ++ d.payment_hex) r.source_account_id
          r.destination_account_id r.amount_cents t (nonempty_pay d.payment_hex)
          (nonempty_within r.source_account_id hs) (nonempty_within r.destination_account_id hd) in
      subst (λ (q : EventPayload). pos 0 ≤ℤ q.amount_cents) (ok-injective (sym e ∙ h))
        (omega (arith, (accepts-amount r proper.accepted).0))

  -- The changes to an event that keep what it asks for.
  same_request :
      (id : String) (f : OutboxEvent → OutboxEvent) (db : Db)
      → ((e : OutboxEvent) → (f e).payload_json ≡ e.payload_json)
      → IsSolvent lib db
      → All (AsksNonneg lib) (modify id f db.outbox_events)
  same_request id f db keep h =
      All-modify (AsksNonneg lib) id f db.outbox_events
        (λ e _ he. λ p q. he p (ap (parse_payload lib) (sym (keep e)) ∙ q)) h.events

  lease_all-AsksNonneg :
      (until : ℕ) (batch : List OutboxEvent) (db : Db)
      → IsSolvent lib db
      → IsSolvent lib (lease_all until batch db)
  unfolding lease_all
  lease_all-AsksNonneg until [] db h = h
  lease_all-AsksNonneg until (e ∷ batch) db h =
      lease_all-AsksNonneg until batch (in_event e.id (leased until) db) (record {
        accounts = h.accounts;
        events = same_request e.id (leased until) db (λ _. refl) h;
      })

  IsSolvent-Step : {db db' : Db} → Step lib db db' → IsSolvent lib db → IsSolvent lib db'
  IsSolvent-Step (strong_paid d r hash a b db proper ha hb hc _) h = record {
    accounts =
        move-IsNonneg debit_available r.amount_cents r.source_account_id r.destination_account_id
          db.accounts (omega (arith, (accepts-amount r proper.accepted).0)) ha
          (λ ia. (omega (int_laws, ia), ia.1)) h.accounts;
    events = h.events;
  }
  IsSolvent-Step (hybrid_paid d r hash t a b db proper ha hb hc _ _) h = record {
    accounts =
        All-modify IsNonneg r.source_account_id (reserve r.amount_cents) db.accounts
          (λ x e hx.
            subst (λ y. IsNonneg (reserve r.amount_cents y)) (some-injective a x (sym ha ∙ e))
              (reserve-IsNonneg r.amount_cents a (accepts-amount r proper.accepted).0 hc
                (subst IsNonneg (some-injective x a (sym e ∙ ha)) hx)))
          h.accounts;
    events = (new_event-AsksNonneg d r hash t _ _ proper, h.events);
  }
  IsSolvent-Step (eventual_paid d r hash t db proper _ _) h = record {
    accounts = h.accounts;
    events = (new_event-AsksNonneg d r hash t _ _ proper, h.events);
  }
  IsSolvent-Step (leased_step now timeout size locked db) h =
      unfold fetch_batch_for_processing in
      lease_all-AsksNonneg (now + timeout) (batch_rows lib now locked size db) db h
  IsSolvent-Step (reserved_settled d e p pay a b db _ op ha hb hc) h = record {
    accounts =
        move-IsNonneg debit_reserved p.amount_cents p.source_account_id p.destination_account_id
          db.accounts
          (All-get (AsksNonneg lib) e.id e db.outbox_events h.events op.loaded p op.parsed) ha
          (λ ia. (ia.0, omega (int_laws, ia))) h.accounts;
    events = same_request e.id mark_processed db (λ _. unfold mark_processed in refl) h;
  }
  IsSolvent-Step (request_settled d e p pay a b db _ op ha hb hc) h = record {
    accounts =
        move-IsNonneg debit_available p.amount_cents p.source_account_id p.destination_account_id
          db.accounts
          (All-get (AsksNonneg lib) e.id e db.outbox_events h.events op.loaded p op.parsed) ha
          (λ ia. (omega (int_laws, ia), ia.1)) h.accounts;
    events = same_request e.id mark_processed db (λ _. unfold mark_processed in refl) h;
  }
  IsSolvent-Step (request_rejected e p pay a db _ _ _ _) h = record {
    accounts = h.accounts;
    events = same_request e.id mark_processed db (λ _. unfold mark_processed in refl) h;
  }
  IsSolvent-Step (redelivered e _ _ db _) h = record {
    accounts = h.accounts;
    events = same_request e.id mark_processed db (λ _. unfold mark_processed in refl) h;
  }
  IsSolvent-Step (dropped e db _) h = record {
    accounts = h.accounts;
    events = same_request e.id mark_processed db (λ _. unfold mark_processed in refl) h;
  }
  IsSolvent-Step (retried e at db _) h = record {
    accounts = h.accounts;
    events = same_request e.id (mark_retry at) db (λ x. unfold mark_retry in ground arith) h;
  }
  IsSolvent-Step (killed e db _) h = record {
    accounts = h.accounts;
    events = same_request e.id kill db (λ _. refl) h;
  }

-- In every run of the system that starts with no negative balance and no outbox event for a negative
-- amount, no available or reserved balance of any account is ever negative, provided that `json.loads`
-- gives back what `json.dumps` was given.
pub IsSolvent-Reach :
    (lib : Externals) {db db' : Db}
    → PayloadRoundTrip lib
    → IsSolvent lib db
    → Reach lib db db'
    → IsSolvent lib db'
IsSolvent-Reach lib law h here = h
IsSolvent-Reach lib law h (next r st) = IsSolvent-Step lib law st (IsSolvent-Reach lib law h r)
