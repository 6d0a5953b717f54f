-- ===== src/System/Postings.antt =====
-- The ledger's entries of each payment.
use global_ledger_consistenc.Base.{
  ℕ, suc, String, false, ◌≡◌, ◌∙◌, refl, ap, sym, Option, none, some, List, [], ◌∷◌, arith, ◌==◌,
  eq_iff, if◌then◌else◌,
}
use global_ledger_consistenc.Int.{ℤ}
use global_ledger_consistenc.Table.{get, has, modify, get-modify, key_of-get}
use global_ledger_consistenc.Contracts.{PaymentStatus, completed, rejected, reserved, received}
use global_ledger_consistenc.Orm.{Payment, LedgerEntry, OutboxEvent, Db, payment_keyed}
use global_ledger_consistenc.Externals.{Externals}
use global_ledger_consistenc.Ledger.{count_where}
use global_ledger_consistenc.Session.Entries.{EntryDraws}
use global_ledger_consistenc.Payments.UseCase.{new_payment}
use global_ledger_consistenc.Worker.Payload.{EventPayload}
use global_ledger_consistenc.Worker.Handlers.{is_settled, with_status}
use global_ledger_consistenc.Worker.Outbox.Untouched.{fetch-SameMoney}
use global_ledger_consistenc.System.Effects.{post}
use global_ledger_consistenc.System.Steps.{
  Reach, here, next, Step, IsOpen, strong_paid, hybrid_paid, eventual_paid, leased,
  reserved_settled, request_settled, request_rejected, redelivered, dropped, retried, killed,
}

-- How many entries stand for the payment.
unfoldable pub entries_of : String → List LedgerEntry → ℕ
entries_of id entries = count_where (λ e. e.payment_id == id) entries

abbrev entries_due : PaymentStatus → ℕ
entries_due completed = 2
entries_due _ = 0

-- Two for a completed payment, none for any other and for an id without a payment.
abbrev pub due : Option Payment → ℕ
due none = 0
due (some p) = entries_due p.status

abbrev pub IsPosted : Db → Type 0
IsPosted db = (id : String) → entries_of id db.ledger_entries ≡ due (get id db.payments)

entries_of-post :
    (id : String) (d : EntryDraws) (payment_id source_id destination_id : String) (amount : ℤ)
    (entries : List LedgerEntry)
    → entries_of id (post d payment_id source_id destination_id amount entries)
      ≡ (if payment_id == id then suc (suc (entries_of id entries)) else entries_of id entries)
unfolding entries_of
entries_of-post id d payment_id source_id destination_id amount entries = ground arith

-- A payment with a new id has nothing posted yet.
due-new :
    (id : String) (p : Payment) (rows : List Payment)
    → has p.id rows ≡ false
    → due (get id (p ∷ rows)) ≡ (if p.id == id then entries_due p.status else due (get id rows))
unfolding get
due-new id p rows free = ground arith

none_new : (id : String) (rows : List Payment) → has id rows ≡ false → get id rows ≡ none
unfolding get has
none_new id [] h = refl
none_new id (a ∷ rows) h = ground (arith, none_new id rows)

due-change :
    (id : String) (lib : Externals) (event : OutboxEvent) (payload : EventPayload) (p : Payment)
    (status : PaymentStatus) (db : Db)
    → IsOpen lib event payload p db
    → due (get id (modify p.id (with_status status) db.payments))
      ≡ (if payload.payment_id == id then entries_due status else due (get id db.payments))
due-change id lib event payload p status db is_open = ground (
  arith,
  is_open.found,
  key_of-get payload.payment_id p db.payments is_open.found,
  get-modify p.id id (with_status status) db.payments (λ a. refl),
  eq_iff p.id id,
  eq_iff payload.payment_id id,
)

-- An open payment has nothing posted.
open-entries_due : (status : PaymentStatus) → is_settled status ≡ false → entries_due status ≡ 0
open-entries_due completed h = cc
open-entries_due rejected h = refl
open-entries_due reserved h = refl
open-entries_due received h = refl

module _ (db : Db) (h : IsPosted db) where
  new-IsPosted :
      (p : Payment)
      → has p.id db.payments ≡ false
      → entries_due p.status ≡ 0
      → (id : String) → entries_of id db.ledger_entries ≡ due (get id (p ∷ db.payments))
  new-IsPosted p free none_due id = ground (
    arith,
    h id,
    h p.id,
    none_due,
    due-new id p db.payments free,
    none_new p.id db.payments free,
    eq_iff p.id id,
  )

  paid-IsPosted :
      (p : Payment) (d : EntryDraws) (source_id destination_id : String) (amount : ℤ)
      → has p.id db.payments ≡ false
      → p.status ≡ completed
      → (id : String)
      → entries_of id (post d p.id source_id destination_id amount db.ledger_entries)
        ≡ due (get id (p ∷ db.payments))
  paid-IsPosted p d source_id destination_id amount free paid id = ground (
    arith,
    h id,
    h p.id,
    paid,
    due-new id p db.payments free,
    none_new p.id db.payments free,
    entries_of-post id d p.id source_id destination_id amount db.ledger_entries,
    eq_iff p.id id,
  )

  module _ (lib : Externals) (event : OutboxEvent) (payload : EventPayload) (p : Payment)
      (is_open : IsOpen lib event payload p db) (id : String) where
    settled-IsPosted :
        (d : EntryDraws) (source_id destination_id : String) (amount : ℤ)
        → entries_of id
            (post d payload.payment_id source_id destination_id amount db.ledger_entries)
          ≡ due (get id (modify p.id (with_status completed) db.payments))
    settled-IsPosted d source_id destination_id amount = ground (
      arith,
      h id,
      is_open.found,
      open-entries_due p.status is_open.unsettled,
      due-change id lib event payload p completed db is_open,
      entries_of-post id d payload.payment_id source_id destination_id amount db.ledger_entries,
      eq_iff payload.payment_id id,
    )

    rejected-IsPosted :
        entries_of id db.ledger_entries
        ≡ due (get id (modify p.id (with_status rejected) db.payments))
    rejected-IsPosted = ground (
      arith,
      h id,
      is_open.found,
      open-entries_due p.status is_open.unsettled,
      due-change id lib event payload p rejected db is_open,
      eq_iff payload.payment_id id,
    )

IsPosted-Step : {lib : Externals} {db db' : Db} → IsPosted db → Step lib db db' → IsPosted db'
unfolding new_payment
IsPosted-Step h (strong_paid d r hash a b db _ _ _ _ new) id =
    paid-IsPosted db h (new_payment d r hash completed) d.entries r.source_account_id
      r.destination_account_id r.amount_cents new.id refl id
IsPosted-Step h (hybrid_paid d r hash t a b db _ _ _ _ new _) id =
    new-IsPosted db h (new_payment d r hash reserved) new.id refl id
IsPosted-Step h (eventual_paid d r hash t db _ new _) id =
    new-IsPosted db h (new_payment d r hash received) new.id refl id
IsPosted-Step {lib} h (leased now timeout size locked db) id =
    let s = fetch-SameMoney lib now timeout size locked db in
    ap (entries_of id) s.ledger_entries ∙ h id ∙ sym (ap (λ rows. due (get id rows)) s.payments)
IsPosted-Step {lib} h (reserved_settled d e q pay a b db _ is_open _ _ _) id =
    settled-IsPosted db h lib e q pay is_open id d q.source_account_id q.destination_account_id
      q.amount_cents
IsPosted-Step {lib} h (request_settled d e q pay a b db _ is_open _ _ _) id =
    settled-IsPosted db h lib e q pay is_open id d q.source_account_id q.destination_account_id
      q.amount_cents
IsPosted-Step {lib} h (request_rejected e q pay a db _ is_open _ _) id =
    rejected-IsPosted db h lib e q pay is_open id
IsPosted-Step h (redelivered e _ _ db _) id = h id
IsPosted-Step h (dropped e db _) id = h id
IsPosted-Step h (retried e at db _) id = h id
IsPosted-Step h (killed e db _) id = h id

-- If at the start every completed payment has two ledger entries and no other id has any, the same
-- holds after any run of the system, however often events are delivered.
pub IsPosted-Reach : {lib : Externals} {db db' : Db} → IsPosted db → Reach lib db db' → IsPosted db'
IsPosted-Reach h here = h
IsPosted-Reach h (next run st) = IsPosted-Step (IsPosted-Reach h run) st
