-- ===== src/System/Finality.antt =====
-- Completed and rejected payments, over the runs of the system.
use global_ledger_consistenc.Base.{String, true, ◌≡◌, ◌∙◌, refl, ap, some, arith, eq_iff}
use global_ledger_consistenc.Table.{get, modify, get_newer, get-modify, key_of-get}
use global_ledger_consistenc.Contracts.{PaymentStatus, completed, rejected, reserved, received}
use global_ledger_consistenc.Orm.{Payment, OutboxEvent, Db, payment_keyed}
use global_ledger_consistenc.Externals.{Externals}
use global_ledger_consistenc.Payments.UseCase.{new_payment}
use global_ledger_consistenc.Worker.Payload.{EventPayload}
use global_ledger_consistenc.Worker.Handlers.{is_settled, with_status}
use global_ledger_consistenc.Worker.Outbox.Untouched.{fetch-SameMoney}
use global_ledger_consistenc.System.Steps.{
  Reach, here, next, Step, IsOpen, strong_paid, hybrid_paid, eventual_paid, leased,
  reserved_settled, request_settled, request_rejected,
}

module _ {lib : Externals} (id : String) (p : Payment) (settled : is_settled p.status ≡ true) where
  -- A change of status meets an open payment, so it is not this one.
  other_payment :
      (event : OutboxEvent) (payload : EventPayload) (open_one : Payment) (status : PaymentStatus)
      (db : Db)
      → IsOpen lib event payload open_one db
      → get id db.payments ≡ some p
      → get id (modify open_one.id (with_status status) db.payments) ≡ some p
  other_payment event payload open_one status db is_open h = ground (
    arith,
    h,
    settled,
    is_open.found,
    is_open.unsettled,
    key_of-get payload.payment_id open_one db.payments is_open.found,
    get-modify open_one.id id (with_status status) db.payments (λ a. refl),
    eq_iff open_one.id id,
  )

  settled-Step :
      {db db' : Db} → Step lib db db' → get id db.payments ≡ some p → get id db'.payments ≡ some p
  settled-Step (strong_paid d r hash a b db _ _ _ _ new) h =
      get_newer id p (new_payment d r hash completed) db.payments h new.id
  settled-Step (hybrid_paid d r hash t a b db _ _ _ _ new _) h =
      get_newer id p (new_payment d r hash reserved) db.payments h new.id
  settled-Step (eventual_paid d r hash t db _ new _) h =
      get_newer id p (new_payment d r hash received) db.payments h new.id
  settled-Step (leased now timeout size locked db) h =
      ap (get id) (fetch-SameMoney lib now timeout size locked db).payments ∙ h
  settled-Step (reserved_settled d e q pay a b db _ is_open _ _ _) h =
      other_payment e q pay completed db is_open h
  settled-Step (request_settled d e q pay a b db _ is_open _ _ _) h =
      other_payment e q pay completed db is_open h
  settled-Step (request_rejected e q pay a db _ is_open _ _) h =
      other_payment e q pay rejected db is_open h
  settled-Step _ h = h

-- A payment that is completed or rejected never changes again: after any run of the system its row is
-- the same.
pub settled-Reach :
    {lib : Externals} {db db' : Db} (id : String) (p : Payment)
    → is_settled p.status ≡ true
    → get id db.payments ≡ some p
    → Reach lib db db'
    → get id db'.payments ≡ some p
settled-Reach id p settled h here = h
settled-Reach id p settled h (next run st) =
    settled-Step id p settled st (settled-Reach id p settled h run)
