-- ===== src/Orm/Flush.antt =====
-- The flush of a commit: the added rows are inserted, each under the unique columns that
-- orm_models.py declares for its table. `none` is the `IntegrityError` of a taken value.
use global_ledger_consistenc.Base.{
  String, Bool, false, ◌||◌, Option, none, some, List, [], ◌∷◌, ◌==◌, if◌then◌else◌,
}
use global_ledger_consistenc.Table.{has}
use global_ledger_consistenc.Orm.{
  Payment, Db, Row, account_row, payment_row, key_row, event_row, entry_row, account_keyed,
  payment_keyed, key_keyed, event_keyed, entry_keyed,
}

-- The unique index on `payments.idempotency_key`.
unfoldable pub has_idempotency_key : String → List Payment → Bool
has_idempotency_key k [] = false
has_idempotency_key k (p ∷ rows) = p.idempotency_key == k || has_idempotency_key k rows

unfoldable pub insert_row : Row → Db → Option Db
insert_row (account_row a) db =
    if has a.id db.accounts then none else some (record db { accounts = a ∷ db.accounts })
insert_row (payment_row p) db =
    if has p.id db.payments || has_idempotency_key p.idempotency_key db.payments
    then none
    else some (record db { payments = p ∷ db.payments })
insert_row (key_row k) db =
    if has k.key db.idempotency_keys
    then none
    else some (record db { idempotency_keys = k ∷ db.idempotency_keys })
insert_row (event_row e) db =
    if has e.id db.outbox_events
    then none
    else some (record db { outbox_events = e ∷ db.outbox_events })
insert_row (entry_row e) db =
    if has e.id db.ledger_entries
    then none
    else some (record db { ledger_entries = e ∷ db.ledger_entries })

unfoldable pub flush : List Row → Db → Option Db
unfolding insert_row
flush [] db = some db
flush (row ∷ rows) db = elim (insert_row row db) [ none ↦ none | some db' ↦ flush rows db' ]
