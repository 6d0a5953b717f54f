-- ===== src/Worker/Outbox/Untouched.antt =====
-- What leasing a batch leaves alone.
use global_ledger_consistenc.Base.{ℕ, ◌+◌, String, Bool, ◌≡◌, refl, List, [], ◌∷◌}
use global_ledger_consistenc.Orm.{Db, OutboxEvent}
use global_ledger_consistenc.Externals.{Externals}
use global_ledger_consistenc.Worker.Outbox.{
  lease_all, fetch_batch_for_processing, batch_rows, in_event, leased,
}

-- Two databases differ in their outbox alone.
pub record SameMoney (a b : Db) : Type 0 where
  pub accounts : a.accounts ≡ b.accounts
  pub payments : a.payments ≡ b.payments
  pub idempotency_keys : a.idempotency_keys ≡ b.idempotency_keys
  pub ledger_entries : a.ledger_entries ≡ b.ledger_entries

pub lease_all-SameMoney :
    (until : ℕ) (batch : List OutboxEvent) (db : Db) → SameMoney (lease_all until batch db) db
unfolding lease_all
lease_all-SameMoney until [] db = record {
  accounts = refl;
  payments = refl;
  idempotency_keys = refl;
  ledger_entries = refl;
}
lease_all-SameMoney until (e ∷ batch) db =
    let h = lease_all-SameMoney until batch (in_event e.id (leased until) db) in
    record {
      accounts = h.accounts;
      payments = h.payments;
      idempotency_keys = h.idempotency_keys;
      ledger_entries = h.ledger_entries;
    }

pub fetch-SameMoney :
    (lib : Externals) (now processing_timeout batch_size : ℕ) (locked : String → Bool) (db : Db)
    → SameMoney (fetch_batch_for_processing lib now locked batch_size processing_timeout db) db
unfolding fetch_batch_for_processing
fetch-SameMoney lib now processing_timeout batch_size locked db =
    lease_all-SameMoney (now + processing_timeout) (batch_rows lib now locked batch_size db) db
