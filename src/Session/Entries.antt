-- ===== src/Session/Entries.antt =====
-- The debit and credit rows of one transfer: `_add_ledger_entries` of create_payment.py and of
-- processor.py.
use Prim.Native.String.{◌++◌}
use global_ledger_consistenc.Base.{ℕ, String}
use global_ledger_consistenc.Int.{ℤ}
use global_ledger_consistenc.Contracts.{debit, credit}
use global_ledger_consistenc.Orm.{LedgerEntry, entry_row}
use global_ledger_consistenc.Session.{Action, add, ◌>>◌}

-- What one call draws for the two rows: `uuid4().hex`, and the clock's readings at the flush.
pub record EntryDraws : Type 0 where
  pub debit_hex : String
  pub credit_hex : String
  pub debit_at : ℕ
  pub credit_at : ℕ

module _ (d : EntryDraws) (payment_id source_id destination_id : String) (amount_cents : ℤ) where
  abbrev pub debit_entry : LedgerEntry
  debit_entry = record {
    id = "led-" ++ d.debit_hex;
    payment_id = payment_id;
    account_id = source_id;
    direction = debit;
    amount_cents = amount_cents;
    created_at = d.debit_at;
  }

  abbrev pub credit_entry : LedgerEntry
  credit_entry = record {
    id = "led-" ++ d.credit_hex;
    payment_id = payment_id;
    account_id = destination_id;
    direction = credit;
    amount_cents = amount_cents;
    created_at = d.credit_at;
  }

  unfoldable pub add_ledger_entries : {M E : Type 0} → Action M E (Unit {0})
  add_ledger_entries = do add (entry_row debit_entry); add (entry_row credit_entry)
