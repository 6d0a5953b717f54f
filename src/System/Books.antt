-- ===== src/System/Books.antt =====
-- What an account owns against what the ledger says it received: the books.
pub mod Runs
use mathlib.Core.Option
use global_ledger_consistenc.Base.{
  ℕ, String, Bool, true, false, ◌≡◌, refl, sym, ap, ◌∙◌, inl, inr, Option, none, some, List, [],
  ◌∷◌, arith, ◌==◌, eq_iff, if◌then◌else◌, Bool-cases, Option-cases,
}
use global_ledger_consistenc.Int.{
  ℤ, pos, pos_part, neg_part, neg, ◌+ℤ◌, ◌-ℤ◌, sum_of, int_laws, +ℤ_parts, -ℤ_parts, neg_parts,
  eq_of_parts, parts_of_eq,
}
use global_ledger_consistenc.Table.{get, modify, get-modify, sum_of-modify}
use global_ledger_consistenc.Orm.{Account, LedgerEntry, Db, account_keyed}
use global_ledger_consistenc.Ledger.{signed_amount, ledger_imbalance}
use global_ledger_consistenc.Session.Entries.{EntryDraws}
use global_ledger_consistenc.Externals.{Externals}
use global_ledger_consistenc.Payments.Strategies.{debit_available, credit_available, reserve}
use global_ledger_consistenc.Worker.Handlers.{debit_reserved}
use global_ledger_consistenc.System.Effects.{move, post}

-- Both balances of an account.
abbrev pub owned : Account → ℤ
owned a = a.available_balance_cents +ℤ a.reserved_balance_cents

abbrev pub owned_by : Option Account → ℤ
owned_by none = pos 0
owned_by (some a) = owned a

-- What the account with this id owns.
unfoldable pub holding : String → List Account → ℤ
holding id accounts = owned_by (get id accounts)

-- Credits less debits, for the entries of one account.
abbrev pub received_by : String → LedgerEntry → ℤ
received_by id e = if e.account_id == id then neg (signed_amount e) else pos 0

unfoldable pub posted : String → List LedgerEntry → ℤ
posted id entries = sum_of (received_by id) entries

-- What the account would own had the ledger no entry: its opening balance.
unfoldable pub opening : String → Db → ℤ
opening id db = holding id db.accounts -ℤ posted id db.ledger_entries

-- All the money in the accounts.
unfoldable pub total_money : Db → ℤ
total_money db = sum_of owned db.accounts

-- Each way to change an account shifts what it owns by a fixed amount and keeps its id.
pub record Shifts (f : Account → Account) (n : ℤ) : Type 0 where
  pub id : (a : Account) → (f a).id ≡ a.id
  pub owned : (a : Account) → owned (f a) ≡ owned a +ℤ n

pub debit_available-Shifts : (n : ℤ) → Shifts (debit_available n) (neg n)
debit_available-Shifts n = record { id = λ a. refl; owned = λ a. omega int_laws }

pub debit_reserved-Shifts : (n : ℤ) → Shifts (debit_reserved n) (neg n)
debit_reserved-Shifts n = record { id = λ a. refl; owned = λ a. omega int_laws }

pub credit_available-Shifts : (n : ℤ) → Shifts (credit_available n) n
credit_available-Shifts n = record { id = λ a. refl; owned = λ a. omega int_laws }

pub reserve-Shifts : (n : ℤ) → Shifts (reserve n) (pos 0)
reserve-Shifts n = record { id = λ a. refl; owned = λ a. omega int_laws }

pub +ℤ-zero : (a : ℤ) → a +ℤ pos 0 ≡ a
+ℤ-zero a = omega int_laws

module _ {f : Account → Account} {n : ℤ} (sh : Shifts f n) where
  pub holding-modify :
      (k id : String) (a : Account) (accounts : List Account)
      → get k accounts ≡ some a
      → holding id (modify k f accounts) ≡ holding id accounts +ℤ (if k == id then n else pos 0)
  unfolding holding
  holding-modify k id a accounts h = ground (
    arith,
    get-modify k id f accounts sh.id,
    eq_iff k id,
    sh.owned a,
    h,
    +ℤ-zero (holding id accounts),
  )

  pub total-modify :
      (k : String) (a : Account) (accounts : List Account)
      → get k accounts ≡ some a
      → sum_of owned (modify k f accounts) ≡ sum_of owned accounts +ℤ n
  total-modify k a accounts h =
      omega (int_laws, parts_of_eq (sum_of-modify owned k f a accounts h), parts_of_eq (sh.owned a))

-- A changed account is still there, under the same id.
pub found-modify :
    (k j : String) (f : Account → Account) (b : Account) (accounts : List Account)
    → ((a : Account) → (f a).id ≡ a.id)
    → get j accounts ≡ some b
    → get j (modify k f accounts) ≡ some (if k == j then f b else b)
found-modify k j f b accounts keep h = ground (arith, get-modify k j f accounts keep, eq_iff k j, h)

module _ {f g : Account → Account} {m n : ℤ} (sf : Shifts f m) (sg : Shifts g n) where
  pub holding-move :
      (source_id destination_id id : String) (a b : Account) (accounts : List Account)
      → get source_id accounts ≡ some a
      → get destination_id accounts ≡ some b
      → holding id (move source_id f destination_id g accounts)
        ≡ holding id accounts
          +ℤ (if source_id == id then m else pos 0)
          +ℤ (if destination_id == id then n else pos 0)
  holding-move source_id destination_id id a b accounts ha hb = rw (
    holding-modify sg destination_id id (if source_id == destination_id then f b else b)
        (modify source_id f accounts) (found-modify source_id destination_id f b accounts sf.id hb),
    holding-modify sf source_id id a accounts ha,
  )

  pub total-move :
      (source_id destination_id : String) (a b : Account) (accounts : List Account)
      → get source_id accounts ≡ some a
      → get destination_id accounts ≡ some b
      → sum_of owned (move source_id f destination_id g accounts) ≡ sum_of owned accounts +ℤ m +ℤ n
  total-move source_id destination_id a b accounts ha hb = rw (
    total-modify sg destination_id (if source_id == destination_id then f b else b)
        (modify source_id f accounts) (found-modify source_id destination_id f b accounts sf.id hb),
    total-modify sf source_id a accounts ha,
  )

-- A transfer with its two entries leaves every opening balance, whoever takes part.
pub opening-transfer :
    {f g : Account → Account} (n : ℤ) (d : EntryDraws)
    (payment_id source_id destination_id id : String) (a b : Account) (accounts : List Account)
    (entries : List LedgerEntry)
    → Shifts f (neg n)
    → Shifts g n
    → get source_id accounts ≡ some a
    → get destination_id accounts ≡ some b
    → holding id (move source_id f destination_id g accounts)
        -ℤ posted id (post d payment_id source_id destination_id n entries)
      ≡ holding id accounts -ℤ posted id entries
unfolding posted
opening-transfer n d payment_id source_id destination_id id a b accounts entries sf sg ha hb =
    rw (holding-move sf sg source_id destination_id id a b accounts ha hb)
      (elim (Bool-cases (source_id == id)) [
        | inl s ↦ elim (Bool-cases (destination_id == id)) [
          | inl e ↦ rw (s, e) (omega int_laws)
          | inr e ↦ rw (s, e) (omega int_laws)
        ]
        | inr s ↦ elim (Bool-cases (destination_id == id)) [
          | inl e ↦ rw (s, e) (omega int_laws)
          | inr e ↦ rw (s, e) (omega int_laws)
        ]
      ])

pub total-transfer :
    {f g : Account → Account} (n : ℤ) (source_id destination_id : String) (a b : Account)
    (accounts : List Account)
    → Shifts f (neg n)
    → Shifts g n
    → get source_id accounts ≡ some a
    → get destination_id accounts ≡ some b
    → sum_of owned (move source_id f destination_id g accounts) ≡ sum_of owned accounts
total-transfer n source_id destination_id a b accounts sf sg ha hb =
    rw (total-move sf sg source_id destination_id a b accounts ha hb) (omega int_laws)
