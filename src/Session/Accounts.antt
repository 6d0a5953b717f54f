-- ===== src/Session/Accounts.antt =====
-- `AccountsRepository.get_for_update` and `DomainRepository.get_account_for_update`, and the pair of
-- locks that both services take: create_payment.py and processor.py have the same `_lock_accounts`
-- but for the exception.
use Prim.Native.Nat.{Ordering}
use Prim.Native.String.{compare}
use global_ledger_consistenc.Base.{
  String, Bool, true, false, ◌≡◌, Option, none, some, arith, ◌==◌, eq_iff, if◌then◌else◌, ◌⊎◌, inl,
  inr,
}
use global_ledger_consistenc.Table.{get, key_of-get}
use global_ledger_consistenc.Orm.{Account, account_keyed}
use global_ledger_consistenc.Session.{Session, Action, ok, err, pure, raise, or_raise, read, ◌>>=◌}

-- Python's `<` on texts: by code points.
abbrev pub str_lt : String → String → Bool
str_lt a b = elim (compare a b) [ Ordering.lt ↦ true | _ ↦ false ]

-- `first_id, second_id = sorted([source_id, destination_id])`
unfoldable pub lock_order : String → String → String × String
lock_order source_id destination_id =
    if str_lt destination_id source_id
    then (destination_id, source_id)
    else (source_id, destination_id)

-- `{first.id: first, second.id: second}[id]`; `none` is a `KeyError`.
unfoldable pub by_id : Account → Account → String → Option Account
by_id first second id =
    if second.id == id then some second else if first.id == id then some first else none

module _ {M E : Type 0} (not_found key_error : E) where
  unfoldable pub pick :
      String → String → Option Account → Option Account → Action M E (Account × Account)
  pick source_id destination_id (some first) (some second) = do
    source ← or_raise (by_id first second source_id) key_error
    destination ← or_raise (by_id first second destination_id) key_error
    pure (source, destination)
  pick source_id destination_id _ _ = raise not_found

  -- `get_for_update`, a `SELECT ... FOR UPDATE` of one row.
  abbrev pub lock_row : String → Action M E (Option Account)
  lock_row id = do db ← read; pure (get id db.accounts)

  -- No other commit comes between the two locks: what others commit while they wait for the second is
  -- taken as committed before the first.
  unfoldable pub lock_pair : String → String → Action M E (Account × Account)
  unfolding pick lock_order by_id
  lock_pair source_id destination_id = do
    let ids = lock_order source_id destination_id
    first ← lock_row ids.0
    second ← lock_row ids.1
    pick source_id destination_id first second

  -- Two known accounts are returned as source and destination, whichever was locked first.
  pub lock_pair_found :
      (source_id destination_id : String) (a b : Account) (s : Session M)
      → get source_id s.db.accounts ≡ some a
      → get destination_id s.db.accounts ≡ some b
      → lock_pair source_id destination_id s ≡ (ok (a, b), s)
  unfolding lock_pair
  lock_pair_found source_id destination_id a b s ha hb = ground (
    arith,
    key_of-get source_id a s.db.accounts ha,
    key_of-get destination_id b s.db.accounts hb,
    eq_iff a.id source_id,
    eq_iff b.id source_id,
    eq_iff a.id destination_id,
    eq_iff b.id destination_id,
  )

  pub lock_pair_no_source :
      (source_id destination_id : String) (s : Session M)
      → get source_id s.db.accounts ≡ none
      → lock_pair source_id destination_id s ≡ (err not_found, s)
  unfolding lock_pair
  lock_pair_no_source source_id destination_id s h = ground arith

  pub lock_pair_no_destination :
      (source_id destination_id : String) (s : Session M)
      → get destination_id s.db.accounts ≡ none
      → lock_pair source_id destination_id s ≡ (err not_found, s)
  unfolding lock_pair
  lock_pair_no_destination source_id destination_id s h = ground arith

  -- If either account is unknown, the pair is refused.
  pub lock_pair_missing :
      (source_id destination_id : String) (s : Session M)
      → (get source_id s.db.accounts ≡ none) ⊎ (get destination_id s.db.accounts ≡ none)
      → lock_pair source_id destination_id s ≡ (err not_found, s)
  lock_pair_missing source_id destination_id s (inl h) =
      lock_pair_no_source source_id destination_id s h
  lock_pair_missing source_id destination_id s (inr h) =
      lock_pair_no_destination source_id destination_id s h
