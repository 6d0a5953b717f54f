-- ===== src/System/Intake/Creates.antt =====
-- The commits of a new payment, in each mode of mode_strategies.py.
use global_ledger_consistenc.Base.{
  String, Bool, false, ◌≡◌, inl, inr, Option, some, Option-cases, Bool-cases, ◌≢◌, subst, sym,
}
use global_ledger_consistenc.Int.{ltb_ℤ}
use global_ledger_consistenc.Table.{get}
use global_ledger_consistenc.Contracts.{
  CreatePaymentRequest, PaymentResponse, ConsistencyMode, strong, hybrid, eventual, reserved,
  received, completed, payment_reserved, payment_requested,
}
use global_ledger_consistenc.System.Effects.{move}
use global_ledger_consistenc.Table.{modify}
use global_ledger_consistenc.Payments.Strategies.{reserve, debit_available, credit_available}
use global_ledger_consistenc.Orm.{Payment, Account, Db, account_keyed, key_keyed}
use global_ledger_consistenc.Externals.{Externals}
use global_ledger_consistenc.Session.{Session, Result, err}
use global_ledger_consistenc.Session.Transaction.{Conditions, leave}
use global_ledger_consistenc.Session.Entries.{debit_entry, credit_entry}
use global_ledger_consistenc.Payments.{Raised, Metrics, integrity_error, sqlalchemy_error}
use global_ledger_consistenc.Payments.UseCase.{Draws, new_payment}
use global_ledger_consistenc.Payments.CreatePayment.{create}
use global_ledger_consistenc.System.Effects.{stored_key, stored_event}
use global_ledger_consistenc.System.Steps.{
  Reach, here, next, IsProper, strong_paid, hybrid_paid, eventual_paid,
}
use global_ledger_consistenc.System.Intake.{
  fresh, create_strong_ok, create_hybrid_ok, create_eventual_ok, create_refused, create_uncovered,
  flush_strong, flush_async,
}
use global_ledger_consistenc.System.Intake.Commits.{not-ltb-le, leave-Reach, leave_err}

module _ (lib : Externals) (c : Conditions) (d : Draws) (r : CreatePaymentRequest) (hash : String)
    (t : Option String) (m : Metrics) (proper : IsProper r) where
  -- The end of the transaction whose body ended so.
  abbrev ended : Result Raised (PaymentResponse × Bool) × Session Metrics → Db
  ended out = (leave integrity_error sqlalchemy_error c out).1.committed

  abbrev pub Lands : ConsistencyMode → Db → Type 0
  Lands mode db = Reach lib (c.others db) (ended (create lib mode c d r hash t (fresh db m)))

  refused-Lands :
      (mode : ConsistencyMode) (db : Db) {e : Raised}
      → create lib mode c d r hash t (fresh db m) ≡ (err e, fresh (c.others db) m)
      → Lands mode db
  refused-Lands mode db e =
      subst (λ out. Reach lib (c.others db) (ended out)) (sym e)
        (subst (Reach lib (c.others db)) (sym (leave_err _ integrity_error sqlalchemy_error c _ _))
          here)

  strong_ok-Lands :
      (db : Db) (a b : Account)
      → get r.source_account_id (c.others db).accounts ≡ some a
      → get r.destination_account_id (c.others db).accounts ≡ some b
      → ltb_ℤ a.available_balance_cents r.amount_cents ≡ false
      → Lands strong db
  unfolding new_payment
  strong_ok-Lands db a b ha hb hc =
      subst (λ out. Reach lib (c.others db) (ended out))
        (sym (create_strong_ok lib c d r hash t db m a b ha hb hc))
        (leave-Reach integrity_error sqlalchemy_error c _ _ (c.others db) here λ db' e.
          let (new_id, new_payment_key, new_key, e') =
            flush_strong p
              (debit_entry d.entries p.id r.source_account_id r.destination_account_id
                r.amount_cents)
              (credit_entry d.entries p.id r.source_account_id r.destination_account_id
                r.amount_cents)
              (stored_key lib d r hash completed)
              (record (c.others db) {
                accounts =
                    move r.source_account_id (debit_available r.amount_cents)
                      r.destination_account_id (credit_available r.amount_cents)
                      (c.others db).accounts;
              })
              db' e in
          subst (Reach lib (c.others db)) (sym e') (
            next here (
              strong_paid d r hash a b (c.others db) proper ha hb
                (not-ltb-le a.available_balance_cents r.amount_cents hc)
                (record { id = new_id; payment_key = new_payment_key; key = new_key }))))
    where
      p : Payment
      p = new_payment d r hash completed

  hybrid_ok-Lands :
      (db : Db) (a b : Account)
      → get r.source_account_id (c.others db).accounts ≡ some a
      → get r.destination_account_id (c.others db).accounts ≡ some b
      → ltb_ℤ a.available_balance_cents r.amount_cents ≡ false
      → Lands hybrid db
  unfolding new_payment
  hybrid_ok-Lands db a b ha hb hc =
      subst (λ out. Reach lib (c.others db) (ended out))
        (sym (create_hybrid_ok lib c d r hash t db m a b ha hb hc))
        (leave-Reach integrity_error sqlalchemy_error c _ _ (c.others db) here λ db' e.
          let (new_id, new_payment_key, new_key, new_event_id, e') =
            flush_async (new_payment d r hash reserved)
              (stored_event lib d r hash t reserved payment_reserved)
              (stored_key lib d r hash reserved)
              (record (c.others db) {
                accounts =
                    modify r.source_account_id (reserve r.amount_cents) (c.others db).accounts;
              })
              db' e in
          subst (Reach lib (c.others db)) (sym e') (
            next here (
              hybrid_paid d r hash t a b (c.others db) proper ha hb
                (not-ltb-le a.available_balance_cents r.amount_cents hc)
                (record { id = new_id; payment_key = new_payment_key; key = new_key })
                new_event_id)))

  eventual-Lands : (db : Db) → Lands eventual db
  unfolding new_payment
  eventual-Lands db =
      subst (λ out. Reach lib (c.others db) (ended out))
        (sym (create_eventual_ok lib c d r hash t db m))
        (leave-Reach integrity_error sqlalchemy_error c _ _ (c.others db) here λ db' e.
          let (new_id, new_payment_key, new_key, new_event_id, e') =
            flush_async (new_payment d r hash received)
              (stored_event lib d r hash t received payment_requested)
              (stored_key lib d r hash received) (c.others db) db' e in
          subst (Reach lib (c.others db)) (sym e') (
            next here (
              eventual_paid d r hash t (c.others db) proper
                (record { id = new_id; payment_key = new_payment_key; key = new_key })
                new_event_id)))

  -- In the modes that lock accounts every way out is covered.
  locked-Lands :
      (mode : ConsistencyMode) (db : Db)
      → mode ≢ eventual
      → ((a b : Account)
          → get r.source_account_id (c.others db).accounts ≡ some a
          → get r.destination_account_id (c.others db).accounts ≡ some b
          → ltb_ℤ a.available_balance_cents r.amount_cents ≡ false
          → Lands mode db)
      → Lands mode db
  locked-Lands mode db ne covered =
      elim (Option-cases (get r.source_account_id (c.others db).accounts)) [
        | inl ha ↦ refused-Lands mode db (create_refused lib c d r hash t db m mode ne (inl ha))
        | inr (a, ha) ↦ elim (Option-cases (get r.destination_account_id (c.others db).accounts)) [
          | inl hb ↦ refused-Lands mode db (create_refused lib c d r hash t db m mode ne (inr hb))
          | inr (b, hb) ↦ elim (Bool-cases (ltb_ℤ a.available_balance_cents r.amount_cents)) [
            | inl hc ↦
                refused-Lands mode db (create_uncovered lib c d r hash t db m mode a b ne ha hb hc)
            | inr hc ↦ covered a b ha hb hc
          ]
        ]
      ]

  pub create-Lands : (mode : ConsistencyMode) (db : Db) → Lands mode db
  create-Lands strong db = locked-Lands strong db (λ e. cc) (strong_ok-Lands db)
  create-Lands hybrid db = locked-Lands hybrid db (λ e. cc) (hybrid_ok-Lands db)
  create-Lands eventual db = eventual-Lands db
