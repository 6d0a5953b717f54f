-- ===== src/System/Intake/Commits.antt =====
-- How the units of work of the endpoint end, and what an ending commits.
use global_ledger_consistenc.Base.{
  String, Bool, true, false, ◌≡◌, refl, inl, inr, Option, none, some, [], arith, ◌==◌, Option-cases,
  Bool-cases, ◌⊎◌, subst, sym,
}
use global_ledger_consistenc.Payments.CreatePayment.{replayed}
use global_ledger_consistenc.Base.{if◌then◌else◌}
use global_ledger_consistenc.Int.{ℤ, ltb_ℤ, ◌≤ℤ◌}
use global_ledger_consistenc.Orm.{IdempotencyKey, Db, account_keyed, key_keyed}
use global_ledger_consistenc.Orm.Flush.{flush}
use global_ledger_consistenc.Externals.{Externals}
use global_ledger_consistenc.Session.{Session, Action, Result, ok, err, rollback}
use global_ledger_consistenc.Session.Transaction.{Conditions, begin, leave}
use global_ledger_consistenc.Payments.{Metrics}
use global_ledger_consistenc.Payments.CreatePayment.{replay_of}
use global_ledger_consistenc.System.Steps.{Reach}
use global_ledger_consistenc.System.Intake.{fresh}

pub not-ltb-le : (a b : ℤ) → ltb_ℤ a b ≡ false → b ≤ℤ a
not-ltb-le a b h = ground arith

-- What other processes commit during the unit of work is itself a run of the system.
abbrev pub OthersReach : Externals → Conditions → Type 0
OthersReach lib c = (db : Db) → Reach lib db (c.others db)

pub if_elim {ℓ κ} :
    {A : Type ℓ} (P : A → Type κ) (b : Bool) {x y : A} → P x → P y → P (if b then x else y)
if_elim P true p q = p
if_elim P false p q = q

-- The end of a transaction keeps what was committed, or commits the flush.
leave-cases :
    {M E A : Type 0} (i u : E) (c : Conditions) (x : A) (s : Session M)
    → ((leave i u c (ok x, s)).1.committed ≡ s.committed)
      ⊎ ((db' : Db) × (flush s.pending s.db ≡ some db')
          × ((leave i u c (ok x, s)).1.committed ≡ db'))
unfolding leave rollback
leave-cases i u c x s = elim (Option-cases (flush s.pending s.db)) [
  | inl e ↦ inl (ground (arith, e))
  | inr (db', e) ↦ elim (Bool-cases c.commits) [
    | inl k ↦ inr (db', e, ground (arith, e, k))
    | inr k ↦ inl (ground (arith, e, k))
  ]
]

pub flush-nil : (db db' : Db) → flush [] db ≡ some db' → db ≡ db'
unfolding flush
flush-nil db db' e = ground arith

pub leave-Reach :
    {lib : Externals} {M E A : Type 0} (i u : E) (c : Conditions) (x : A) (s : Session M) (db : Db)
    → Reach lib db s.committed
    → ((db' : Db) → flush s.pending s.db ≡ some db' → Reach lib db db')
    → Reach lib db (leave i u c (ok x, s)).1.committed
leave-Reach {lib} i u c x s db r f = elim (leave-cases i u c x s) [
  | inl e ↦ subst (Reach lib db) (sym e) r
  | inr (db', e, e') ↦ subst (Reach lib db) (sym e') (f db' e)
]

pub begin-Reach :
    {lib : Externals} {M E A : Type 0} (i u : E) (c : Conditions) (body : Action M E A)
    (s : Session M) {db : Db}
    → Reach lib db s.committed
    → Reach lib db (leave i u c (body s)).1.committed
    → Reach lib db (begin i u c body s).1.committed
unfolding begin rollback
begin-Reach {lib} {M} {E} {A} i u c body s {db} r q =
    if_elim {A = Result E A × Session M} (λ out. Reach lib db out.1.committed) c.reachable q r

pub leave_err :
    {M E : Type 0} (A : Type 0) (i u : E) (c : Conditions) (e : E) (s : Session M)
    → (leave {A = A} i u c (err e, s)).1.committed ≡ s.committed
unfolding leave rollback
leave_err A i u c e s = refl

-- The session after the lookup is the fresh one, but for the counters.
pub lookup-fresh :
    (lib : Externals) (hash : String) (db : Db) (m : Metrics) (o : Option IdempotencyKey)
    → (m' : Metrics) × ((replay_of lib hash o (fresh db m)).1 ≡ fresh db m')
unfolding replay_of
lookup-fresh lib hash db m none = (m, refl)
lookup-fresh lib hash db m (some k) = elim (Bool-cases (k.request_hash == hash)) [
  | inl e ↦ elim (Bool-cases (k.response_payload_json == "")) [
    | inl e' ↦ (m, ground (arith, e, e'))
    | inr e' ↦ (replayed m, ground (arith, e, e'))
  ]
  | inr e ↦ (m, ground (arith, e))
]
