-- ===== src/System/Reserves.antt =====
-- The funds that hybrid mode sets aside: what each account has reserved against the payments that are
-- still reserved, and what the outbox events say of those payments.
pub mod Links
pub mod Backing
pub mod Settles
use mathlib.Core.Option
use global_ledger_consistenc.Base.{
  String, Bool, true, false, ◌≡◌, refl, Option, none, some, List, [], ◌∷◌, arith, ◌==◌, eq_iff,
  if◌then◌else◌, All, Bool-cases, inl, inr, subst, ◌∙◌,
}
use global_ledger_consistenc.Int.{ℤ, pos, neg, ◌+ℤ◌, ◌≤ℤ◌, sum_of, int_laws, parts_of_eq}
use global_ledger_consistenc.Table.{Keyed, get, has, modify, get-modify, has-get}
use global_ledger_consistenc.Contracts.{
  PaymentStatus, received, reserved, completed, rejected, OutboxEventType, payment_reserved,
  payment_requested,
}
use global_ledger_consistenc.Orm.{Account, Payment, account_keyed, payment_keyed}
use global_ledger_consistenc.Externals.{Externals}
use global_ledger_consistenc.Session.{ok}
use global_ledger_consistenc.Worker.Payload.{EventPayload, parse_payload}
use global_ledger_consistenc.Worker.Handlers.{debit_reserved}
use global_ledger_consistenc.Payments.Strategies.{debit_available, credit_available, reserve}
use global_ledger_consistenc.System.Effects.{move}
use global_ledger_consistenc.System.Books.{+ℤ-zero, found-modify}

-- What an account has reserved; an unknown one nothing.
abbrev pub reserved_by : Option Account → ℤ
reserved_by none = pos 0
reserved_by (some a) = a.reserved_balance_cents

unfoldable pub reserved_of : String → List Account → ℤ
reserved_of id accounts = reserved_by (get id accounts)

-- A payment holds its amount as long as it is reserved.
abbrev pub held : PaymentStatus → ℤ → ℤ
held reserved amount = amount
held _ amount = pos 0

abbrev pub claim : String → Payment → ℤ
claim id p = if p.source_account_id == id then held p.status p.amount_cents else pos 0

-- What the reserved payments from an account amount to.
unfoldable pub claims : String → List Payment → ℤ
claims id payments = sum_of (claim id) payments

-- The states of a payment that an event of this type can meet.
abbrev pub fits : OutboxEventType → PaymentStatus → Bool
fits payment_reserved received = false
fits payment_requested reserved = false
fits _ _ = true

-- Hybrid mode has found both accounts.
abbrev pub Knows : OutboxEventType → EventPayload → List Account → Type 0
Knows payment_reserved q accounts =
    (has q.source_account_id accounts ≡ true) × (has q.destination_account_id accounts ≡ true)
Knows payment_requested q accounts = Unit

-- The payment that a payload speaks of.
pub record Link (type : OutboxEventType) (q : EventPayload) (accounts : List Account)
    (payments : List Payment) : Type 0 where
  pub payment : Payment
  pub found : get q.payment_id payments ≡ some payment
  pub source : payment.source_account_id ≡ q.source_account_id
  pub amount : payment.amount_cents ≡ q.amount_cents
  pub state : fits type payment.status ≡ true
  pub known : Knows type q accounts

module _ {A : Type 0} ⦃k : Keyed A⦄ where
  pub has-modify :
      (j id : String) (f : A → A) (rows : List A)
      → ((a : A) → k.key_of (f a) ≡ k.key_of a)
      → has j (modify id f rows) ≡ has j rows
  unfolding has modify
  has-modify j id f [] h = refl
  has-modify j id f (a ∷ rows) h = ground (arith, h a, has-modify j id f rows h)

  pub found_of_has :
      (id : String) (rows : List A) → has id rows ≡ true → (a : A) × (get id rows ≡ some a)
  unfolding has get
  found_of_has id [] h = absurd (cc)
  found_of_has id (b ∷ rows) h = elim (Bool-cases (k.key_of b == id)) [
    | inl e ↦ (b, rw e)
    | inr e ↦ rw e (found_of_has id rows (ground arith))
  ]

  pub sum_of-nonneg :
      (m : A → ℤ) (rows : List A) → All (λ x. pos 0 ≤ℤ m x) rows → pos 0 ≤ℤ sum_of m rows
  sum_of-nonneg m [] all = omega arith
  sum_of-nonneg m (b ∷ rows) all = omega (int_laws, all.0, sum_of-nonneg m rows all.1)

  -- One row's measure is at most the sum, where no measure is negative.
  pub le-sum_of :
      (m : A → ℤ) (id : String) (a : A) (rows : List A)
      → All (λ x. pos 0 ≤ℤ m x) rows
      → get id rows ≡ some a
      → m a ≤ℤ sum_of m rows
  unfolding get
  le-sum_of m id a [] all h = ground arith
  le-sum_of m id a (b ∷ rows) all h = elim (Bool-cases (k.key_of b == id)) [
    | inl e ↦
        let same : b ≡ a = ground (arith, e) in
        subst (λ x. m x ≤ℤ m b +ℤ sum_of m rows) same
          (omega (int_laws, all.0, sum_of-nonneg m rows all.1))
    | inr e ↦ omega (int_laws, all.0, le-sum_of m id a rows all.1 (ground (arith, e)))
  ]

-- A change that shifts what an account has reserved by a fixed amount, and keeps its id.
pub record ShiftsReserved (f : Account → Account) (n : ℤ) : Type 0 where
  pub id : (a : Account) → (f a).id ≡ a.id
  pub reserved : (a : Account) → (f a).reserved_balance_cents ≡ a.reserved_balance_cents +ℤ n

pub debit_available-ShiftsReserved : (n : ℤ) → ShiftsReserved (debit_available n) (pos 0)
debit_available-ShiftsReserved n = record { id = λ a. refl; reserved = λ a. omega int_laws }

pub credit_available-ShiftsReserved : (n : ℤ) → ShiftsReserved (credit_available n) (pos 0)
credit_available-ShiftsReserved n = record { id = λ a. refl; reserved = λ a. omega int_laws }

pub debit_reserved-ShiftsReserved : (n : ℤ) → ShiftsReserved (debit_reserved n) (neg n)
debit_reserved-ShiftsReserved n = record { id = λ a. refl; reserved = λ a. omega int_laws }

pub reserve-ShiftsReserved : (n : ℤ) → ShiftsReserved (reserve n) n
reserve-ShiftsReserved n = record { id = λ a. refl; reserved = λ a. refl }

module _ {f : Account → Account} {n : ℤ} (sh : ShiftsReserved f n) where
  pub reserved_of-modify :
      (k id : String) (a : Account) (accounts : List Account)
      → get k accounts ≡ some a
      → reserved_of id (modify k f accounts)
        ≡ reserved_of id accounts +ℤ (if k == id then n else pos 0)
  unfolding reserved_of
  reserved_of-modify k id a accounts h = ground (
    arith,
    get-modify k id f accounts sh.id,
    eq_iff k id,
    sh.reserved a,
    h,
    +ℤ-zero (reserved_of id accounts),
  )

-- A transfer shifts only what the source has reserved, by what its first change says.
pub reserved_of-move :
    {f : Account → Account} {n : ℤ} (m : ℤ) (source_id destination_id id : String) (a b : Account)
    (accounts : List Account)
    → ShiftsReserved f n
    → get source_id accounts ≡ some a
    → get destination_id accounts ≡ some b
    → reserved_of id (move source_id f destination_id (credit_available m) accounts)
      ≡ reserved_of id accounts +ℤ (if source_id == id then n else pos 0)
reserved_of-move {f} {n} m source_id destination_id id a b accounts sf ha hb =
    let e =
      reserved_of-modify (credit_available-ShiftsReserved m) destination_id id
        (if source_id == destination_id then f b else b) (modify source_id f accounts)
        (found-modify source_id destination_id f b accounts sf.id hb) in
    let e' = reserved_of-modify sf source_id id a accounts ha in
    elim (Bool-cases (destination_id == id)) [
      | inl q ↦ e ∙ rw (q, e') (+ℤ-zero _)
      | inr q ↦ e ∙ rw (q, e') (+ℤ-zero _)
    ]
