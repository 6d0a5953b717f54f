-- ===== src/Table.antt =====
-- A table of the database as the list of its rows, addressed by primary key.
use mathlib.Core.Option
use global_ledger_consistenc.Base.{
  String, Bool, true, false, ◌≡◌, ◌||◌, Option, none, some, List, [], ◌∷◌, arith, ◌==◌, eq_iff,
  if◌then◌else◌, All, subst, Bool-cases, inl, inr,
}
use global_ledger_consistenc.Int.{ℤ, ◌+ℤ◌, int_laws, sum_of}

-- The primary key of a row.
pub record Keyed (A : Type 0) : Type 0 where
  pub key_of : A → String

module _ {A : Type 0} ⦃k : Keyed A⦄ where
  -- `session.scalar(select(Row).where(Row.id == id))`
  unfoldable pub get : String → List A → Option A
  get id [] = none
  get id (a ∷ rows) = if k.key_of a == id then some a else get id rows

  -- An assignment to attributes of the object that stands for the row.
  unfoldable pub modify : String → (A → A) → List A → List A
  modify id f [] = []
  modify id f (a ∷ rows) = if k.key_of a == id then f a ∷ rows else a ∷ modify id f rows

  -- The uniqueness check of the primary key's index.
  unfoldable pub has : String → List A → Bool
  has id [] = false
  has id (a ∷ rows) = k.key_of a == id || has id rows

  pub get-modify :
      (id j : String) (f : A → A) (rows : List A)
      → ((a : A) → k.key_of (f a) ≡ k.key_of a)
      → get j (modify id f rows) ≡ (if id == j then Option.map f (get j rows) else get j rows)
  unfolding get modify
  get-modify id j f [] h = ground arith
  get-modify id j f (a ∷ rows) h = ground (
    arith,
    h a,
    get-modify id j f rows h,
    eq_iff (k.key_of a) id,
    eq_iff (k.key_of a) j,
    eq_iff (k.key_of (f a)) j,
    eq_iff id j,
  )

  pub key_of-get : (id : String) (a : A) (rows : List A) → get id rows ≡ some a → k.key_of a ≡ id
  unfolding get
  key_of-get id a [] h = ground arith
  key_of-get id a (b ∷ rows) h = ground (arith, key_of-get id a rows, eq_iff (k.key_of b) id)

  pub has-get : (id : String) (rows : List A) (a : A) → get id rows ≡ some a → has id rows ≡ true
  unfolding get has
  has-get id [] a h = ground arith
  has-get id (b ∷ rows) a h = ground (arith, has-get id rows a)

  pub get_front :
      (id : String) (a : A) (rows : List A) → k.key_of a ≡ id → get id (a ∷ rows) ≡ some a
  unfolding get
  get_front id a rows h = ground (arith, eq_iff (k.key_of a) id)

  -- A row stays the one under its key when a row with a new key comes in front.
  pub get_newer :
      (id : String) (a new : A) (rows : List A)
      → get id rows ≡ some a
      → has (k.key_of new) rows ≡ false
      → get id (new ∷ rows) ≡ some a
  unfolding get
  get_newer id a new rows h free = ground (arith, has-get id rows a h, eq_iff (k.key_of new) id)

  -- A changed row changes a sum over the table by the difference of its measures.
  pub sum_of-modify :
      (m : A → ℤ) (id : String) (f : A → A) (a : A) (rows : List A)
      → get id rows ≡ some a
      → sum_of m (modify id f rows) +ℤ m a ≡ sum_of m rows +ℤ m (f a)
  unfolding get modify
  sum_of-modify m id f a [] h = ground arith
  sum_of-modify m id f a (b ∷ rows) h = grind (int_laws, sum_of-modify m id f a rows)

  pub All-modify :
      (P : A → Type 0) (id : String) (f : A → A) (rows : List A)
      → ((a : A) → get id rows ≡ some a → P a → P (f a))
      → All P rows
      → All P (modify id f rows)
  unfolding get modify
  All-modify P id f [] h all = tt
  All-modify P id f (b ∷ rows) h all = elim (Bool-cases (k.key_of b == id)) [
    | inl e ↦ rw e (h b (rw e) all.0, all.1)
    | inr e ↦ rw e (all.0, All-modify P id f rows (λ a g. h a (rw e g)) all.1)
  ]

  pub All-get :
      (P : A → Type 0) (id : String) (a : A) (rows : List A)
      → All P rows
      → get id rows ≡ some a
      → P a
  unfolding get
  All-get P id a [] all h = ground arith
  All-get P id a (b ∷ rows) all h = elim (Bool-cases (k.key_of b == id)) [
    | inl e ↦ subst P (ground arith) all.0
    | inr e ↦ All-get P id a rows all.1 (ground arith)
  ]
