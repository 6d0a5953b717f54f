-- ===== src/Sorting.antt =====
-- Python's `sorted`: the stable order of a list by a test that stands for `<`.
pub mod Texts
use global_ledger_consistenc.Base.{
  suc, Bool, true, false, ◌≡◌, refl, ap, List, [], ◌∷◌, inl, inr, if◌then◌else◌, Bool-cases, All,
  All-map, length, arith, ◌∙◌,
}

module _ {A : Type 0} (before : A → A → Bool) where
  unfoldable pub insert : A → List A → List A
  insert a [] = a ∷ []
  insert a (b ∷ rest) = if before b a then b ∷ insert a rest else a ∷ b ∷ rest

  unfoldable pub sorted : List A → List A
  unfolding insert
  sorted [] = []
  sorted (a ∷ rest) = insert a (sorted rest)

  -- No value stands behind one that it is before.
  abbrev pub IsSorted : List A → Type 0
  IsSorted [] = Unit
  IsSorted (a ∷ rest) = All (λ x. before x a ≡ false) rest × IsSorted rest

  All-insert : (P : A → Type 0) (a : A) (xs : List A) → P a → All P xs → All P (insert a xs)
  unfolding insert
  All-insert P a [] pa all = (pa, tt)
  All-insert P a (b ∷ rest) pa all = elim (Bool-cases (before b a)) [
    | inl e ↦ rw e (all.0, All-insert P a rest pa all.1)
    | inr e ↦ rw e (pa, all)
  ]

  All-of-insert : (P : A → Type 0) (a : A) (xs : List A) → All P (insert a xs) → P a × All P xs
  unfolding insert
  All-of-insert P a [] = λ all. all
  All-of-insert P a (b ∷ rest) = elim (Bool-cases (before b a)) [
    | inl e ↦ rw e (λ all. let r = All-of-insert P a rest all.1 in (r.0, (all.0, r.1)))
    | inr e ↦ rw e (λ all. all)
  ]

  -- Sorting keeps the values.
  pub All-sorted : (P : A → Type 0) (xs : List A) → All P xs → All P (sorted xs)
  unfolding sorted
  All-sorted P [] all = tt
  All-sorted P (a ∷ rest) all = All-insert P a (sorted rest) all.0 (All-sorted P rest all.1)

  pub All-of-sorted : (P : A → Type 0) (xs : List A) → All P (sorted xs) → All P xs
  unfolding sorted
  All-of-sorted P [] all = tt
  All-of-sorted P (a ∷ rest) all =
      let r = All-of-insert P a (sorted rest) all in (r.0, All-of-sorted P rest r.1)

  length-insert : (a : A) (xs : List A) → length (insert a xs) ≡ suc (length xs)
  unfolding insert
  length-insert a [] = refl
  length-insert a (b ∷ rest) = ground (arith, length-insert a rest)

  pub length-sorted : (xs : List A) → length (sorted xs) ≡ length xs
  unfolding sorted
  length-sorted [] = refl
  length-sorted (a ∷ rest) = length-insert a (sorted rest) ∙ ap suc (length-sorted rest)

-- What `<` is on numbers and texts: asymmetric, and its negation transitive.
pub record IsWeakOrder {A : Type 0} (before : A → A → Bool) : Type 0 where
  pub asym : (a b : A) → before a b ≡ true → before b a ≡ false
  pub not_before : (a b c : A) → before a b ≡ false → before b c ≡ false → before a c ≡ false

module _ {A : Type 0} (before : A → A → Bool) (o : IsWeakOrder before) where
  insert-IsSorted :
      (a : A) (xs : List A) → IsSorted before xs → IsSorted before (insert before a xs)
  unfolding insert
  insert-IsSorted a [] h = (tt, tt)
  insert-IsSorted a (b ∷ rest) h = elim (Bool-cases (before b a)) [
    | inl e ↦ rw e (
      All-insert before (λ x. before x b ≡ false) a rest (o.asym b a e) h.0,
      insert-IsSorted a rest h.1,
    )
    | inr e ↦ rw e ((e, All-map rest (λ x g. o.not_before x b a g e) h.0), h)
  ]

  pub sorted-IsSorted : (xs : List A) → IsSorted before (sorted before xs)
  unfolding sorted
  sorted-IsSorted [] = tt
  sorted-IsSorted (a ∷ rest) = insert-IsSorted a (sorted before rest) (sorted-IsSorted rest)
