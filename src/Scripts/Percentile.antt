-- ===== src/Scripts/Percentile.antt =====
-- `percentile` of scripts/run_experiment.py.
use Prim.Native.Nat.{min}
use global_ledger_consistenc.Base.{
  ℕ, zero, suc, ◌+◌, ◌-◌, ◌≤◌, ◌<◌, Bool, true, false, ◌≡◌, refl, subst, Option, none, some, List,
  [], ◌∷◌, if◌then◌else◌, All, length, arith, Bool-cases, inl, inr,
}
use global_ledger_consistenc.Sorting.{
  sorted, IsSorted, IsWeakOrder, sorted-IsSorted, length-sorted, All-of-sorted,
}

-- Python's floats that are no NaN, as far as the script uses them.
pub record Floats (Float : Type 0) : Type 0 where
  pub lt : Float → Float → Bool
  pub le : Float → Float → Bool
  pub add : Float → Float → Float
  pub sub : Float → Float → Float
  pub mul : Float → Float → Float
  pub div : Float → Float → Float
  -- An integer as a float, and `int` of a float that is not negative.
  pub of_int : ℕ → Float
  pub int_of : Float → ℕ

-- `values[i]`; `none` is the `IndexError`.
abbrev pub get_elem? : {A : Type 0} → List A → ℕ → Option A
get_elem? [] i = none
get_elem? (x ∷ xs) zero = some x
get_elem? (x ∷ xs) (suc i) = get_elem? xs i

module _ {Float : Type 0} (fl : Floats Float) where
  -- The weighted mean of two neighbours.
  unfoldable pub interpolate : Float → Option Float → Option Float → Option Float
  interpolate weight (some a) (some b) =
      some (fl.add (fl.mul a (fl.sub (fl.of_int 1) weight)) (fl.mul b weight))
  interpolate weight _ _ = none

  unfoldable pub at_position : List Float → Float → Option Float
  unfolding interpolate
  at_position sorted_values position =
      let lower = fl.int_of position in
      let upper = min (lower + 1) (length sorted_values - 1) in
      interpolate (fl.sub position (fl.of_int lower)) (get_elem? sorted_values lower)
        (get_elem? sorted_values upper)

  unfoldable pub percentile_of : List Float → Float → Option Float
  unfolding at_position
  percentile_of sorted_values pct =
      if fl.le pct (fl.of_int 0)
      then get_elem? sorted_values 0
      else if fl.le (fl.of_int 100) pct
      then get_elem? sorted_values (length sorted_values - 1)
      else at_position sorted_values
          (fl.mul (fl.div pct (fl.of_int 100)) (fl.of_int (length sorted_values - 1)))

  -- `percentile`
  unfoldable pub percentile : List Float → Float → Option Float
  unfolding percentile_of sorted
  percentile [] pct = some (fl.of_int 0)
  percentile (v ∷ values) pct = percentile_of (sorted fl.lt (v ∷ values)) pct

-- `int` of a proper share of a number does not exceed the number.
pub record FloatLaws {Float : Type 0} (fl : Floats Float) : Type 0 where
  pub order : IsWeakOrder fl.lt
  pub le_refl : (a : Float) → fl.le a a ≡ true
  pub le-100-0 : fl.le (fl.of_int 100) (fl.of_int 0) ≡ false
  pub share :
      (pct : Float) (n : ℕ)
      → fl.le pct (fl.of_int 0) ≡ false
      → fl.le (fl.of_int 100) pct ≡ false
      → fl.int_of (fl.mul (fl.div pct (fl.of_int 100)) (fl.of_int n)) ≤ n

get_elem?-defined :
    {A : Type 0} (xs : List A) (i : ℕ) → i < length xs → (x : A) × (get_elem? xs i ≡ some x)
get_elem?-defined [] i h = absurd (omega (arith, h))
get_elem?-defined (x ∷ xs) zero h = (x, refl)
get_elem?-defined (x ∷ xs) (suc i) h = get_elem?-defined xs i (omega (arith, h))

All-get_elem? :
    {A : Type 0} (P : A → Type 0) (xs : List A) (i : ℕ) (x : A)
    → All P xs
    → get_elem? xs i ≡ some x
    → P x
All-get_elem? P [] i x all h = ground arith
All-get_elem? P (y ∷ xs) zero x all h = subst P (ground (arith, h)) all.0
All-get_elem? P (y ∷ xs) (suc i) x all h = All-get_elem? P xs i x all.1 h

module _ {Float : Type 0} (fl : Floats Float) (law : FloatLaws fl) where
  interpolate-defined :
      (weight : Float) (xs : List Float) (lower upper : ℕ)
      → lower < length xs
      → upper < length xs
      → (v : Float) × (interpolate fl weight (get_elem? xs lower) (get_elem? xs upper) ≡ some v)
  unfolding interpolate
  interpolate-defined weight xs lower upper h k =
      let (a, ha) = get_elem?-defined xs lower h in
      let (b, hb) = get_elem?-defined xs upper k in
      (fl.add (fl.mul a (fl.sub (fl.of_int 1) weight)) (fl.mul b weight), rw (ha, hb) refl)

  percentile_of-defined :
      (xs : List Float) (pct : Float)
      → 0 < length xs
      → (v : Float) × (percentile_of fl xs pct ≡ some v)
  unfolding percentile_of at_position
  percentile_of-defined xs pct some_values = elim (Bool-cases (fl.le pct (fl.of_int 0))) [
    | inl e ↦ rw e (get_elem?-defined xs 0 some_values)
    | inr e ↦ elim (Bool-cases (fl.le (fl.of_int 100) pct)) [
      | inl k ↦ rw (e, k) (get_elem?-defined xs (length xs - 1) (omega (arith, some_values)))
      | inr k ↦
          let within = law.share pct (length xs - 1) e k in
          rw (e, k)
            (interpolate-defined _ xs
              (fl.int_of (fl.mul (fl.div pct (fl.of_int 100)) (fl.of_int (length xs - 1)))) _
              (omega (arith, within, some_values)) (omega (arith, some_values)))
    ]
  ]

  -- A percentile is defined for every list of values and every percentage: no index is out of range,
  -- provided that the floats are no NaN and a proper share of a number does not exceed it.
  pub percentile-defined :
      (values : List Float) (pct : Float) → (v : Float) × (percentile fl values pct ≡ some v)
  unfolding percentile
  percentile-defined [] pct = (fl.of_int 0, refl)
  percentile-defined (v ∷ values) pct =
      percentile_of-defined (sorted fl.lt (v ∷ values)) pct
        (omega (arith, length-sorted fl.lt (v ∷ values)))

  lt_irrefl : (a : Float) → fl.lt a a ≡ false
  lt_irrefl a = elim (Bool-cases (fl.lt a a)) [ inl e ↦ law.order.asym a a e | inr e ↦ e ]

  first_least :
      (xs : List Float) (lo : Float)
      → IsSorted fl.lt xs
      → get_elem? xs 0 ≡ some lo
      → All (λ x. fl.lt x lo ≡ false) xs
  first_least [] lo h k = tt
  first_least (x ∷ xs) lo h k =
      subst (λ y. All (λ x. fl.lt x y ≡ false) (x ∷ xs)) (ground (arith, k)) (lt_irrefl x, h.0)

  last_greatest :
      (xs : List Float) (last : ℕ) (hi : Float)
      → last + 1 ≡ length xs
      → IsSorted fl.lt xs
      → get_elem? xs last ≡ some hi
      → All (λ x. fl.lt hi x ≡ false) xs
  last_greatest [] last hi e h k = tt
  last_greatest (x ∷ []) zero hi e h k =
      subst (λ y. All (λ x. fl.lt y x ≡ false) (x ∷ [])) (ground (arith, k)) (lt_irrefl x, tt)
  last_greatest (x ∷ y ∷ xs) zero hi e h k = absurd (omega (arith, e))
  last_greatest (x ∷ xs) (suc last) hi e h k = (
    All-get_elem? (λ z. fl.lt z x ≡ false) xs last hi h.0 k,
    last_greatest xs last hi (omega (arith, e)) h.1 k,
  )

  -- Of one value or more, the percentile at 0 is the least and the percentile at 100 the greatest:
  -- no value is below the one or above the other, provided that the floats are no NaN and a proper
  -- share of a number does not exceed it.
  pub percentile-extremes :
      (v : Float) (values : List Float)
      → (lo : Float) × ((hi : Float) × ((percentile fl (v ∷ values) (fl.of_int 0) ≡ some lo)
            × (percentile fl (v ∷ values) (fl.of_int 100) ≡ some hi)
            × All (λ x. fl.lt x lo ≡ false) (v ∷ values)
            × All (λ x. fl.lt hi x ≡ false) (v ∷ values)))
  unfolding percentile percentile_of
  percentile-extremes v values =
      let xs = sorted fl.lt (v ∷ values) in
      let filled : 0 < length xs = omega (arith, length-sorted fl.lt (v ∷ values)) in
      let ordered = sorted-IsSorted fl.lt law.order (v ∷ values) in
      let (lo, hlo) = get_elem?-defined xs 0 filled in
      let (hi, hhi) = get_elem?-defined xs (length xs - 1) (omega (arith, filled)) in
      (
        lo,
        (
          hi,
          (
            rw (law.le_refl (fl.of_int 0)) hlo,
            rw (law.le-100-0, law.le_refl (fl.of_int 100)) hhi,
            All-of-sorted fl.lt (λ x. fl.lt x lo ≡ false) (v ∷ values)
                (first_least xs lo ordered hlo),
            All-of-sorted fl.lt (λ x. fl.lt hi x ≡ false) (v ∷ values)
                (last_greatest xs (length xs - 1) hi (omega (arith, filled)) ordered hhi),
          ),
        ),
      )
