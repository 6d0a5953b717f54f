-- ===== src/Sorting/Texts.antt =====
-- Python's `<` on texts is a weak order.
use Prim.Native.Nat.{Ordering, compare as compare_ℕ}
use Prim.Native.Char.{code}
use Prim.Native.String.{compare, then}
use Prim.Native.String.compare
use global_ledger_consistenc.Base.{ℕ, String, true, false, ◌≡◌, refl, sym, ap, ◌∙◌, arith}
use global_ledger_consistenc.Session.Accounts.{str_lt}
use global_ledger_consistenc.Sorting.{IsWeakOrder}

abbrev swap : Ordering → Ordering
swap Ordering.lt = Ordering.gt
swap Ordering.eq = Ordering.eq
swap Ordering.gt = Ordering.lt

numbers-swap : (m n : ℕ) → compare_ℕ n m ≡ swap (compare_ℕ m n)
numbers-swap m n = ground arith

then-swap : (o r : Ordering) → then (swap o) (swap r) ≡ swap (then o r)
then-swap Ordering.lt r = refl
then-swap Ordering.eq r = refl
then-swap Ordering.gt r = refl

compare-swap : (s t : String) → compare t s ≡ swap (compare s t)
compare-swap String.[] String.[] = refl
compare-swap String.[] (String.◌∷◌ d t) =
    compare.cons-nil d t ∙ sym (ap swap (compare.nil-cons d t))
compare-swap (String.◌∷◌ c s) String.[] =
    compare.nil-cons c s ∙ sym (ap swap (compare.cons-nil c s))
compare-swap (String.◌∷◌ c s) (String.◌∷◌ d t) =
    compare.cons-cons d c t s
    ∙ ap (λ o. then o (compare t s)) (numbers-swap (code c) (code d))
    ∙ ap (then (swap (compare_ℕ (code c) (code d)))) (compare-swap s t)
    ∙ then-swap (compare_ℕ (code c) (code d)) (compare s t)
    ∙ sym (ap swap (compare.cons-cons c d s t))

str_lt-not_before : (a b c : String) → str_lt a b ≡ false → str_lt b c ≡ false → str_lt a c ≡ false
str_lt-not_before String.[] String.[] c h k = k
str_lt-not_before String.[] (String.◌∷◌ y b) c h k = ground (arith, h, compare.nil-cons y b)
str_lt-not_before (String.◌∷◌ x a) b String.[] h k = ground (arith, compare.cons-nil x a)
str_lt-not_before (String.◌∷◌ x a) String.[] (String.◌∷◌ z c) h k =
    ground (arith, k, compare.nil-cons z c)
str_lt-not_before (String.◌∷◌ x a) (String.◌∷◌ y b) (String.◌∷◌ z c) h k = ground (
  arith,
  h,
  k,
  compare.cons-cons x y a b,
  compare.cons-cons y z b c,
  compare.cons-cons x z a c,
  str_lt-not_before a b c,
)

str_lt-asym : (a b : String) → str_lt a b ≡ true → str_lt b a ≡ false
str_lt-asym a b h = ground (arith, h, compare-swap a b)

pub str_lt-IsWeakOrder : IsWeakOrder str_lt
str_lt-IsWeakOrder = record { asym = str_lt-asym; not_before = str_lt-not_before }
