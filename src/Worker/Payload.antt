-- ===== src/Worker/Payload.antt =====
-- `_parse_payload` of ledger_worker/services/processor.py and its field readers.
pub mod RoundTrip
use Prim.Native.Char.{Char, code}
use Prim.Native.String
use Prim.Native.String.{count}
use global_ledger_consistenc.Base.{
  ℕ, ◌+◌, ◌*◌, String, Bool, true, false, not, ◌&&◌, Option, none, some, ◌==◌, leb, if◌then◌else◌,
}
use global_ledger_consistenc.Int.{ℤ, pos}
use global_ledger_consistenc.Contracts.{invariant_violation, invalid_payload_field}
use global_ledger_consistenc.Externals.{
  Externals, Json, Fields, get_field, DigitClass, decimal, digit, other,
}
use global_ledger_consistenc.Session.{Result, ok, err}
use global_ledger_consistenc.Worker.{WorkerError, Raised, worker, exception}

pub record EventPayload : Type 0 where
  pub payment_id : String
  pub source_account_id : String
  pub destination_account_id : String
  pub amount_cents : ℤ
  pub traceparent : Option String

infixl 5 ◌>>=◌
abbrev ◌>>=◌ : {A B : Type 0} → Result Raised A → (A → Result Raised B) → Result Raised B
ok a >>= f = f a
err e >>= f = err e

abbrev pub bad_field : String → Raised
bad_field name =
    worker (record { error_code = invariant_violation; message = invalid_payload_field name })

abbrev required_str : String → Option Json → Result Raised String
required_str name (some (Json.str value)) =
    if not (value == "") then ok value else err (bad_field name)
required_str name _ = err (bad_field name)

-- `_as_required_str`
unfoldable pub as_required_str : Fields → String → Result Raised String
unfolding get_field
as_required_str payload name = required_str name (get_field name payload)

abbrev optional : Option Json → Option String
optional (some (Json.str value)) = if not (value == "") then some value else none
optional _ = none

-- `_as_optional_str`
unfoldable pub as_optional_str : Fields → String → Option String
unfolding get_field
as_optional_str payload name = optional (get_field name payload)

module _ (lib : Externals) where
  abbrev is_digit : DigitClass → Bool
  is_digit other = false
  is_digit _ = true

  all_digits : String → Bool
  all_digits String.[] = true
  all_digits (String.◌∷◌ c rest) = is_digit (lib.digit_class (code c)) && all_digits rest

  -- `value.isdigit()`
  isdigit : String → Bool
  unfolding all_digits
  isdigit value = not (value == "") && all_digits value

  decimal_value : ℕ → String → Option ℕ
  decimal_value n String.[] = some n
  decimal_value n (String.◌∷◌ c rest) = elim (lib.digit_class (code c)) [
    | decimal d ↦ decimal_value (n * 10 + d) rest
    | digit ↦ none
    | other ↦ none
  ]

  -- `int(value)` on a text of digits; `none` is its `ValueError`, also past 4300 digits.
  int_of : String → Option ℕ
  unfolding decimal_value
  int_of value = if leb (count value) 4300 then decimal_value 0 value else none

  abbrev int_result : Option ℕ → Result Raised ℤ
  int_result (some n) = ok (pos n)
  int_result none = err exception

  -- `bool` is a subclass of `int` in Python.
  abbrev required_int : String → Option Json → Result Raised ℤ
  required_int name (some (Json.int n)) = ok n
  required_int name (some (Json.bool b)) = ok (pos (if b then 1 else 0))
  required_int name (some (Json.str value)) =
      if isdigit value then int_result (int_of value) else err (bad_field name)
  required_int name _ = err (bad_field name)

  -- `_as_required_int`
  unfoldable pub as_required_int : Fields → String → Result Raised ℤ
  unfolding get_field isdigit int_of
  as_required_int payload name = required_int name (get_field name payload)

  -- The constructor call of `_parse_payload`, its arguments in order.
  unfoldable pub event_payload : Fields → Result Raised EventPayload
  unfolding as_required_str as_required_int as_optional_str
  event_payload payload = do
    payment_id ← as_required_str payload "payment_id"
    source_account_id ← as_required_str payload "source_account_id"
    destination_account_id ← as_required_str payload "destination_account_id"
    amount_cents ← as_required_int payload "amount_cents"
    ok (record {
      payment_id = payment_id;
      source_account_id = source_account_id;
      destination_account_id = destination_account_id;
      amount_cents = amount_cents;
      traceparent = as_optional_str payload "traceparent";
    })

  abbrev of_loaded : Option Json → Result Raised EventPayload
  of_loaded (some (Json.object payload)) = event_payload payload
  of_loaded _ = err exception

  -- `_parse_payload`: text that is no JSON, and JSON that is no object (it has no `.get`), raise
  -- another exception than `WorkerError`.
  unfoldable pub parse_payload : String → Result Raised EventPayload
  unfolding event_payload
  parse_payload payload_json = of_loaded (lib.loads payload_json)
