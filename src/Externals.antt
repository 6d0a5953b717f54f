-- ===== src/Externals.antt =====
-- What the program calls and does not implement: `json`, `hashlib`, pydantic's (de)serialisation of
-- `PaymentResponse`, and the Unicode digit classes behind `str.isdigit` and `int`.
use global_ledger_consistenc.Base.{
  ℕ, String, Bool, false, ◌≡◌, Option, none, some, ◌==◌, if◌then◌else◌,
}
use global_ledger_consistenc.Int.{ℤ}
use global_ledger_consistenc.Contracts.{PaymentResponse}

-- The values that `json.loads` returns; a float keeps its literal.
mutual
  pub data Json : Type 0 where
    null : Json
    bool : Bool → Json
    int : ℤ → Json
    float : String → Json
    str : String → Json
    array : Items → Json
    object : Fields → Json

  pub data Items : Type 0 where
    nil : Items
    cons : Json → Items → Items

  -- A dict with text keys; no key stands twice.
  pub data Fields : Type 0 where
    end : Fields
    field : String → Json → Fields → Fields

-- `payload.get(name)`
unfoldable pub get_field : String → Fields → Option Json
get_field name end = none
get_field name (field k v rest) = if k == name then some v else get_field name rest

-- A character is a decimal digit with its value, a digit that `int` refuses (such as a
-- superscript), or neither; `str.isdigit` accepts the first two.
pub data DigitClass : Type 0 where
  decimal : ℕ → DigitClass
  digit : DigitClass
  other : DigitClass

pub record Externals : Type 0 where
  -- `json.dumps(payload, sort_keys=True)`
  pub dumps : Json → String
  -- `json.dumps(payload, sort_keys=True, separators=(",", ":"))`
  pub dumps_compact : Json → String
  -- `json.loads`; `none` is a `JSONDecodeError`
  pub loads : String → Option Json
  -- `sha256(text.encode("utf-8")).hexdigest()`
  pub sha256_hexdigest : String → String
  -- `PaymentResponse.model_dump_json`, and `PaymentResponse.model_validate_json` with its refusal
  pub model_dump_json : PaymentResponse → String
  pub model_validate_json : String → Option PaymentResponse
  -- `ORDER BY id`: the order of texts under the database's collation.
  pub collates_before : String → String → Bool
  -- The class of a code point.
  pub digit_class : ℕ → DigitClass

-- A stored response is read back, and its text is not empty.
pub record ResponseRoundTrip (lib : Externals) : Type 0 where
  pub validate-dump :
      (r : PaymentResponse) → lib.model_validate_json (lib.model_dump_json r) ≡ some r
  pub dump_nonempty : (r : PaymentResponse) → (lib.model_dump_json r == "") ≡ false
