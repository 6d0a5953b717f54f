-- ===== src/Worker/Payload/RoundTrip.antt =====
-- What `_add_outbox` of payments-api writes, `_parse_payload` of ledger-worker reads.
use Prim.Native.Char.{Char}
use Prim.Native.String.{◌++◌}
use Prim.Native.String.append
use text.Mathlib.Text.{is_eq}
use Prim.Native.String.compare
use global_ledger_consistenc.Base.{
  String, true, false, ◌≡◌, Option, none, some, arith, ◌==◌, if◌then◌else◌, not,
}
use global_ledger_consistenc.Int.{ℤ}
use global_ledger_consistenc.Contracts.{within}
use global_ledger_consistenc.Externals.{Externals, Json, Fields, get_field}
use global_ledger_consistenc.Session.{ok}
use global_ledger_consistenc.Payments.UseCase.{outbox_payload}
use global_ledger_consistenc.Worker.Payload.{parse_payload}

-- `json.loads` gives back the dict that `json.dumps` was given: the same value under each key.
pub record PayloadRoundTrip (lib : Externals) : Type 0 where
  pub loads-dumps :
      (payment_id source_id destination_id : String) (amount_cents : ℤ)
      (traceparent : Option String)
      → let payload = outbox_payload payment_id source_id destination_id amount_cents traceparent in
        (fields : Fields) × (lib.loads (lib.dumps (Json.object payload))
          ≡ some (Json.object fields))
        × ((name : String) → get_field name fields ≡ get_field name payload)

pub nonempty_cons : (c : Char) (s : String) → (String.◌∷◌ c s == "") ≡ false
nonempty_cons c s = λ i. is_eq (compare.cons-nil c s i)

pub nonempty_within : (s : String) → within 3 64 s ≡ true → (s == "") ≡ false
nonempty_within String.[] h = cc
nonempty_within (String.◌∷◌ c s) h = nonempty_cons c s

pub nonempty_pay : (hex : String) → ("pay-" ++ hex == "") ≡ false
nonempty_pay hex =
    let e : ("pay-" ++ hex) ≡ String.◌∷◌ "p" ("ay-" ++ hex) = λ i. append.cons "p" "ay-" hex i in
    rw e (nonempty_cons "p" ("ay-" ++ hex))

-- An empty trace header reads as none.
abbrev pub kept : Option String → Option String
kept none = none
kept (some t) = if not (t == "") then some t else none

module _ (lib : Externals) (law : PayloadRoundTrip lib) where
  -- A payload with non-empty ids is read back field by field, an empty trace header as none, provided
  -- that `json.loads` gives back what `json.dumps` was given.
  pub parse-add_outbox :
      (payment_id source_id destination_id : String) (amount_cents : ℤ)
      (traceparent : Option String)
      → (payment_id == "") ≡ false
      → (source_id == "") ≡ false
      → (destination_id == "") ≡ false
      → parse_payload lib (
          lib.dumps (
            Json.object
              (outbox_payload payment_id source_id destination_id amount_cents traceparent)))
        ≡ ok (record {
          payment_id = payment_id;
          source_account_id = source_id;
          destination_account_id = destination_id;
          amount_cents = amount_cents;
          traceparent = kept traceparent;
        })
  unfolding parse_payload
  parse-add_outbox p s d n t hp hs hd =
      let (fields, e, same) = law.loads-dumps p s d n t in
      ground (
        arith,
        e,
        same "payment_id",
        same "source_account_id",
        same "destination_account_id",
        same "amount_cents",
        same "traceparent",
      )
