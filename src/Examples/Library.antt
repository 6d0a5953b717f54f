-- ===== src/Examples/Library.antt =====
-- A small `json` and the rest of what the program calls, to show that their laws can hold. A payload
-- is written as the texts of its five values, each character behind a comma, each text closed by a
-- semicolon; numbers are unary.
use Prim.Native.Char.{Char, code}
use global_ledger_consistenc.Base.{
  ℕ, zero, suc, ◌-◌, String, false, ◌≡◌, refl, sym, ap, ◌∙◌, Option, none, some, arith, ◌==◌, ltb,
  leb, ◌&&◌, if◌then◌else◌,
}
use global_ledger_consistenc.Int.{ℤ, pos, negsuc}
use global_ledger_consistenc.Contracts.{
  CreatePaymentRequest, PaymentResponse, PaymentStatus, received, reserved, completed, rejected,
}
use global_ledger_consistenc.Externals.{
  Externals, Json, Fields, get_field, DigitClass, decimal, other, ResponseRoundTrip,
}
use global_ledger_consistenc.Payments.UseCase.{outbox_payload}
use global_ledger_consistenc.Payments.CreatePayment.{compute_request_hash, request_payload}
use global_ledger_consistenc.System.Replay.Conflicts.{IsSeparating}
use Prim.Native.String.compare
use text.Mathlib.Text.{is_eq}
use global_ledger_consistenc.Worker.Outbox.Order.{IsCollation}
use global_ledger_consistenc.Worker.Payload.RoundTrip.{PayloadRoundTrip, nonempty_cons}

write : String → String → String
write String.[] rest = String.◌∷◌ ";" rest
write (String.◌∷◌ c s) rest = String.◌∷◌ "," (String.◌∷◌ c (write s rest))

after : Char → Option (String × String) → Option (String × String)
after c none = none
after c (some (x, rest)) = some (String.◌∷◌ c x, rest)

next_text : String → Option (String × String)
next_text String.[] = none
next_text (String.◌∷◌ h String.[]) = if ltb (code h) 59 then none else some ("", "")
next_text (String.◌∷◌ h (String.◌∷◌ c s)) =
    let rest = next_text s in if ltb (code h) 59 then after c rest else some ("", String.◌∷◌ c s)

next_text-write : (s rest : String) → next_text (write s rest) ≡ some (s, rest)
unfolding next_text write after
next_text-write String.[] String.[] = refl
next_text-write String.[] (String.◌∷◌ c rest) = refl
next_text-write (String.◌∷◌ c s) rest = ap (after c) (next_text-write s rest)

ones : ℕ → String
ones zero = ""
ones (suc n) = String.◌∷◌ "1" (ones n)

size : String → ℕ
size String.[] = 0
size (String.◌∷◌ c s) = suc (size s)

size-ones : (n : ℕ) → size (ones n) ≡ n
unfolding size ones
size-ones zero = refl
size-ones (suc n) = ap suc (size-ones n)

write_int : ℤ → String
write_int (pos n) = String.◌∷◌ "p" (ones n)
write_int (negsuc n) = String.◌∷◌ "n" (ones n)

read_int : String → ℤ
read_int String.[] = pos 0
read_int (String.◌∷◌ c s) = if leb (code c) 110 then negsuc (size s) else pos (size s)

read-write_int : (n : ℤ) → read_int (write_int n) ≡ n
unfolding read_int write_int
read-write_int (pos n) = ap pos (size-ones n)
read-write_int (negsuc n) = ap negsuc (size-ones n)

write_optional : Option String → String
write_optional none = ""
write_optional (some t) = String.◌∷◌ "s" t

read_optional : String → Option String
read_optional String.[] = none
read_optional (String.◌∷◌ c t) = some t

read-write_optional : (t : Option String) → read_optional (write_optional t) ≡ t
unfolding read_optional write_optional
read-write_optional none = refl
read-write_optional (some t) = refl

write_value : Option Json → String
write_value (some (Json.str s)) = s
write_value (some (Json.int n)) = write_int n
write_value _ = ""

write_trace : Option Json → String
write_trace (some (Json.str s)) = write_optional (some s)
write_trace _ = write_optional none

write_fields : Fields → String
unfolding write_value write_trace get_field
write_fields fs = write (write_value (get_field "payment_id" fs)) (
    write (write_value (get_field "source_account_id" fs)) (
      write (write_value (get_field "destination_account_id" fs)) (
        write (write_value (get_field "amount_cents" fs))
          (write (write_trace (get_field "traceparent" fs)) ""))))

dumps : Json → String
unfolding write_fields
dumps (Json.object fs) = write_fields fs
dumps _ = ""

infixl 5 ◌>>=◌
abbrev ◌>>=◌ : {A B : Type 0} → Option A → (A → Option B) → Option B
none >>= f = none
some a >>= f = f a

loads : String → Option Json
loads text = do
  p ← next_text text
  s ← next_text p.1
  d ← next_text s.1
  n ← next_text d.1
  t ← next_text n.1
  some (Json.object (outbox_payload p.0 s.0 d.0 (read_int n.0) (read_optional t.0)))

loads-dumps :
    (p s d : String) (n : ℤ) (t : Option String)
    → loads (dumps (Json.object (outbox_payload p s d n t)))
      ≡ some (Json.object (outbox_payload p s d n t))
unfolding loads dumps
loads-dumps p s d n none = simp (next_text-write, read-write_int, read-write_optional)
loads-dumps p s d n (some t) = simp (next_text-write, read-write_int, read-write_optional)

status_char : PaymentStatus → Char
status_char received = "a"
status_char reserved = "b"
status_char completed = "c"
status_char rejected = "d"

model_dump_json : PaymentResponse → String
unfolding status_char
model_dump_json r = String.◌∷◌ (status_char r.status) r.payment_id

status_of : ℕ → PaymentStatus
status_of c =
    if leb c 97
    then received
    else if leb c 98
    then reserved
    else if leb c 99
    then completed
    else rejected

model_validate_json : String → Option PaymentResponse
unfolding status_of
model_validate_json String.[] = none
model_validate_json (String.◌∷◌ c s) = some (record { payment_id = s; status = status_of (code c) })

digit_class : ℕ → DigitClass
digit_class c = if leb 48 c && leb c 57 then decimal (c - 48) else other

pub small : Externals
small = record {
  dumps = dumps;
  dumps_compact = dumps;
  loads = loads;
  sha256_hexdigest = λ s. s;
  model_dump_json = model_dump_json;
  model_validate_json = model_validate_json;
  collates_before = λ a b. false;
  digit_class = digit_class;
}

pub small-PayloadRoundTrip : PayloadRoundTrip small
unfolding small
small-PayloadRoundTrip = record {
  loads-dumps = λ p s d n t. (outbox_payload p s d n t, loads-dumps p s d n t, λ name. refl);
}

status_of-status_char : (s : PaymentStatus) → status_of (code (status_char s)) ≡ s
unfolding status_of status_char
status_of-status_char received = refl
status_of-status_char reserved = refl
status_of-status_char completed = refl
status_of-status_char rejected = refl

validate-dump : (r : PaymentResponse) → model_validate_json (model_dump_json r) ≡ some r
unfolding model_dump_json model_validate_json
validate-dump r = ground (arith, status_of-status_char r.status)

dump_nonempty : (r : PaymentResponse) → (model_dump_json r == "") ≡ false
unfolding model_dump_json
dump_nonempty r = nonempty_cons (status_char r.status) r.payment_id

pub small-ResponseRoundTrip : ResponseRoundTrip small
unfolding small
small-ResponseRoundTrip = record { validate-dump = validate-dump; dump_nonempty = dump_nonempty }

semicolon_differs : (s : String) → ("another" == String.◌∷◌ ";" s) ≡ false
semicolon_differs s = λ i. is_eq (compare.cons-cons "a" ";" "nother" s i)

-- Under this library the text `another` is the hash of no request.
pub no_hash : (r : CreatePaymentRequest) → ("another" == compute_request_hash small r) ≡ false
unfolding compute_request_hash small dumps write write_fields get_field write_value
no_hash r = semicolon_differs _

pub small-IsCollation : IsCollation small
unfolding small
small-IsCollation = record { asym = λ a b h. refl; chain = λ a b c h k. refl }

next_value : {x y : String × String} → some x ≡ some y → x ≡ y
next_value h = ground (arith, h)

write_same : (s t x y : String) → write s x ≡ write t y → ◌≡◌ {A = String × String} (s, x) (t, y)
write_same s t x y h = next_value (sym (next_text-write s x) ∙ ap next_text h ∙ next_text-write t y)

-- Two requests that differ in nothing but the amount are told apart by this library.
pub small-IsSeparating :
    (r : CreatePaymentRequest) (n : ℤ)
    → IsSeparating small (request_payload r) (request_payload (record r { amount_cents = n }))
unfolding request_payload small dumps write_fields get_field write_value
small-IsSeparating r n = record {
  dumps = λ h.
      let at_source = ap (λ p. p.1) (write_same _ _ _ _ h) in
      let at_destination = ap (λ p. p.1) (write_same _ _ _ _ at_source) in
      let at_amount = ap (λ p. p.1) (write_same _ _ _ _ at_destination) in
      let same = ap (λ p. read_int (p.0)) (write_same _ _ _ _ at_amount) in
      ap (λ m. request_payload (record r { amount_cents = m }))
        (sym (read-write_int r.amount_cents) ∙ same ∙ read-write_int n);
  sha256 = λ h. h;
}
