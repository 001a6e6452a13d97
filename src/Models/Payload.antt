-- ===== src/Models/Payload.antt =====
-- An operation's payload, as JSON decodes it, and the readers of
-- internal/platform/integrations/operations/api_client.go and of shared/value_read_map.go.
use releasea_worker.Prelude.{
  ℕ, ◌+◌, ◌-◌, ◌*◌, leb, code, ◌=ℕ◌, ◌&&◌, if◌then◌else◌, trim_space, none, String, Bool, Option,
  some, List, [], ◌∷◌, lookup, ◌≡◌, refl, ap,
}
use releasea_worker.Prelude.Int.{ℤ, pos, ◌-ℤ◌}

-- `strs` is a Go `[]string`, which only a payload built by the worker's own code holds. A number is
-- given by the integer that `int(v)` makes of it.
mutual
  pub data Value : Type 0 where
    null : Value
    bool : Bool → Value
    num : ℤ → Value
    str : String → Value
    strs : List String → Value
    arr : Items → Value
    obj : Fields → Value

  pub data Items : Type 0 where
    no_items : Items
    item : Value → Items → Items

  pub data Fields : Type 0 where
    no_fields : Fields
    field : String → Value → Fields → Fields

abbrev pub Payload : Type 0
Payload = List (String × Value)

abbrev pub fields : Fields → Payload
fields no_fields = []
fields (field k v fs) = (k, v) ∷ fields fs

abbrev pub to_fields : Payload → Fields
to_fields [] = no_fields
to_fields ((k, v) ∷ rest) = field k v (to_fields rest)

abbrev pub items : Items → List Value
items no_items = []
items (item v vs) = v ∷ items vs

abbrev pub to_items : List Value → Items
to_items [] = no_items
to_items (v ∷ vs) = item v (to_items vs)

-- A `map[string]interface{}` and a `[]interface{}` as values.
abbrev pub object : Payload → Value
object entries = obj (to_fields entries)

abbrev pub array : List Value → Value
array values = arr (to_items values)

-- `stringPayload`.
unfoldable pub string_payload : Value → String
string_payload (str s) = s
string_payload _ = ""

abbrev string_or_empty : Option Value → String
string_or_empty (some (str s)) = s
string_or_empty _ = ""

-- `PayloadString`; `stringPayload(op.Payload[key])` is the same, since a missing key reads as nil.
unfoldable pub payload_string : Payload → String → String
payload_string payload key = string_or_empty (lookup key payload)

-- The digits of a text as a number, from the value of those before.
digits : ℕ → String → Option ℕ
digits n String.[] = some n
digits n (String.◌∷◌ c s) =
    let rest = digits (n * 10 + (code c - b'0')) s in
    if leb b'0' (code c) && leb (code c) b'9' then rest else none

abbrev within : ℕ → (ℕ → ℤ) → Option ℕ → Option ℤ
within limit make none = none
within limit make (some n) = if leb n limit then some (make n) else none

abbrev negated : ℕ → ℤ
negated n = pos 0 -ℤ pos n

abbrev unsigned : String → Option ℕ
unfolding digits
unsigned String.[] = none
unsigned (String.◌∷◌ c s) = digits 0 (String.◌∷◌ c s)

-- `strconv.Atoi`, of an `int` of 64 bits.
unfoldable pub atoi : String → Option ℤ
unfolding unsigned
atoi String.[] = none
atoi (String.◌∷◌ c s) =
    if code c =ℕ b'-'
    then within 9223372036854775808 negated (unsigned s)
    else if code c =ℕ b'+'
    then within 9223372036854775807 pos (unsigned s)
    else within 9223372036854775807 pos (unsigned (String.◌∷◌ c s))

abbrev or_zero : Option ℤ → ℤ
or_zero none = pos 0
or_zero (some n) = n

abbrev int_of : Option Value → ℤ
unfolding atoi
int_of (some (num n)) = n
int_of (some (str s)) = or_zero (atoi (trim_space s))
int_of _ = pos 0

-- `PayloadInt`.
unfoldable pub payload_int : Payload → String → ℤ
unfolding int_of
payload_int payload key = int_of (lookup key payload)

item_strings : Items → List String
item_strings no_items = []
item_strings (item v vs) = string_payload v ∷ item_strings vs

abbrev strings_of : Option Value → List String
unfolding item_strings
strings_of (some (strs ss)) = ss
strings_of (some (arr vs)) = item_strings vs
strings_of _ = []

-- `payloadStringSlice(op.Payload[key])`.
unfoldable pub payload_string_slice : Payload → String → List String
unfolding strings_of string_payload
payload_string_slice payload key = strings_of (lookup key payload)

pub fields-to_fields : (entries : Payload) → fields (to_fields entries) ≡ entries
fields-to_fields [] = refl
fields-to_fields ((k, v) ∷ rest) = ap (λ e. (k, v) ∷ e) (fields-to_fields rest)

pub items-to_items : (values : List Value) → items (to_items values) ≡ values
items-to_items [] = refl
items-to_items (v ∷ vs) = ap (λ e. v ∷ e) (items-to_items vs)

atoi_tests : (atoi "-12" ≡ some (pos 0 -ℤ pos 12)) × (atoi "+7" ≡ some (pos 7)) × (atoi "1a" ≡ none)
unfolding atoi
atoi_tests = (refl, refl, refl)
