-- ===== src/Broadcast/Message.antt =====
-- The payload of a message to broadcast, and `validateTxBroadcastMessage` of BroadcastConsumer.ts.
use wallet_toolbox_rocksdb.Base.{Option, none, some, List, ◌∷◌, [], if◌then◌else◌, ◌≡◌, ap, arith}
use Prim.Native.String.{String, ◌++◌}
use text.Mathlib.Text.{◌==◌ as str_eq}
use wallet_toolbox_rocksdb.Broadcast.Texts.{codes, is_blank}
use wallet_toolbox_rocksdb.Broadcast.Request.{Checked, passes, throws}

-- The values of a message's fields: a text, a finite number by its printed form, null, or any other
-- by what its conversion to a text gives or throws.
pub data Value : Type 0 where
  text_value : String → Value
  number_value : String → Value
  null_value : Value
  other_value : Checked String → Value

abbrev pub Fields : Type 0
Fields = List (String × Value)

-- What was read: an object that is no array, or any other value.
pub data Payload : Type 0 where
  fields : Fields → Payload
  no_object : Payload

-- The message that the `catch` sees: the object that was read.
abbrev pub message_of : Payload → Option Fields
message_of (fields fs) = some fs
message_of no_object = none

pub lookup : String → Fields → Option Value
lookup key [] = none
lookup key ((k, v) ∷ fs) = if str_eq k key then some v else lookup key fs

-- The text of a field that `validateTxBroadcastMessage` has required.
pub text_of : String → Fields → Option String
unfolding lookup
text_of key fs = elim (lookup key fs) [
  | none ↦ none
  | some v ↦ elim v [
    | text_value s ↦ some s
    | number_value s ↦ some s
    | null_value ↦ none
    | other_value c ↦ none
  ]
]

-- What `??` goes on with: neither undefined nor null.
pub present : Option Value → Option Value
present none = none
present (some v) = elim v [
  | text_value s ↦ some (text_value s)
  | number_value s ↦ some (number_value s)
  | null_value ↦ none
  | other_value c ↦ some (other_value c)
]

-- A value as `join` writes it.
pub written : Value → Checked String
written (text_value s) = passes s
written (number_value s) = passes s
written null_value = passes ""
written (other_value c) = c

-- A text, or the given one where it is missing.
pub printed : String → Option String → String
printed otherwise none = otherwise
printed otherwise (some s) = s

required : String → String
required key = "TxBroadcastMessage." ++ key ++ " is required"

check_texts : List String → Fields → Checked (Unit {0})
unfolding required lookup
check_texts [] fs = passes tt
check_texts (key ∷ keys) fs = elim (lookup key fs) [
  | none ↦ throws (required key)
  | some v ↦ elim v [
    | text_value s ↦ if is_blank (codes s) then throws (required key) else check_texts keys fs
    | number_value s ↦ throws (required key)
    | null_value ↦ throws (required key)
    | other_value c ↦ throws (required key)
  ]
]

check_numbers : List String → Fields → Checked (Unit {0})
unfolding required lookup
check_numbers [] fs = passes tt
check_numbers (key ∷ keys) fs = elim (lookup key fs) [
  | none ↦ throws (required key)
  | some v ↦ elim v [
    | text_value s ↦ throws (required key)
    | number_value s ↦ check_numbers keys fs
    | null_value ↦ throws (required key)
    | other_value c ↦ throws (required key)
  ]
]

check_absent : List String → Fields → Checked (Unit {0})
unfolding lookup
check_absent [] fs = passes tt
check_absent (key ∷ keys) fs = elim (lookup key fs) [
  | none ↦ check_absent keys fs
  | some v ↦ throws ("TxBroadcastMessage." ++ key ++ " must not be present")
]

abbrev pub and_then {ℓ κ} : {A : Type ℓ} {B : Type κ} → Checked A → (A → Checked B) → Checked B
and_then (passes a) f = f a
and_then (throws m) f = throws m

check_fields : Fields → Checked (Unit {0})
unfolding check_texts check_numbers check_absent
check_fields fs =
    and_then
      (check_texts
        ("messageId" ∷ "idempotencyKey" ∷ "source" ∷ "chain" ∷ "txid" ∷ "rawTxHash"
          ∷ "walletStorageIdentityKey" ∷ [])
        fs)
      (λ _.
        and_then
          (check_numbers
            ("createdAtMs" ∷ "schemaVersion" ∷ "attempt" ∷ "priority" ∷ "provenTxReqId" ∷ []) fs)
          (λ _.
            check_absent ("rawTx" ∷ "rawTxHex" ∷ "rawTransaction" ∷ "transactionBytes" ∷ []) fs))

-- The payload's fields, once they are checked.
pub validate_message : Payload → Checked Fields
unfolding check_fields
validate_message no_object = throws "TxBroadcastMessage must be an object"
validate_message (fields fs) = and_then (check_fields fs) (λ _. passes fs)

and_then-passes :
    {A : Type 0} (c : Checked (Unit {0})) (x y : A) → and_then c (λ _. passes x) ≡ passes y → x ≡ y
and_then-passes (passes _) x y e = cc
and_then-passes (throws m) x y e = absurd (ground arith)

-- A payload that passes is an object, and its fields are what the code goes on with.
pub validate_message-fields :
    (p : Payload) (fs : Fields) → validate_message p ≡ passes fs → p ≡ fields fs
unfolding validate_message
validate_message-fields no_object fs e = absurd (ground arith)
validate_message-fields (fields gs) fs e = ap fields (and_then-passes (check_fields gs) gs fs e)

unfoldable pub message_runs : Unit {0}
unfolding lookup text_of present written printed required check_texts check_numbers check_absent
    check_fields validate_message
message_runs = tt
