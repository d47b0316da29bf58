-- ===== src/Broadcast/Tests.antt =====
-- Runs of the model of the broadcast consumer, and its theorems at concrete inputs.
use wallet_toolbox_rocksdb.Base.{
  ℕ, ◌≡◌, refl, Bool, true, false, Option, none, some, List, ◌∷◌, [], get_elem?, inr,
}
use Prim.Native.String.{String}
use text.Mathlib.Text.{◌==◌ as str_eq}
use wallet_toolbox_rocksdb.Merkle.{Sdk}
use wallet_toolbox_rocksdb.Broadcast.Texts.{texts_run}
use wallet_toolbox_rocksdb.Broadcast.Classify.{
  accepted, rate_limited, rejected_retryable, TxResult, PostResult, Results, classify,
  classify_runs,
}
use wallet_toolbox_rocksdb.Broadcast.Classify.Verdicts.{Confirms, classify-positive}
use wallet_toolbox_rocksdb.Broadcast.Request.{passes, throws, request_runs}
use wallet_toolbox_rocksdb.Broadcast.Message.{
  Value, text_value, number_value, null_value, other_value, Fields, Payload, fields, no_object,
  message_runs,
}
use wallet_toolbox_rocksdb.Broadcast.Effects.{
  Ackable, Options, Event, ack, nak, term, World, returned, thrown,
}
use wallet_toolbox_rocksdb.Broadcast.Consume.{consume_message, consume_runs}
use wallet_toolbox_rocksdb.Broadcast.Consume.Settlement.{
  settlements, consume_message-settles, consume_message-unsettled,
}
use wallet_toolbox_rocksdb.Broadcast.Consume.Safety.{InOrder, calls, consume_message-InOrder}

abbrev printed_value : Option String → String
printed_value none = ""
printed_value (some s) = s

abbrev answer : (succeeded service_error : Bool) → Option String → TxResult String
answer succeeded service_error details = record {
  txid = "aa";
  succeeded = succeeded;
  already_known = false;
  double_spend = false;
  service_error = service_error;
  details = details;
}

abbrev result : (succeeded service_error : Bool) → Option String → Option (PostResult String)
result succeeded service_error details = some (record {
  succeeded = succeeded;
  error = none;
  txid_results = some (answer succeeded service_error details ∷ []);
})

-- A provider that limits the rate, in front of one that accepts.
abbrev limited_then_accepted : List (Option (PostResult String))
limited_then_accepted = result false true (some "429 Too Many") ∷ result true false none ∷ []

abbrev down_then_accepted : List (Option (PostResult String))
down_then_accepted = result false true (some "ECONNREFUSED") ∷ result true false none ∷ []

abbrev both_down : List (Option (PostResult String))
both_down = result false true none ∷ result false true (some "ECONNREFUSED") ∷ []

classify_tests :
    (classify printed_value (some limited_then_accepted) "aa" ≡ rate_limited)
    × (classify printed_value (some down_then_accepted) "aa" ≡ accepted)
    × (classify printed_value (some both_down) "aa" ≡ rejected_retryable)
unfolding classify_runs texts_run str_eq
classify_tests = (refl, refl, refl)

classify-positive_example :
    (i : ℕ) × (r : Option (PostResult String)) × (get_elem? down_then_accepted i ≡ some r)
    × Confirms printed_value "aa" r
unfolding classify_runs texts_run str_eq
classify-positive_example = classify-positive printed_value "aa" down_then_accepted refl

abbrev message : Fields
message =
    ("messageId", text_value "m1")
    ∷ ("idempotencyKey", text_value "k1")
    ∷ ("source", text_value "wallet")
    ∷ ("chain", text_value "main")
    ∷ ("txid", text_value "aa")
    ∷ ("rawTxHash", text_value "aa")
    ∷ ("walletStorageIdentityKey", text_value "id")
    ∷ ("createdAtMs", number_value "1000")
    ∷ ("schemaVersion", number_value "1")
    ∷ ("attempt", number_value "0")
    ∷ ("priority", number_value "0")
    ∷ ("provenTxReqId", number_value "7")
    ∷ []

abbrev plain_sdk : Sdk
plain_sdk = record { to_array = λ s. []; to_hex = λ b. "aa"; sha256 = λ b. b }

-- A world in which loading gives a transaction and posting gives the results; the rest succeeds.
abbrev world : List (Option (PostResult String)) → World String (Unit {0})
world results = record {
  parse_json = λ s. throws "Unexpected end of JSON input";
  to_lower = λ s. s;
  print = λ n. "3";
  stringify = printed_value;
  sdk = plain_sdk;
  load = λ es fs. passes (record { beef = tt; txids = none; txid = some "aa"; raw_tx = some "00" });
  post = λ es beef txids. passes (some results);
  record_attempt = λ es o. passes tt;
  publish = λ es d. passes tt;
  settle = λ es e. passes tt;
}

abbrev delivered : Payload → ℕ → Ackable
delivered p n = record {
  json = some (passes p);
  string = none;
  subject = none;
  delivery_count = some n;
}

abbrev options : Options
options = record {
  has_publisher = true;
  max_deliver = none;
  chain = some "main";
  retry_backoff = some 500;
}

-- The calls, by what settles the message.
abbrev settled_by : List Event → Option Event
settled_by [] = none
settled_by (e ∷ es) = some e

consume_tests :
    (settled_by (
        calls (
          consume_message
            (world down_then_accepted)
            (delivered (fields message) 1)
            options
            false
            false
            []))
      ≡ some ack)
    × (settled_by (
          calls (
            consume_message
              (world both_down)
              (delivered (fields message) 1)
              options
              false
              false
              []))
        ≡ some (nak (some 500)))
    × (settled_by (
          calls (
            consume_message
              (world both_down)
              (delivered (fields message) 3)
              options
              false
              false
              []))
        ≡ some (term "rejected_retryable"))
    × (settled_by
          (calls (consume_message (world both_down) (delivered no_object 1) options false false []))
        ≡ some (term "TxBroadcastMessage must be an object"))
unfolding classify_runs texts_run str_eq request_runs message_runs consume_runs
consume_tests = (refl, refl, refl, refl)

consume_message-settles_example :
    (a : Option (Results String)) × (es : List Event) × (consume_message
        (world both_down)
        (delivered (fields message) 3)
        options
        false
        false
        []
      ≡ returned a es)
    × (settlements es ≡ 1)
unfolding message_runs consume_runs str_eq
consume_message-settles_example =
    consume_message-settles (world both_down) (delivered (fields message) 3) options (λ es d. refl)
      (λ es e. refl) false false
      (inr ("main" ∷ "id" ∷ "broadcast-deadletter" ∷ "7" ∷ "aa" ∷ "3" ∷ [], "main", refl, refl))

consume_message-InOrder_example : InOrder true (
    calls (consume_message (world both_down) (delivered (fields message) 3) options false false []))
consume_message-InOrder_example =
    consume_message-InOrder (world both_down) (delivered (fields message) 3) options false false

-- A message of a third chain, with nothing else.
abbrev foreign : Fields
foreign = ("chain", text_value "ttn") ∷ []

consume_message-unsettled_example :
    consume_message (world both_down) (delivered (fields foreign) 9) options false false []
    ≡ thrown "The chain parameter must be 'test' or 'main' for distributed messaging" []
unfolding message_runs consume_runs texts_run str_eq
consume_message-unsettled_example =
    consume_message-unsettled (world both_down) (delivered (fields foreign) 9) options false false
      (fields foreign) "TxBroadcastMessage.messageId is required"
      ("ttn" ∷ "unknown-wallet" ∷ "broadcast-deadletter" ∷ "malformed" ∷ "unknown-txid" ∷ "3" ∷ [])
      refl refl refl refl refl refl

-- Chains that `??` keeps, and one that it passes over.
abbrev chained : Value → Ackable
chained v = delivered (fields (("chain", v) ∷ [])) 9

chain_tests :
    (consume_message
        (world both_down)
        (chained (other_value (passes "true")))
        options
        false
        false
        []
      ≡ thrown "The chain parameter must be 'test' or 'main' for distributed messaging" [])
    × (consume_message
          (world both_down)
          (chained (other_value (throws "no primitive value")))
          options
          false
          false
          []
        ≡ thrown "no primitive value" [])
    × (settled_by
          (calls (consume_message (world both_down) (chained null_value) options false false []))
        ≡ some (term "TxBroadcastMessage.messageId is required"))
unfolding classify_runs texts_run str_eq request_runs message_runs consume_runs
chain_tests = (refl, refl, refl)
