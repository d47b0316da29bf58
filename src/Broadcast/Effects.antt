-- ===== src/Broadcast/Effects.antt =====
-- What BroadcastConsumer.ts calls and what it gets back: the message of the stream, the options, the
-- other parts of the program, and computations that make calls and return or throw.
use wallet_toolbox_rocksdb.Base.{ℕ, Bool, Option, List, ◌∷◌}
use Prim.Native.String.{String}
use wallet_toolbox_rocksdb.Merkle.{Sdk}
use wallet_toolbox_rocksdb.Broadcast.Classify.{Outcome, Results}
use wallet_toolbox_rocksdb.Broadcast.Request.{Checked, passes, throws, Request}
use wallet_toolbox_rocksdb.Broadcast.Message.{Value, Fields, Payload}

-- What the code reads of the message that the stream delivers. `json` and `string` are none where
-- the methods are missing, and each may throw.
pub record Ackable : Type 0 where
  pub json : Option (Checked Payload)
  pub string : Option (Checked String)
  pub subject : Option String
  pub delivery_count : Option ℕ

pub record Options : Type 0 where
  pub has_publisher : Bool
  pub max_deliver : Option ℕ
  pub chain : Option String
  pub retry_backoff : Option ℕ

pub record DeadLetter : Type 0 where
  pub chain : String
  pub idempotency_key : List String
  pub subject : Option String
  pub message_id : Option Value
  pub original_key : Option Value
  pub txid : Option Value
  pub proven_tx_req_id : Option Value
  pub reason : String
  pub delivery_count : Option ℕ

-- The calls of other parts.
pub data Event : Type 0 where
  loading : Event
  posting : List String → Event
  recording : Outcome → Event
  dead_letter : DeadLetter → Event
  ack : Event
  nak : Option ℕ → Event
  term : String → Event

-- The other parts. Each answer may depend on the calls before, the latest first.
pub record World (V B : Type 0) : Type 0 where
  pub parse_json : String → Checked Payload
  pub to_lower : String → String
  pub print : ℕ → String
  pub stringify : Option V → String
  pub sdk : Sdk
  pub load : List Event → Fields → Checked (Request B)
  pub post : List Event → B → List String → Checked (Results V)
  pub record_attempt : List Event → Outcome → Checked (Unit {0})
  pub publish : List Event → DeadLetter → Checked (Unit {0})
  pub settle : List Event → Event → Checked (Unit {0})

-- A computation that makes calls, and returns or throws.
pub data Done {ℓ} (A : Type ℓ) : Type ℓ where
  returned : A → List Event → Done A
  thrown : String → List Event → Done A

abbrev pub Io {ℓ} : Type ℓ → Type ℓ
Io A = List Event → Done A

abbrev pub continue {ℓ κ} : {A : Type ℓ} {B : Type κ} → Done A → (A → Io B) → Done B
continue (returned a es) f = f a es
continue (thrown s es) f = thrown s es

infixl 1 ◌>>=◌
abbrev pub ◌>>=◌ {ℓ κ} : {A : Type ℓ} {B : Type κ} → Io A → (A → Io B) → Io B
(m >>= f) es = continue (m es) f

infixl 1 ◌>>◌
abbrev pub ◌>>◌ {ℓ κ} : {A : Type ℓ} {B : Type κ} → Io A → Io B → Io B
(m >> n) es = continue (m es) (λ _. n)

abbrev pub pure {ℓ} : {A : Type ℓ} → A → Io A
pure a es = returned a es

abbrev pub lift {ℓ} : {A : Type ℓ} → Checked A → Io A
lift (passes a) es = returned a es
lift (throws m) es = thrown m es

-- A call: it is made, and then it answers or throws.
abbrev pub call {ℓ} : {A : Type ℓ} → Event → (List Event → Checked A) → Io A
call e f es = lift (f es) (e ∷ es)

abbrev pub recover {ℓ} : {A : Type ℓ} → Done A → (String → Io A) → Done A
recover (returned a es) handler = returned a es
recover (thrown s es) handler = handler s es

abbrev pub catch {ℓ} : {A : Type ℓ} → Io A → (String → Io A) → Io A
catch m handler es = recover (m es) handler
