-- ===== src/Broadcast/Consume.antt =====
-- `consumeJetStreamMessage` of BroadcastConsumer.ts: a message is read, checked, loaded, posted and
-- recorded, and then settled by an acknowledgement, a request for redelivery, or a termination behind
-- a dead letter.
use wallet_toolbox_rocksdb.Base.{
  ℕ, Bool, true, false, not, ◌&&◌, ◌||◌, Option, none, some, List, ◌∷◌, [], if◌then◌else◌, leb,
}
use Prim.Native.String.{String, ◌++◌}
use text.Mathlib.Text.{◌==◌ as str_eq}
use wallet_toolbox_rocksdb.Broadcast.Texts.{names_malformed}
use wallet_toolbox_rocksdb.Broadcast.Classify.{
  Outcome, seen, already_seen, accepted, rejected_terminal, rejected_retryable, rate_limited,
  timeout, unknown, malformed, Results, classify, is_retryable,
}
use wallet_toolbox_rocksdb.Broadcast.Request.{
  Checked, passes, throws, Request, raw_tx_hash, normalize_txids,
}
use wallet_toolbox_rocksdb.Broadcast.Message.{
  Value, text_value, number_value, null_value, other_value, Fields, Payload, fields, no_object,
  lookup, text_of, present, written, printed, and_then, validate_message, message_of,
}
use wallet_toolbox_rocksdb.Broadcast.Effects.{
  Ackable, Options, DeadLetter, Event, loading, posting, recording, dead_letter, ack, nak, term,
  World, Io, ◌>>=◌, ◌>>◌, pure, lift, call, catch,
}
pub mod Settlement
pub mod Safety

pub outcome_name : Outcome → String
outcome_name seen = "seen"
outcome_name already_seen = "already_seen"
outcome_name accepted = "accepted"
outcome_name rejected_terminal = "rejected_terminal"
outcome_name rejected_retryable = "rejected_retryable"
outcome_name rate_limited = "rate_limited"
outcome_name timeout = "timeout"
outcome_name unknown = "unknown"
outcome_name malformed = "malformed"

abbrev pub exceeded_reason : Outcome → String
unfolding outcome_name
exceeded_reason outcome =
    "retryable broadcast outcome exceeded max deliveries: " ++ outcome_name outcome

abbrev pub chain_refused : String
chain_refused = "The chain parameter must be 'test' or 'main' for distributed messaging"

-- `chain === 'test' || chain === 'main'`, which no value but a text can be.
pub to_distributed_chain : Value → Checked String
to_distributed_chain (text_value s) =
    if str_eq s "test" || str_eq s "main" then passes s else throws chain_refused
to_distributed_chain (number_value s) = throws chain_refused
to_distributed_chain null_value = throws chain_refused
to_distributed_chain (other_value c) = throws chain_refused

pub has_exceeded : Ackable → Option ℕ → Bool
has_exceeded a max = elim a.delivery_count [
  | none ↦ false
  | some n ↦ leb (elim max [ none ↦ 3 | some m ↦ m ]) n
]

module _ {V B : Type 0} (w : World V B) (a : Ackable) (o : Options) where
  pub read_payload : Checked Payload
  read_payload = elim a.json [
    | some p ↦ p
    | none ↦ elim a.string [ none ↦ passes no_object | some s ↦ and_then s w.parse_json ]
  ]

  -- `closed` are the flags of the consumer and of its orchestrator.
  pub consume : (closed orchestrator_closed : Bool) → Request B → Io (Results V)
  consume closed orchestrator_closed r =
      if closed
      then lift (throws "BroadcastConsumer is closed.")
      else if orchestrator_closed
      then lift (throws "BroadcastOrchestrator is closed.")
      else (do
        txids ← lift (normalize_txids w.to_lower w.sdk r)
        call (posting txids) (λ es. w.post es r.beef txids))

  pub validate_raw_tx_hash : Fields → Request B → Checked (Unit {0})
  validate_raw_tx_hash fs r = elim r.raw_tx [
    | none ↦ passes tt
    | some raw ↦
        if str_eq (w.to_lower (raw_tx_hash w.to_lower w.sdk raw))
          (w.to_lower (printed "" (text_of "rawTxHash" fs)))
        then passes tt
        else throws "TxBroadcastMessage.rawTxHash does not match loaded rawTx"
  ]

  abbrev pub field : String → Option Fields → Option Value
  field key none = none
  field key (some fs) = lookup key fs

  -- `chain` is the message's, or the option's, or else 'test'.
  pub dead_letter_chain : Option Fields → Value
  dead_letter_chain message = elim (present (field "chain" message)) [
    | none ↦ text_value (printed "test" o.chain)
    | some v ↦ v
  ]

  key_part : (key otherwise : String) → Option Fields → Checked String
  key_part key otherwise message = elim (present (field key message)) [
    | none ↦ passes otherwise
    | some v ↦ written v
  ]

  pub idempotency_key : Option Fields → Checked (List String)
  unfolding dead_letter_chain key_part
  idempotency_key message = and_then (written (dead_letter_chain message)) (λ chain.
      and_then (key_part "walletStorageIdentityKey" "unknown-wallet" message) (λ wallet.
        and_then (key_part "provenTxReqId" "malformed" message) (λ req.
          and_then (key_part "txid" "unknown-txid" message) (λ txid. passes (
            chain
            ∷ wallet
            ∷ "broadcast-deadletter"
            ∷ req
            ∷ txid
            ∷ elim a.delivery_count [ none ↦ "0" | some n ↦ w.print n ]
            ∷ [])))))

  abbrev pub letter :
      Option Fields → (reason : String) → List String → (chain : String) → DeadLetter
  letter message reason key chain = record {
    chain = chain;
    idempotency_key = key;
    subject = a.subject;
    message_id = field "messageId" message;
    original_key = field "idempotencyKey" message;
    txid = field "txid" message;
    proven_tx_req_id = field "provenTxReqId" message;
    reason = reason;
    delivery_count = a.delivery_count;
  }

  -- The key is joined first, and then the chain is checked.
  pub dead_letter_of : Option Fields → (reason : String) → Checked DeadLetter
  unfolding idempotency_key dead_letter_chain to_distributed_chain
  dead_letter_of message reason = and_then (idempotency_key message) (λ key.
      and_then (to_distributed_chain (dead_letter_chain message))
        (λ chain. passes (letter message reason key chain)))

  pub publish_dead_letter : Option Fields → String → Io (Unit {0})
  unfolding dead_letter_of
  publish_dead_letter message reason = if not o.has_publisher then pure tt else (do
    d ← lift (dead_letter_of message reason)
    call (dead_letter d) (λ es. w.publish es d))

  pub settle_as : Event → Io (Unit {0})
  settle_as e = call e (λ es. w.settle es e)

  pub settle_outcome : Fields → Outcome → Io (Unit {0})
  unfolding publish_dead_letter settle_as
  settle_outcome fs outcome =
      if is_retryable outcome
      then (if has_exceeded a o.max_deliver
          then (do
            publish_dead_letter (some fs) (exceeded_reason outcome)
            settle_as (term (outcome_name outcome)))
          else settle_as (nak o.retry_backoff))
      else settle_as ack

  -- The body of the `try`, from its last step to its first: the results of the providers, the
  -- request that was loaded, the message that was checked, and the payload.
  pub with_results : Fields → Results V → Io (Option (Results V))
  unfolding settle_outcome
  with_results fs results =
      let outcome = classify w.stringify results (printed "" (text_of "txid" fs)) in
      (do
        call (recording outcome) (λ es. w.record_attempt es outcome)
        settle_outcome fs outcome
        pure (some results))

  pub with_request :
      (closed orchestrator_closed : Bool) → Fields → Request B → Io (Option (Results V))
  unfolding validate_raw_tx_hash consume with_results
  with_request closed orchestrator_closed fs r = do
    lift (validate_raw_tx_hash fs r)
    results ← consume closed orchestrator_closed r
    with_results fs results

  pub with_message : (closed orchestrator_closed : Bool) → Fields → Io (Option (Results V))
  unfolding with_request
  with_message closed orchestrator_closed fs = do
    r ← call loading (λ es. w.load es fs)
    with_request closed orchestrator_closed fs r

  pub attempt : (closed orchestrator_closed : Bool) → Payload → Io (Option (Results V))
  unfolding with_message
  attempt closed orchestrator_closed payload = do
    fs ← lift (validate_message payload)
    with_message closed orchestrator_closed fs

  -- The body of the `catch`.
  pub on_error : Option Fields → String → Io (Option (Results V))
  unfolding publish_dead_letter settle_as
  on_error message error =
      if names_malformed error || has_exceeded a o.max_deliver
      then (do publish_dead_letter message error; settle_as (term error); pure none)
      else (do settle_as (nak none); pure none)

  pub consume_message : (closed orchestrator_closed : Bool) → Io (Option (Results V))
  unfolding read_payload attempt on_error
  consume_message closed orchestrator_closed = elim read_payload [
    | throws m ↦ on_error none m
    | passes payload ↦
        catch (attempt closed orchestrator_closed payload) (on_error (message_of payload))
  ]

unfoldable pub consume_runs : Unit {0}
unfolding outcome_name has_exceeded read_payload consume validate_raw_tx_hash to_distributed_chain
    dead_letter_chain key_part idempotency_key dead_letter_of publish_dead_letter settle_as
    settle_outcome with_results with_request with_message attempt on_error consume_message
consume_runs = tt
