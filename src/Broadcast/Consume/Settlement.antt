-- ===== src/Broadcast/Consume/Settlement.antt =====
-- How consumption of a message ends: with one settlement, last, unless a dead letter or a settlement
-- itself fails.
use wallet_toolbox_rocksdb.Base.{
  ℕ, suc, ◌≡◌, ◌⊎◌, refl, ap, inl, inr, Bool, true, false, Option, none, some, List, ◌∷◌, [],
  Bool-cases, ◌||◌,
}
use Prim.Native.String.{String}
use wallet_toolbox_rocksdb.Broadcast.Classify.{Outcome, Results, classify, is_retryable}
use wallet_toolbox_rocksdb.Broadcast.Texts.{names_malformed}
use wallet_toolbox_rocksdb.Broadcast.Request.{
  Checked, passes, throws, Checked-cases, Request, normalize_txids,
}
use wallet_toolbox_rocksdb.Broadcast.Message.{
  Fields, Payload, text_of, printed, message_of, validate_message, validate_message-fields,
}
use wallet_toolbox_rocksdb.Broadcast.Effects.{
  Ackable, Options, DeadLetter, Event, loading, posting, recording, dead_letter, ack, nak, term,
  World, Done, returned, thrown, Io, ◌>>=◌, ◌>>◌, pure, lift, call, continue, recover,
}
use wallet_toolbox_rocksdb.Broadcast.Consume.{
  outcome_name, has_exceeded, read_payload, consume, validate_raw_tx_hash, dead_letter_of,
  publish_dead_letter, to_distributed_chain, idempotency_key, letter, settle_as, settle_outcome,
  dead_letter_chain, with_results, with_request, with_message, attempt, on_error, exceeded_reason,
  chain_refused, consume_message,
}

abbrev pub settlements : List Event → ℕ
settlements [] = 0
settlements (loading ∷ es) = settlements es
settlements (posting ts ∷ es) = settlements es
settlements (recording o ∷ es) = settlements es
settlements (dead_letter d ∷ es) = settlements es
settlements (ack ∷ es) = suc (settlements es)
settlements (nak d ∷ es) = suc (settlements es)
settlements (term r ∷ es) = suc (settlements es)

-- A computation that has settled when it returns, and has not when it throws.
abbrev Settles {ℓ} : {A : Type ℓ} → Done A → Type 0
Settles (returned a es) = settlements es ≡ 1
Settles (thrown m es) = settlements es ≡ 0

-- A computation that does not settle.
abbrev Keeps {ℓ} : {A : Type ℓ} → Done A → Type 0
Keeps (returned a es) = settlements es ≡ 0
Keeps (thrown m es) = settlements es ≡ 0

-- A computation that returns, having settled.
abbrev Ends {ℓ} : {A : Type ℓ} → Done A → Type 0
Ends (returned a es) = settlements es ≡ 1
Ends (thrown m es) = ⊥

continue-Settles :
    {A B : Type 0} (d : Done A) (f : A → Io B)
    → Keeps d
    → ((a : A) (es : List Event) → settlements es ≡ 0 → Settles (f a es))
    → Settles (continue d f)
continue-Settles (returned a es) f k s = s a es k
continue-Settles (thrown m es) f k s = k

continue-Keeps :
    {A B : Type 0} (d : Done A) (f : A → Io B)
    → Keeps d
    → ((a : A) (es : List Event) → settlements es ≡ 0 → Keeps (f a es))
    → Keeps (continue d f)
continue-Keeps (returned a es) f k s = s a es k
continue-Keeps (thrown m es) f k s = k

continue-Ends :
    {A B : Type 0} (d : Done A) (f : A → Io B)
    → Ends d
    → ((a : A) (es : List Event) → settlements es ≡ 1 → Ends (f a es))
    → Ends (continue d f)
continue-Ends (returned a es) f k s = s a es k
continue-Ends (thrown m es) f k s = k

Ends-returned :
    {A : Type 0} (d : Done A)
    → Ends d
    → (a : A) × (es : List Event) × (d ≡ returned a es) × (settlements es ≡ 1)
Ends-returned (returned a es) k = (a, es, refl, k)
Ends-returned (thrown m es) k = absurd k

recover-Ends :
    {A : Type 0} (d : Done A) (h : String → Io A)
    → Settles d
    → ((m : String) (es : List Event) → settlements es ≡ 0 → Ends (h m es))
    → Ends (recover d h)
recover-Ends (returned a es) h k s = k
recover-Ends (thrown m es) h k s = s m es k

lift-Keeps : {A : Type 0} (c : Checked A) (es : List Event) → settlements es ≡ 0 → Keeps (lift c es)
lift-Keeps (passes a) es k = k
lift-Keeps (throws m) es k = k

-- The message that a dead letter is made from, as far as one was read.
abbrev pub seen_message : {V B : Type 0} → World V B → Ackable → Options → Option Fields
seen_message w a o = elim (read_payload w a o) [ throws m ↦ none | passes p ↦ message_of p ]

module _ {V B : Type 0} (w : World V B) (a : Ackable) (o : Options) where
  dead_letter_of-made :
      (message : Option Fields) (reason : String) {key : List String} {chain : String}
      → idempotency_key w a o message ≡ passes key
      → to_distributed_chain (dead_letter_chain w a o message) ≡ passes chain
      → dead_letter_of w a o message reason ≡ passes (letter w a o message reason key chain)
  unfolding dead_letter_of
  dead_letter_of-made message reason joined named = rw (joined, named) refl

  dead_letter_of-foreign :
      (message : Option Fields) (reason : String) {key : List String} {m : String}
      → idempotency_key w a o message ≡ passes key
      → to_distributed_chain (dead_letter_chain w a o message) ≡ throws m
      → dead_letter_of w a o message reason ≡ throws m
  unfolding dead_letter_of
  dead_letter_of-foreign message reason joined foreign = rw (joined, foreign) refl

module _ {V B : Type 0} (w : World V B) (a : Ackable) (o : Options)
    (publishes : (es : List Event) (d : DeadLetter) → w.publish es d ≡ passes tt)
    (settles : (es : List Event) (e : Event) → w.settle es e ≡ passes tt) where
  -- A dead letter can be made of the message, where there is a publisher.
  abbrev IsPublishable : Option Fields → Type 0
  IsPublishable message =
      (o.has_publisher ≡ false)
      ⊎ ((key : List String) × (chain : String) × (idempotency_key w a o message ≡ passes key)
          × (to_distributed_chain (dead_letter_chain w a o message) ≡ passes chain))

  publish_dead_letter_lem :
      (message : Option Fields) (reason : String) (es : List Event)
      → IsPublishable message
      → settlements es ≡ 0
      → (es' : List Event) × (publish_dead_letter w a o message reason es ≡ returned tt es')
        × (settlements es' ≡ 0)
  unfolding publish_dead_letter
  publish_dead_letter_lem message reason es h k = elim (Bool-cases o.has_publisher) [
    | inr e ↦ (es, rw e refl, k)
    | inl e ↦ elim h [
      | inl bare ↦ absurd (cc (e, bare))
      | inr (key, chain, joined, named) ↦
          let d = letter w a o message reason key chain in
          let made = dead_letter_of-made w a o message reason joined named in
          (dead_letter d ∷ es, rw (e, made, publishes) refl, k)
    ]
  ]

  settle_as_lem : (e : Event) (es : List Event) → settle_as w a o e es ≡ returned tt (e ∷ es)
  unfolding settle_as
  settle_as_lem e es = rw (settles es e) refl

  settle_outcome_lem :
      (fs : Fields) (outcome : Outcome) (es : List Event)
      → IsPublishable (some fs)
      → settlements es ≡ 0
      → (es' : List Event) × (settle_outcome w a o fs outcome es ≡ returned tt es')
        × (settlements es' ≡ 1)
  unfolding settle_outcome
  settle_outcome_lem fs outcome es h k = elim (Bool-cases (is_retryable outcome)) [
    | inl retry ↦ elim (Bool-cases (has_exceeded a o.max_deliver)) [
      | inl over ↦
          let (es', e, k') = publish_dead_letter_lem (some fs) (exceeded_reason outcome) es h k in
          (
            term (outcome_name outcome) ∷ es',
            rw (retry, over, e) (settle_as_lem (term (outcome_name outcome)) es'),
            ap suc k',
          )
      | inr more ↦ (
        nak o.retry_backoff ∷ es,
        rw (retry, more) (settle_as_lem (nak o.retry_backoff) es),
        ap suc k,
      )
    ]
    | inr final ↦ (ack ∷ es, rw final (settle_as_lem ack es), ap suc k)
  ]

  on_error-Ends :
      (message : Option Fields) (error : String) (es : List Event)
      → IsPublishable message
      → settlements es ≡ 0
      → Ends (on_error w a o message error es)
  unfolding on_error
  on_error-Ends message error es h k =
      elim (Bool-cases (names_malformed error || has_exceeded a o.max_deliver)) [
        | inl stop ↦
            let (es', e, k') = publish_dead_letter_lem message error es h k in
            rw (stop, e, settle_as_lem) (ap suc k')
        | inr more ↦ rw (more, settle_as_lem) (ap suc k)
      ]

  consume-Keeps :
      (closed orchestrator_closed : Bool) (r : Request B) (es : List Event)
      → settlements es ≡ 0
      → Keeps (consume w a o closed orchestrator_closed r es)
  unfolding consume
  consume-Keeps true orchestrator_closed r es k = k
  consume-Keeps false true r es k = k
  consume-Keeps false false r es k =
      continue-Keeps (lift (normalize_txids w.to_lower w.sdk r) es)
        (λ txids. call (posting txids) (λ es. w.post es r.beef txids))
        (lift-Keeps (normalize_txids w.to_lower w.sdk r) es k)
        (λ txids es' k'. lift-Keeps (w.post es' r.beef txids) (posting txids ∷ es') k')

  with_results-Settles :
      (fs : Fields) (results : Results V) (es : List Event)
      → IsPublishable (some fs)
      → settlements es ≡ 0
      → Settles (with_results w a o fs results es)
  unfolding with_results
  with_results-Settles fs results es h k =
      let outcome = classify w.stringify results (printed "" (text_of "txid" fs)) in
      continue-Settles (lift (w.record_attempt es outcome) (recording outcome ∷ es))
        (λ _. settle_outcome w a o fs outcome >> pure (some results))
        (lift-Keeps (w.record_attempt es outcome) (recording outcome ∷ es) k)
        (λ _ es₁ k₁. let (es₂, e, k₂) = settle_outcome_lem fs outcome es₁ h k₁ in rw e k₂)

  with_request-Settles :
      (closed orchestrator_closed : Bool) (fs : Fields) (r : Request B) (es : List Event)
      → IsPublishable (some fs)
      → settlements es ≡ 0
      → Settles (with_request w a o closed orchestrator_closed fs r es)
  unfolding with_request
  with_request-Settles closed orchestrator_closed fs r es h k =
      continue-Settles (lift (validate_raw_tx_hash w a o fs r) es)
        (λ _. consume w a o closed orchestrator_closed r >>= with_results w a o fs)
        (lift-Keeps (validate_raw_tx_hash w a o fs r) es k)
        (λ _ es₁ k₁.
          continue-Settles (consume w a o closed orchestrator_closed r es₁) (with_results w a o fs)
            (consume-Keeps closed orchestrator_closed r es₁ k₁)
            (λ results es₂ k₂. with_results-Settles fs results es₂ h k₂))

  with_message-Settles :
      (closed orchestrator_closed : Bool) (fs : Fields) (es : List Event)
      → IsPublishable (some fs)
      → settlements es ≡ 0
      → Settles (with_message w a o closed orchestrator_closed fs es)
  unfolding with_message
  with_message-Settles closed orchestrator_closed fs es h k =
      continue-Settles (lift (w.load es fs) (loading ∷ es))
        (with_request w a o closed orchestrator_closed fs)
        (lift-Keeps (w.load es fs) (loading ∷ es) k)
        (λ r es₁ k₁. with_request-Settles closed orchestrator_closed fs r es₁ h k₁)

  attempt-Settles :
      (closed orchestrator_closed : Bool) (p : Payload) (es : List Event)
      → IsPublishable (message_of p)
      → settlements es ≡ 0
      → Settles (attempt w a o closed orchestrator_closed p es)
  unfolding attempt
  attempt-Settles closed orchestrator_closed p es h k = elim (Checked-cases (validate_message p)) [
    | inl (m, e) ↦ rw e k
    | inr (fs, e) ↦
        let same = validate_message-fields p fs e in
        rw e (with_message-Settles closed orchestrator_closed fs es (rw same at h) k)
  ]

  -- Where publishing and settling do not fail, and there is no publisher or a dead letter can be made of
  -- the message that is read: the chain that it names, or without one the option's or 'test', is the
  -- text 'test' or 'main', and the four values of the letter's key can be written as texts. Then,
  -- whatever is read, loaded, posted and recorded, and whichever of these fails, the consumption of a
  -- message returns, having made exactly one of the three calls that settle the message.
  pub consume_message-settles :
      (closed orchestrator_closed : Bool)
      → IsPublishable (seen_message w a o)
      → (answer : Option (Results V)) × (es : List Event) × (consume_message w a o closed
            orchestrator_closed []
          ≡ returned answer es)
        × (settlements es ≡ 1)
  unfolding consume_message
  consume_message-settles closed orchestrator_closed h = elim (Checked-cases (read_payload w a o)) [
    | inl (m, e) ↦
        rw (consume_message, e)
          (Ends-returned (on_error w a o none m [])
            (on_error-Ends none m [] (rw (seen_message, e) at h) refl))
    | inr (p, e) ↦
        let h' : IsPublishable (message_of p) = rw (seen_message, e) at h in
        rw (consume_message, e)
          (Ends-returned
            (recover (attempt w a o closed orchestrator_closed p [])
              (on_error w a o (message_of p)))
            (recover-Ends (attempt w a o closed orchestrator_closed p [])
              (on_error w a o (message_of p))
              (attempt-Settles closed orchestrator_closed p [] h' refl)
              (λ m es k. on_error-Ends (message_of p) m es h' k)))
  ]

module _ {V B : Type 0} (w : World V B) (a : Ackable) (o : Options) where
  -- With a publisher, a payload that is refused as malformed, whose dead letter's key can be written as
  -- a text, and whose chain is neither of the two is never settled: making its dead letter throws, and
  -- the error leaves the consumption with no call made.
  pub consume_message-unsettled :
      (closed orchestrator_closed : Bool) (p : Payload) (m : String) (key : List String)
      → o.has_publisher ≡ true
      → read_payload w a o ≡ passes p
      → validate_message p ≡ throws m
      → names_malformed m ≡ true
      → idempotency_key w a o (message_of p) ≡ passes key
      → to_distributed_chain (dead_letter_chain w a o (message_of p)) ≡ throws chain_refused
      → consume_message w a o closed orchestrator_closed [] ≡ thrown chain_refused []
  unfolding consume_message attempt on_error publish_dead_letter
  consume_message-unsettled closed orchestrator_closed p m key there read refused bad joined
        foreign =
      let unmade = dead_letter_of-foreign w a o (message_of p) m joined foreign in
      let refusal : publish_dead_letter w a o (message_of p) m [] ≡ thrown chain_refused [] =
        rw (there, unmade) refl in
      rw (consume_message, read, refused, bad, publish_dead_letter, refusal) refl
