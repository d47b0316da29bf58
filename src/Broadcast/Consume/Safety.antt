-- ===== src/Broadcast/Consume/Safety.antt =====
-- In which order BroadcastConsumer.ts makes its calls, whatever the other parts answer or throw.
use wallet_toolbox_rocksdb.Base.{
  ◌≡◌, refl, sym, ◌∙◌, ◌⊎◌, inl, inr, Bool, true, false, ◌||◌, Option, none, some, List, ◌∷◌, [],
  Bool-cases, arith,
}
use Prim.Native.String.{String}
use wallet_toolbox_rocksdb.Broadcast.Classify.{Outcome, Results, classify, is_retryable}
use wallet_toolbox_rocksdb.Broadcast.Texts.{names_malformed}
use wallet_toolbox_rocksdb.Broadcast.Request.{
  Checked, passes, throws, Checked-cases, Request, normalize_txids,
}
use wallet_toolbox_rocksdb.Broadcast.Message.{
  Fields, Payload, text_of, printed, message_of, validate_message,
}
use wallet_toolbox_rocksdb.Broadcast.Effects.{
  Ackable, Options, Event, loading, posting, recording, dead_letter, ack, nak, term, World, Done,
  returned, thrown, Io, ◌>>=◌, ◌>>◌, pure, lift, call, continue, recover,
}
use wallet_toolbox_rocksdb.Broadcast.Consume.{
  outcome_name, has_exceeded, read_payload, consume, validate_raw_tx_hash, dead_letter_of,
  publish_dead_letter, settle_as, settle_outcome, with_results, with_request, with_message, attempt,
  on_error, exceeded_reason, consume_message,
}

-- The latest call has recorded an outcome that is final.
abbrev pub RecordedFinal : List Event → Type 0
RecordedFinal (recording o ∷ es) = is_retryable o ≡ false
RecordedFinal es = ⊥

abbrev pub Lettered : List Event → Type 0
Lettered (dead_letter d ∷ es) = Unit
Lettered es = ⊥

abbrev pub Loaded : List Event → Type 0
Loaded (loading ∷ es) = Unit
Loaded es = ⊥

-- What must have happened just before a call: a message is acknowledged behind a final outcome, and
-- terminated behind a dead letter, if there is a publisher; a transaction is posted behind its loading.
abbrev pub Fits : (has_publisher : Bool) → Event → List Event → Type 0
Fits has_publisher ack es = RecordedFinal es
Fits has_publisher (term r) es = (has_publisher ≡ false) ⊎ Lettered es
Fits has_publisher (posting ts) es = Loaded es
Fits has_publisher e es = Unit

abbrev pub InOrder : (has_publisher : Bool) → List Event → Type 0
InOrder b [] = Unit
InOrder b (e ∷ es) = Fits b e es × InOrder b es

-- The calls of a computation, returned or thrown.
abbrev pub calls {ℓ} : {A : Type ℓ} → Done A → List Event
calls (returned a es) = es
calls (thrown m es) = es

continue-InOrder :
    {A B : Type 0} (b : Bool) (d : Done A) (f : A → Io B)
    → InOrder b (calls d)
    → ((a : A) (es : List Event) → d ≡ returned a es → InOrder b es → InOrder b (calls (f a es)))
    → InOrder b (calls (continue d f))
continue-InOrder b (returned a es) f k s = s a es refl k
continue-InOrder b (thrown m es) f k s = k

recover-InOrder :
    {A : Type 0} (b : Bool) (d : Done A) (h : String → Io A)
    → InOrder b (calls d)
    → ((m : String) (es : List Event) → InOrder b es → InOrder b (calls (h m es)))
    → InOrder b (calls (recover d h))
recover-InOrder b (returned a es) h k s = k
recover-InOrder b (thrown m es) h k s = s m es k

lift-InOrder :
    {A : Type 0} (b : Bool) (c : Checked A) (es : List Event)
    → InOrder b es
    → InOrder b (calls (lift c es))
lift-InOrder b (passes a) es k = k
lift-InOrder b (throws m) es k = k

-- The calls so far, once a check has passed or a call has been answered.
lift-returned :
    {A : Type 0} (c : Checked A) (es : List Event) (a : A) (es' : List Event)
    → lift c es ≡ returned a es'
    → es' ≡ es
lift-returned (passes x) es a es' e = ground arith
lift-returned (throws m) es a es' e = absurd (ground arith)

module _ {V B : Type 0} (w : World V B) (a : Ackable) (o : Options) where
  abbrev Ordered {ℓ} : {A : Type ℓ} → Done A → Type 0
  Ordered d = InOrder o.has_publisher (calls d)

  publish_dead_letter_lem :
      (message : Option Fields) (reason : String) (es : List Event)
      → InOrder o.has_publisher es
      → Ordered (publish_dead_letter w a o message reason es)
        × ((es' : List Event)
            → publish_dead_letter w a o message reason es ≡ returned tt es'
            → (o.has_publisher ≡ false) ⊎ Lettered es')
  unfolding publish_dead_letter
  publish_dead_letter_lem message reason es k = elim (Bool-cases o.has_publisher) [
    | inr none_there ↦
        let eq : publish_dead_letter w a o message reason es ≡ returned tt es =
          ground (arith, none_there) in
        (rw (publish_dead_letter, eq) k, λ es' e. inl none_there)
    | inl there ↦ elim (Checked-cases (dead_letter_of w a o message reason)) [
      | inr (d, made) ↦
          let answer = w.publish es d in
          let eq : publish_dead_letter w a o message reason es ≡ lift answer (dead_letter d ∷ es) =
            rw (there, made) refl in
          (
            rw (publish_dead_letter, eq)
                (lift-InOrder o.has_publisher answer (dead_letter d ∷ es) (tt, k)),
            λ es' e. inr (rw (lift-returned answer (dead_letter d ∷ es) tt es' (sym eq ∙ e)) tt),
          )
      | inl (m, unmade) ↦
          let eq : publish_dead_letter w a o message reason es ≡ thrown m es =
            rw (there, unmade) refl in
          (rw (publish_dead_letter, eq) k, λ es' e. absurd (ground (arith, eq, e)))
    ]
  ]

  settle_as-InOrder :
      (e : Event) (es : List Event)
      → Fits o.has_publisher e es
      → InOrder o.has_publisher es
      → Ordered (settle_as w a o e es)
  unfolding settle_as
  settle_as-InOrder e es f k = lift-InOrder o.has_publisher (w.settle es e) (e ∷ es) (f, k)

  -- A termination behind a dead letter.
  term-InOrder :
      (message : Option Fields) (reason why : String) (es : List Event)
      → InOrder o.has_publisher es
      → Ordered ((publish_dead_letter w a o message reason >> settle_as w a o (term why)) es)
  term-InOrder message reason why es k =
      let (p, l) = publish_dead_letter_lem message reason es k in
      continue-InOrder o.has_publisher (publish_dead_letter w a o message reason es)
        (λ _. settle_as w a o (term why)) p
        (λ _ es₁ e₁ k₁. settle_as-InOrder (term why) es₁ (l es₁ e₁) k₁)

  settle_outcome-InOrder :
      (fs : Fields) (outcome : Outcome) (es : List Event)
      → ((is_retryable outcome ≡ false) → RecordedFinal es)
      → InOrder o.has_publisher es
      → Ordered (settle_outcome w a o fs outcome es)
  unfolding settle_outcome
  settle_outcome-InOrder fs outcome es f k = elim (Bool-cases (is_retryable outcome)) [
    | inl retry ↦ elim (Bool-cases (has_exceeded a o.max_deliver)) [
      | inl over ↦
          rw (retry, over)
            (term-InOrder (some fs) (exceeded_reason outcome) (outcome_name outcome) es k)
      | inr more ↦ rw (retry, more) (settle_as-InOrder (nak o.retry_backoff) es tt k)
    ]
    | inr final ↦ rw final (settle_as-InOrder ack es (f final) k)
  ]

  on_error-InOrder :
      (message : Option Fields) (error : String) (es : List Event)
      → InOrder o.has_publisher es
      → Ordered (on_error w a o message error es)
  unfolding on_error
  on_error-InOrder message error es k =
      elim (Bool-cases (names_malformed error || has_exceeded a o.max_deliver)) [
        | inl stop ↦
            let (p, l) = publish_dead_letter_lem message error es k in
            rw stop (
              continue-InOrder o.has_publisher (publish_dead_letter w a o message error es)
                (λ _. settle_as w a o (term error) >> pure none) p
                (λ _ es₁ e₁ k₁.
                  continue-InOrder o.has_publisher (settle_as w a o (term error) es₁)
                    (λ _. pure none) (settle_as-InOrder (term error) es₁ (l es₁ e₁) k₁)
                    (λ _ es₂ _ k₂. k₂)))
        | inr more ↦ rw more (
            continue-InOrder o.has_publisher (settle_as w a o (nak none) es) (λ _. pure none)
              (settle_as-InOrder (nak none) es tt k) (λ _ es₁ _ k₁. k₁))
      ]

  consume-InOrder :
      (closed orchestrator_closed : Bool) (r : Request B) (es : List Event)
      → Loaded es
      → InOrder o.has_publisher es
      → Ordered (consume w a o closed orchestrator_closed r es)
  unfolding consume
  consume-InOrder true orchestrator_closed r es l k = k
  consume-InOrder false true r es l k = k
  consume-InOrder false false r es l k =
      let checked = normalize_txids w.to_lower w.sdk r in
      continue-InOrder o.has_publisher (lift checked es)
        (λ txids. call (posting txids) (λ es. w.post es r.beef txids))
        (lift-InOrder o.has_publisher checked es k)
        (λ txids es₁ e₁ k₁.
          lift-InOrder o.has_publisher (w.post es₁ r.beef txids) (posting txids ∷ es₁)
            (rw (lift-returned checked es txids es₁ e₁) l, k₁))

  with_results-InOrder :
      (fs : Fields) (results : Results V) (es : List Event)
      → InOrder o.has_publisher es
      → Ordered (with_results w a o fs results es)
  unfolding with_results
  with_results-InOrder fs results es k =
      let outcome = classify w.stringify results (printed "" (text_of "txid" fs)) in
      let answer = w.record_attempt es outcome in
      continue-InOrder o.has_publisher (lift answer (recording outcome ∷ es))
        (λ _. settle_outcome w a o fs outcome >> pure (some results))
        (lift-InOrder o.has_publisher answer (recording outcome ∷ es) (tt, k))
        (λ _ es₁ e₁ k₁.
          continue-InOrder o.has_publisher (settle_outcome w a o fs outcome es₁)
            (λ _. pure (some results))
            (settle_outcome-InOrder fs outcome es₁
              (λ f. rw (lift-returned answer (recording outcome ∷ es) _ es₁ e₁) f) k₁)
            (λ _ es₂ _ k₂. k₂))

  with_request-InOrder :
      (closed orchestrator_closed : Bool) (fs : Fields) (r : Request B) (es : List Event)
      → Loaded es
      → InOrder o.has_publisher es
      → Ordered (with_request w a o closed orchestrator_closed fs r es)
  unfolding with_request
  with_request-InOrder closed orchestrator_closed fs r es l k =
      let checked = validate_raw_tx_hash w a o fs r in
      continue-InOrder o.has_publisher (lift checked es)
        (λ _. consume w a o closed orchestrator_closed r >>= with_results w a o fs)
        (lift-InOrder o.has_publisher checked es k)
        (λ x es₁ e₁ k₁.
          continue-InOrder o.has_publisher (consume w a o closed orchestrator_closed r es₁)
            (with_results w a o fs)
            (consume-InOrder closed orchestrator_closed r es₁
              (rw (lift-returned checked es x es₁ e₁) l) k₁)
            (λ results es₂ _ k₂. with_results-InOrder fs results es₂ k₂))

  with_message-InOrder :
      (closed orchestrator_closed : Bool) (fs : Fields) (es : List Event)
      → InOrder o.has_publisher es
      → Ordered (with_message w a o closed orchestrator_closed fs es)
  unfolding with_message
  with_message-InOrder closed orchestrator_closed fs es k =
      let answer = w.load es fs in
      continue-InOrder o.has_publisher (lift answer (loading ∷ es))
        (with_request w a o closed orchestrator_closed fs)
        (lift-InOrder o.has_publisher answer (loading ∷ es) (tt, k))
        (λ r es₁ e₁ k₁.
          with_request-InOrder closed orchestrator_closed fs r es₁
            (rw (lift-returned answer (loading ∷ es) r es₁ e₁) tt) k₁)

  attempt-InOrder :
      (closed orchestrator_closed : Bool) (p : Payload) (es : List Event)
      → InOrder o.has_publisher es
      → Ordered (attempt w a o closed orchestrator_closed p es)
  unfolding attempt
  attempt-InOrder closed orchestrator_closed p es k =
      continue-InOrder o.has_publisher (lift (validate_message p) es)
        (with_message w a o closed orchestrator_closed)
        (lift-InOrder o.has_publisher (validate_message p) es k)
        (λ fs es₁ _ k₁. with_message-InOrder closed orchestrator_closed fs es₁ k₁)

  -- Whatever the other parts answer or throw, and whether the consumption of a message returns or
  -- throws: it has acknowledged the message only right behind the recording of an outcome that is
  -- not to be retried, has terminated it only right behind a dead letter, if there is a publisher,
  -- and has posted only right behind the loading of a request.
  pub consume_message-InOrder :
      (closed orchestrator_closed : Bool)
      → InOrder o.has_publisher (calls (consume_message w a o closed orchestrator_closed []))
  unfolding consume_message
  consume_message-InOrder closed orchestrator_closed = elim (Checked-cases (read_payload w a o)) [
    | inl (m, e) ↦ rw (consume_message, e) (on_error-InOrder none m [] tt)
    | inr (p, e) ↦
        rw (consume_message, e)
          (recover-InOrder o.has_publisher (attempt w a o closed orchestrator_closed p [])
            (on_error w a o (message_of p)) (attempt-InOrder closed orchestrator_closed p [] tt)
            (λ m es k. on_error-InOrder (message_of p) m es k))
  ]
