-- ===== src/ServiceCollection/History.antt =====
-- The call history of ServiceCollection.ts: what is bounded, how it adds up, and whose it is.
use Prim.Native.String.{String}
use text.Mathlib.Text.{◌==◌ as str_eq}
use text.Mathlib.TextEquality.{eq_iff}
use wallet_toolbox_rocksdb.Base.{
  ℕ, zero, suc, ◌+◌, ◌-◌, ◌≤◌, ◌≡◌, ◌≢◌, refl, inl, inr, Bool, false, Option, none, some, List, [],
  ◌∷◌, arith, length, All, sum_by, take, if◌then◌else◌, Option-cases, Bool-cases, ◌==◌,
}
use wallet_toolbox_rocksdb.ServiceCollection.{
  ServiceCall, CallError, Counts, ProviderHistory, ServiceToCall, Histories, ServiceCollection,
  Named, new, add, remove, move_to_last, move_service_to_last, reset, next, count, Outcome,
  succeeded, failed, threw, tally, log_call, lookup_history, alter_history, fresh_history,
  add_service_call, add_service_call_success, add_service_call_failure, add_service_call_error,
  current_name, reset_history, map_histories, get_service_call_history,
}

length-take {ℓ} : {A : Type ℓ} (n : ℕ) (xs : List A) → length (take n xs) ≤ n
length-take zero xs = omega arith
length-take (suc n) [] = omega arith
length-take (suc n) (x ∷ xs) = omega (arith, length-take n xs)

sum_by-take : (f : Counts → ℕ) (n : ℕ) (xs : List Counts) → sum_by f (take n xs) ≤ sum_by f xs
sum_by-take f zero xs = omega arith
sum_by-take f (suc n) [] = omega arith
sum_by-take f (suc n) (x ∷ xs) = omega (arith, sum_by-take f n xs)

-- At most 32 calls and 32 intervals are kept; errors are failures; the intervals that are kept do
-- not count more than the totals.
pub record IsSound (h : ProviderHistory) : Type 0 where
  pub few_calls : length h.calls ≤ 32
  pub few_intervals : length h.earlier_counts ≤ 31
  pub errors : h.total_counts.error ≤ h.total_counts.failure
  pub successes :
      h.current_counts.success + sum_by (λ n. n.success) h.earlier_counts ≤ h.total_counts.success
  pub failures :
      h.current_counts.failure + sum_by (λ n. n.failure) h.earlier_counts ≤ h.total_counts.failure

abbrev pub AllSound : Histories → Type 0
AllSound hs = All (λ e. IsSound e.1) hs

log_call-IsSound :
    (call : ServiceCall) (o : Outcome) (now : ℕ) (h : ProviderHistory)
    → IsSound h
    → IsSound (log_call call o now h)
unfolding log_call
log_call-IsSound call succeeded now h v =
    let l = length-take 32 (call ∷ h.calls) in
    record {
      few_calls = l;
      few_intervals = v.few_intervals;
      errors = v.errors;
      successes = omega (arith, v.successes);
      failures = v.failures;
    }
log_call-IsSound call failed now h v =
    let l = length-take 32 (call ∷ h.calls) in
    record {
      few_calls = l;
      few_intervals = v.few_intervals;
      errors = omega (arith, v.errors);
      successes = v.successes;
      failures = omega (arith, v.failures);
    }
log_call-IsSound call threw now h v =
    let l = length-take 32 (call ∷ h.calls) in
    record {
      few_calls = l;
      few_intervals = v.few_intervals;
      errors = omega (arith, v.errors);
      successes = v.successes;
      failures = omega (arith, v.failures);
    }

fresh_history-IsSound :
    (service name : String) (since now : ℕ) → IsSound (fresh_history service name since now)
unfolding fresh_history
fresh_history-IsSound service name since now = omega arith

alter_history-AllSound :
    (name : String) (fresh : ProviderHistory) (f : ProviderHistory → ProviderHistory)
    (hs : Histories)
    → IsSound fresh
    → ((h : ProviderHistory) → IsSound h → IsSound (f h))
    → AllSound hs
    → AllSound (alter_history name fresh f hs)
unfolding alter_history
alter_history-AllSound name fresh f [] v w s = (w fresh v, tt)
alter_history-AllSound name fresh f ((k, h) ∷ hs) v w s = elim (Bool-cases (str_eq k name)) [
  | inl hit ↦ rw hit (w h s.0, s.1)
  | inr miss ↦ rw miss (s.0, alter_history-AllSound name fresh f hs v w s.1)
]

pub lookup-alter_history :
    (name other : String) (fresh : ProviderHistory) (f : ProviderHistory → ProviderHistory)
    (hs : Histories)
    → lookup_history other (alter_history name fresh f hs) ≡ (
        if str_eq name other
        then some (f (elim (lookup_history name hs) [ none ↦ fresh | some h ↦ h ]))
        else lookup_history other hs)
unfolding lookup_history alter_history
lookup-alter_history name other fresh f [] = ground arith
lookup-alter_history name other fresh f ((k, h) ∷ hs) = ground (
  arith,
  eq_iff k name,
  eq_iff k other,
  eq_iff name other,
  lookup-alter_history name other fresh f hs,
)

reset_history-IsSound : (now : ℕ) (h : ProviderHistory) → IsSound h → IsSound (reset_history now h)
unfolding reset_history
reset_history-IsSound now h v =
    let closed = record (h.current_counts) { until = now } ∷ h.earlier_counts in
    record {
      few_calls = v.few_calls;
      few_intervals = length-take 31 closed;
      errors = v.errors;
      successes = omega (arith, v.successes, sum_by-take (λ n. n.success) 31 closed);
      failures = omega (arith, v.failures, sum_by-take (λ n. n.failure) 31 closed);
    }

map_histories-AllSound :
    (f : ProviderHistory → ProviderHistory) (hs : Histories)
    → ((h : ProviderHistory) → IsSound h → IsSound (f h))
    → AllSound hs
    → AllSound (map_histories f hs)
map_histories-AllSound f [] w s = tt
map_histories-AllSound f ((k, h) ∷ hs) w s = (w h s.0, map_histories-AllSound f hs w s.1)

-- The operations of the class; `get_service_to_call` and `clone` leave the collection as it is.
pub data Op {ℓ} (T : Type ℓ) : Type ℓ where
  adds : Named T → Op T
  removes : String → Op T
  demotes : ServiceToCall T → Op T
  resets advances : Op T
  succeeds fails : ServiceToCall T → Option String → (now : ℕ) → Op T
  throws : ServiceToCall T → CallError → (now : ℕ) → Op T
  reads : (back : Bool) (now : ℕ) → Op T

module _ {ℓ} {T : Type ℓ} where
  -- An operation that throws leaves the collection as it was.
  abbrev or_same : ServiceCollection T → Option (ServiceCollection T) → ServiceCollection T
  or_same c none = c
  or_same c (some d) = d

  pub apply : Op T → ServiceCollection T → ServiceCollection T
  apply (adds n) c = add n c
  apply (removes n) c = remove n c
  apply (demotes stc) c = move_service_to_last stc c
  apply resets c = reset c
  apply advances c = or_same c (next c)
  apply (succeeds stc r now) c = add_service_call_success stc r now c
  apply (fails stc r now) c = or_same c (add_service_call_failure stc r now c)
  apply (throws stc e now) c = or_same c (add_service_call_error stc e now c)
  apply (reads back now) c = (get_service_call_history back now c).1

  pub run : List (Op T) → ServiceCollection T → ServiceCollection T
  run [] c = c
  run (o ∷ os) c = run os (apply o c)

  pub add_service_call-AllSound :
      (name : String) (call : ServiceCall) (o : Outcome) (now : ℕ) (c : ServiceCollection T)
      → AllSound c.history
      → AllSound (add_service_call name call o now c).history
  unfolding add_service_call
  add_service_call-AllSound name call o now c s =
      alter_history-AllSound name (fresh_history c.service_name name c.since now)
        (log_call call o now) c.history (fresh_history-IsSound c.service_name name c.since now)
        (log_call-IsSound call o now) s

  Op-AllSound :
      (o : Op T) (c : ServiceCollection T) → AllSound c.history → AllSound (apply o c).history
  unfolding add add_service_call_success add_service_call_failure add_service_call_error
      get_service_call_history move_service_to_last remove reset next apply
  Op-AllSound (adds n) c s = s
  Op-AllSound (removes n) c s = s
  Op-AllSound (demotes stc) c s = elim (Option-cases (move_to_last stc.provider_name c.services)) [
    | inl e ↦ rw (e, apply, move_service_to_last) s
    | inr (ss, e) ↦ rw (e, apply, move_service_to_last) s
  ]
  Op-AllSound resets c s = s
  Op-AllSound advances c s = elim (Bool-cases (count c == 0)) [
    | inl e ↦ rw (e, apply, next) s
    | inr e ↦ rw (e, apply, next) s
  ]
  Op-AllSound (succeeds stc r now) c s = add_service_call-AllSound _ _ succeeded now c s
  Op-AllSound (fails stc r now) c s = elim (Option-cases (current_name c)) [
    | inl e ↦ rw (e, apply, add_service_call_failure) s
    | inr (n, e) ↦
        rw (e, apply, add_service_call_failure) (add_service_call-AllSound _ _ failed now c s)
  ]
  Op-AllSound (throws stc r now) c s = elim (Option-cases (current_name c)) [
    | inl e ↦ rw (e, apply, add_service_call_error) s
    | inr (n, e) ↦
        rw (e, apply, add_service_call_error) (add_service_call-AllSound _ _ threw now c s)
  ]
  Op-AllSound (reads back now) c s = elim (Bool-cases back) [
    | inl e ↦
        rw (e, apply, get_service_call_history)
          (map_histories-AllSound _ c.history (reset_history-IsSound now) s)
    | inr e ↦ rw (e, apply, get_service_call_history) s
  ]

  run-AllSound :
      (os : List (Op T)) (c : ServiceCollection T)
      → AllSound c.history
      → AllSound (run os c).history
  unfolding run
  run-AllSound [] c s = s
  run-AllSound (o ∷ os) c s = run-AllSound os (apply o c) (Op-AllSound o c s)

  -- After any sequence of operations on a new collection, each provider's history is sound: at most
  -- 32 calls and 32 intervals, no more errors than failures, and totals no less than what the kept
  -- intervals count.
  pub run-new-AllSound :
      (name : String) (services : List (Named T)) (now : ℕ) (os : List (Op T))
      → AllSound (run os (new name services now)).history
  unfolding new
  run-new-AllSound name services now os = run-AllSound os (new name services now) tt

  recorded :
      (c d : ServiceCollection T) (stc : ServiceToCall T) (error : CallError) (now : ℕ)
      (name : String)
      → current_name c ≡ some name
      → add_service_call_error stc error now c ≡ some d
      → d
        ≡ add_service_call name
            (record {
              when = stc.call.when;
              msecs = now - stc.call.when;
              success = false;
              result = none;
              error = some error;
            })
            threw
            now
            c
  unfolding add_service_call_error
  recorded c d stc error now name cur e = ground arith

  -- An error of a provider other than the one at the current index is counted for the one at the
  -- index: its failures and errors go up by one, if it has a history, and the history of the
  -- provider that was called is as before.
  pub add_service_call_error-misattributed :
      (c d : ServiceCollection T) (stc : ServiceToCall T) (error : CallError) (now : ℕ)
      (name : String) (h : ProviderHistory)
      → current_name c ≡ some name
      → name ≢ stc.provider_name
      → lookup_history name c.history ≡ some h
      → add_service_call_error stc error now c ≡ some d
      → (lookup_history stc.provider_name d.history ≡ lookup_history stc.provider_name c.history)
        × (k : ProviderHistory) × (lookup_history name d.history ≡ some k)
        × (k.total_counts.failure ≡ h.total_counts.failure + 1)
        × (k.total_counts.error ≡ h.total_counts.error + 1)
  unfolding add_service_call_error add_service_call
  add_service_call_error-misattributed c d stc error now name h cur ne old e =
      let call : ServiceCall = record {
        when = stc.call.when;
        msecs = now - stc.call.when;
        success = false;
        result = none;
        error = some error;
      } in
      let p : d ≡ add_service_call name call threw now c = recorded c d stc error now name cur e in
      let fresh = fresh_history c.service_name name c.since now in
      let f = log_call call threw now in
      rw p (
        ground (
          arith,
          lookup-alter_history name stc.provider_name fresh f c.history,
          eq_iff name stc.provider_name,
        ),
        f h,
        ground (arith, lookup-alter_history name name fresh f c.history, eq_iff name name),
        unfold log_call tally in refl,
        unfold log_call tally in refl,
      )
