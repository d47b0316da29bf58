-- ===== src/Change/Funding.antt =====
-- The state of `generateChangeSdk` in src/storage/methods/generateChange.ts, its derived amounts,
-- and the loops of `fundTransaction`. The stack `allocated` has the input that was pushed last at
-- its head; `outputs` is in the order of the source's array.
-- `feeExcessNow` is always the value of the latest `feeExcess()`, so it has no field of its own.
pub mod Funded
pub mod Loops
pub mod Amounts
use mathlib.Core.List.{reverse}
use wallet_toolbox_rocksdb.Base.{
  ℕ, zero, suc, ◌+◌, ◌-◌, ◌*◌, Bool, true, false, not, ◌&&◌, ◌||◌, Option, none, some, List, [],
  ◌∷◌, ◌++◌, map, min, max, ltb, leb, ◌==◌, if◌then◌else◌, length, sum_by,
}
use wallet_toolbox_rocksdb.Base.Int.{ℤ, pos, negsuc, ◌+ℤ◌, ◌-ℤ◌, leb_ℤ, ltb_ℤ, min_ℤ, pos_part}
use wallet_toolbox_rocksdb.Change.Data.{
  FixedInput, FixedOutput, ChangeInput, ChangeOutput, FeeModel, Params, GenerateError,
  release_rejected, out_of_fuel, Result, ok, err, ◌>>=◌, Doubles, Allocator,
  max_change_outputs_per_transaction,
}
use wallet_toolbox_rocksdb.Change.Size.{transaction_size}

abbrev pub replicate {ℓ} : {A : Type ℓ} → ℕ → A → List A
replicate zero a = []
replicate (suc n) a = a ∷ replicate n a

-- `Array.prototype.pop`, without the element.
abbrev pub drop_last {ℓ} : {A : Type ℓ} → List A → List A
drop_last [] = []
drop_last (x ∷ []) = []
drop_last (x ∷ y ∷ xs) = x ∷ drop_last (y ∷ xs)

-- What the closures of the source share: the parameters and the constants computed from them.
pub record Setup : Type 0 where
  pub params : Params
  pub sats_per_kb : ℕ
  pub dust_floor : ℕ
  pub max_outputs : ℕ

-- The parts of the result that the loops change, and the storage behind the callbacks.
pub record Draft (S : Type 0) : Type 0 where
  pub storage : S
  pub allocated : List ChangeInput
  pub outputs : List ChangeOutput

abbrev pub sum_ℤ : List FixedOutput → ℤ
sum_ℤ [] = pos 0
sum_ℤ (o ∷ os) = o.satoshis +ℤ sum_ℤ os

abbrev pub satoshis_of : List ChangeOutput → ℕ
satoshis_of = sum_by (λ o. o.satoshis)

module _ (D : Doubles) where
  -- `satsPerKb`, `dustFloor` and `maxChangeOutputs`, once the fee model is validated.
  unfoldable pub setup : Params → ℕ → Setup
  setup p rate = record {
    params = p;
    sats_per_kb = rate;
    dust_floor = max 1 (
        D.fee_for
          (transaction_size (p.change_unlocking_script_length ∷ [])
            (p.change_locking_script_length ∷ []))
          rate
        * 2);
    max_outputs = elim p.max_change_outputs [
      | none ↦ max_change_outputs_per_transaction
      | some n ↦ n
    ];
  }

module _ {S : Type 0} where
  pub funding : Setup → Draft S → ℕ
  funding c d =
      sum_by (λ i. i.satoshis) c.params.fixed_inputs + sum_by (λ i. i.satoshis) d.allocated

  pub size : Setup → Draft S → (added_inputs added_outputs : ℕ) → ℕ
  size c d ai ao =
      transaction_size
        (map (λ i. i.unlocking_script_length) c.params.fixed_inputs
          ++ replicate (length d.allocated + ai) c.params.change_unlocking_script_length)
        (map (λ o. o.locking_script_length) c.params.fixed_outputs
          ++ replicate (length d.outputs + ao) c.params.change_locking_script_length)

pub spending : Setup → ℤ
spending c = sum_ℤ c.params.fixed_outputs

module _ (D : Doubles) {S : Type 0} where
  unfoldable pub fee_target : Setup → Draft S → (added_inputs added_outputs : ℕ) → ℕ
  fee_target c d ai ao = D.fee_for (size c d ai ao) c.sats_per_kb

  -- `fee()`, and `feeExcess` at the two counts.
  unfoldable pub fee : Setup → Draft S → ℤ
  fee c d = pos (funding c d) -ℤ spending c -ℤ pos (satoshis_of d.outputs)

  unfoldable pub fee_excess : Setup → Draft S → (added_inputs added_outputs : ℕ) → ℤ
  fee_excess c d ai ao = fee c d -ℤ pos (fee_target c d ai ao)

abbrev pub has_target : Setup → Bool
has_target c = elim c.params.target_net_count [ none ↦ false | some n ↦ true ]

abbrev pub target_net_count : Setup → ℤ
target_net_count c =
    min_ℤ (elim c.params.target_net_count [ none ↦ pos 0 | some n ↦ n ]) (pos c.max_outputs)

module _ {S : Type 0} where
  abbrev pub net_change_count : Draft S → ℤ
  net_change_count d = pos (length d.outputs) -ℤ pos (length d.allocated)

  pub add_output_to_balance_new_input : Setup → Draft S → Bool
  add_output_to_balance_new_input c d =
      if not (has_target c)
      then false
      else if leb c.max_outputs (length d.outputs)
      then false
      else ltb_ℤ (net_change_count d -ℤ pos 1) (target_net_count c)

  abbrev pub push_output : Setup → ℕ → Draft S → Draft S
  push_output c sats d = record d {
    outputs =
        d.outputs
        ++ record { satoshis = sats; locking_script_length = c.params.change_locking_script_length }
          ∷ [];
  }

module _ (D : Doubles) {S : Type 0} where
  -- The loop that creates the change outputs wanted at the start. Each round adds an output, so
  -- `max_outputs` rounds reach the cap.
  pub wants_output : Setup → Draft S → Bool
  wants_output c d =
      ltb (length d.outputs) c.max_outputs
      && ((has_target c && ltb_ℤ (net_change_count d) (target_net_count c))
          || (length d.outputs == 0 && ltb_ℤ (pos 0) (fee_excess D c d 0 0)))

  pub initial_round : Setup → Draft S → Draft S
  initial_round c d =
      push_output c
        (if length d.outputs == 0
          then max c.dust_floor c.params.change_first_satoshis
          else max c.dust_floor c.params.change_initial_satoshis)
        d

  pub initial_outputs : ℕ → Setup → Draft S → Draft S
  unfolding wants_output initial_round
  initial_outputs zero c d = d
  initial_outputs (suc n) c d = elim (wants_output c d) [
    | true ↦ initial_outputs n c (initial_round c d)
    | false ↦ d
  ]

  pub extra_satoshis : Setup → Draft S → ℕ
  extra_satoshis c d = min (pos_part (fee_excess D c d 0 0)) (
      max c.dust_floor (
        if length d.outputs == 0
        then c.params.change_first_satoshis
        else c.params.change_initial_satoshis))

  pub maybe_add_change_output : Setup → (removing : Bool) (ao : ℕ) → Draft S → Draft S
  unfolding extra_satoshis
  maybe_add_change_output c removing ao d =
      if removing || leb_ℤ (fee_excess D c d 0 0) (pos 0)
      then d
      else if not ((ao == 1 || length d.outputs == 0) && ltb (length d.outputs) c.max_outputs)
      then d
      else if leb c.dust_floor (extra_satoshis c d)
      then push_output c (extra_satoshis c d) d
      else d

  -- The amounts that `attemptToFundTransaction` asks the storage for.
  pub exact_satoshis : Setup → Draft S → Option ℤ
  exact_satoshis c d =
      if not (has_target c) && length d.outputs == 0
      then some (pos 0 -ℤ fee_excess D c d 1 0)
      else none

  pub target_satoshis : Setup → Draft S → (ao : ℕ) → ℤ
  target_satoshis c d ao =
      let change_buffer =
        if length d.outputs == 0 && ao == 0
        then pos (c.dust_floor + fee_target D c d 0 1) -ℤ pos (fee_target D c d 0 0)
        else pos 0 in
      pos 0
      -ℤ fee_excess D c d 1 ao
      +ℤ (if ao == 1 then pos (2 * c.params.change_initial_satoshis) else pos 0)
      +ℤ change_buffer

module _ (D : Doubles) {S : Type 0} (A : Allocator S) where
  -- One call of `attemptToFundTransaction`: the new draft, or `none` where it answers false and
  -- changes nothing.
  pub attempt_to_fund : Setup → (removing : Bool) → Draft S → Option (Draft S)
  unfolding exact_satoshis target_satoshis maybe_add_change_output add_output_to_balance_new_input
  attempt_to_fund c removing d =
      let ao : ℕ = if add_output_to_balance_new_input c d then 1 else 0 in
      if ltb_ℤ (pos 0) (fee_excess D c d 0 0)
      then some d
      else elim (A.allocate (target_satoshis D c d ao) (exact_satoshis D c d) d.storage) [
        | none ↦ none
        | some (i, s) ↦ some (
            maybe_add_change_output D c removing ao
              (record d { storage = s; allocated = i ∷ d.allocated }))
      ]

  -- The funding loop. It answers `none` only if the fuel runs out.
  pub funding_loop : ℕ → Setup → (removing : Bool) → Draft S → Option (Draft S)
  funding_loop zero c removing d = none
  funding_loop (suc n) c removing d = elim (ltb_ℤ (fee_excess D c d 0 0) (pos 0)) [
    | false ↦ some d
    | true ↦ elim (attempt_to_fund c removing d) [
      | none ↦ some d
      | some d' ↦ funding_loop n c removing d'
    ]
  ]

  -- `releaseAllocatedChangeInputs`.
  pub release_all : List ChangeInput → S → Result S S
  release_all [] s = ok s
  release_all (i ∷ is) s = elim (A.release i.output_id s) [
    | none ↦ err (release_rejected s)
    | some s' ↦ release_all is s'
  ]

  pub release_allocated : Draft S → Result S (Draft S)
  unfolding release_all
  release_allocated d = do
    s ← release_all d.allocated d.storage
    ok (record d { storage = s; allocated = [] })

module _ (D : Doubles) {S : Type 0} where
  -- The inner loop that drops outputs while the transaction is underfunded.
  pub pop_outputs : ℕ → Setup → Draft S → Draft S
  pop_outputs zero c d = d
  pop_outputs (suc n) c d =
      elim (ltb 0 (length d.outputs) && ltb_ℤ (fee_excess D c d 0 0) (pos 0)) [
        | true ↦ pop_outputs n c (record d { outputs = drop_last d.outputs })
        | false ↦ d
      ]

-- `changeInputs.findIndex(ci => ci.satoshis <= lastOutput.satoshis)` and the `splice` at it.
pub remove_covered : ℕ → List ChangeInput → Option (List ChangeInput)
remove_covered sats [] = none
remove_covered sats (i ∷ is) =
    if leb i.satoshis sats
    then some is
    else elim (remove_covered sats is) [ none ↦ none | some rest ↦ some (i ∷ rest) ]

abbrev pub last_satoshis : List ChangeOutput → ℕ
last_satoshis [] = 0
last_satoshis (o ∷ []) = o.satoshis
last_satoshis (o ∷ p ∷ os) = last_satoshis (p ∷ os)

-- `removeChurnPairs`. The loop works on a copy of the inputs; what it returns are the outputs left.
-- Each round removes an output.
pub churn_loop : ℕ → List ChangeInput → List ChangeOutput → List ChangeOutput
unfolding remove_covered
churn_loop zero is os = os
churn_loop (suc n) is os = elim (ltb 1 (length is) && ltb 1 (length os)) [
  | false ↦ os
  | true ↦ elim (remove_covered (last_satoshis os) is) [
    | none ↦ os
    | some is' ↦ churn_loop n is' (drop_last os)
  ]
]

pub remove_churn_pairs : List ChangeInput → List ChangeOutput → List ChangeOutput
unfolding churn_loop
remove_churn_pairs is os = churn_loop (length os) is os

module _ (D : Doubles) {S : Type 0} (A : Allocator S) where
  -- The starvation loop of `fundTransaction`.
  pub starvation_loop : ℕ → Setup → (removing : Bool) → Draft S → Result S (Draft S)
  starvation_loop zero c removing d = err out_of_fuel
  starvation_loop (suc n) c removing d = do
    d₁ ← release_allocated D A d
    elim (funding_loop D A (suc (A.available d₁.storage)) c removing d₁) [
      | none ↦ err out_of_fuel
      | some d₂ ↦ elim (leb_ℤ (pos 0) (fee_excess D c d₂ 0 0) || length d₂.outputs == 0) [
        | true ↦ ok d₂
        | false ↦
            let d₃ = pop_outputs D (length d₂.outputs) c d₂ in
            elim (ltb_ℤ (fee_excess D c d₃ 0 0) (pos 0)) [
              | true ↦ ok d₃
              | false ↦
                  starvation_loop n c true
                    (record d₃ { outputs = remove_churn_pairs (reverse d₃.allocated) d₃.outputs })
            ]
      ]
    ]

  pub fund_transaction : Setup → Draft S → Result S (Draft S)
  unfolding starvation_loop
  fund_transaction c d = starvation_loop (suc (suc c.max_outputs)) c false d

-- What a run of the funding loops unfolds.
unfoldable pub funding_runs : Unit {0}
unfolding fund_transaction starvation_loop release_allocated release_all funding_loop
    attempt_to_fund exact_satoshis target_satoshis maybe_add_change_output extra_satoshis
    add_output_to_balance_new_input pop_outputs remove_churn_pairs churn_loop remove_covered
    initial_outputs initial_round wants_output fee_excess fee_target fee funding size spending setup
funding_runs = tt
