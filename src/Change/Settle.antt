-- ===== src/Change/Settle.antt =====
-- The last steps of `generateChangeSdk` in src/storage/methods/generateChange.ts: spreading the
-- excess fee, removing dust, and the check of the result.
pub mod Settled
use Prim.Native.String.{String}
use wallet_toolbox_rocksdb.Base.{
  ℕ, zero, suc, ◌+◌, ◌-◌, ◌*◌, ◌/◌, ◌^◌, Bool, true, false, ◌&&◌, Option, none, some, List, [], ◌∷◌,
  ◌++◌, min, max, ltb, leb, ◌==◌, if◌then◌else◌, length, sum_by,
}
use wallet_toolbox_rocksdb.Base.Int.{ℤ, pos, ◌+ℤ◌, ◌-ℤ◌, ltb_ℤ, eqb_ℤ}
use wallet_toolbox_rocksdb.Change.Data.{ChangeInput, ChangeOutput, Params, Generated, Doubles, Sdk}
use wallet_toolbox_rocksdb.Change.Funding.{sum_ℤ, satoshis_of}

-- The state of `nextRandomVal`: the given values, used in rotation, and the number of draws from
-- `Random`.
pub record Rng : Type 0 where
  pub vals : List ℕ
  pub drawn : ℕ

abbrev pub add_at : ℕ → ℕ → List ChangeOutput → Option (List ChangeOutput)
add_at i sats [] = none
add_at zero sats (o ∷ os) = some (record o { satoshis = o.satoshis + sats } ∷ os)
add_at (suc i) sats (o ∷ os) = elim (add_at i sats os) [ none ↦ none | some ps ↦ some (o ∷ ps) ]

abbrev pub first_satoshis : List ChangeOutput → ℕ
first_satoshis [] = 0
first_satoshis (o ∷ os) = o.satoshis

module _ (K : Sdk) where
  next_random_val_of : List ℕ → ℕ → ℕ × Rng
  next_random_val_of [] n = (K.random n, record { vals = []; drawn = suc n })
  next_random_val_of (v ∷ vs) n = (v, record { vals = vs ++ v ∷ []; drawn = n })

  pub next_random_val : Rng → ℕ × Rng
  unfolding next_random_val_of
  next_random_val g = next_random_val_of g.vals g.drawn

  -- `rand`; `none` is the WERR_INVALID_PARAMETER thrown when `max` is less than `min`.
  pub rand : ℕ → ℕ → Rng → Option (ℕ × Rng)
  rand lo hi g =
      if ltb hi lo
      then none
      else let (v, g') = next_random_val g in some (v * (hi - lo + 1) / 2 ^ 32 + lo, g')

-- `distributeExcessFees`: the outputs and the excess left. `none` is a throw, or a loop that has
-- run out of fuel.
module _ (D : Doubles) (K : Sdk) where
  pub distribute_step : ℕ → List ChangeOutput → ℕ → Rng → Option (List ChangeOutput × ℕ × Rng)
  distribute_step initial os excess g =
      if length os == 1
      then elim (add_at 0 excess os) [ none ↦ none | some ps ↦ some (ps, 0, g) ]
      else if ltb (first_satoshis os) initial
      then (let sats = min excess (initial - first_satoshis os) in
          elim (add_at 0 sats os) [ none ↦ none | some ps ↦ some (ps, excess - sats, g) ])
      else elim (rand K 2500 5000 g) [
        | none ↦ none
        | some (r, g₁) ↦
            let sats = max 1 (D.share_of r excess) in
            elim (rand K 0 (length os - 1) g₁) [
              | none ↦ none
              | some (i, g₂) ↦ elim (add_at i sats os) [
                | none ↦ none
                | some ps ↦ some (ps, excess - sats, g₂)
              ]
            ]
      ]

  pub distribute_excess_fees :
      (fuel initial : ℕ) → List ChangeOutput → ℕ → Rng → Option (List ChangeOutput × ℕ)
  distribute_excess_fees zero initial os excess g =
      if ltb 0 (length os) && ltb 0 excess then none else some (os, excess)
  distribute_excess_fees (suc fuel) initial os excess g = elim (ltb 0 (length os) && ltb 0 excess) [
    | false ↦ some (os, excess)
    | true ↦ elim (distribute_step initial os excess g) [
      | none ↦ none
      | some (ps, left, g') ↦ distribute_excess_fees fuel initial ps left g'
    ]
  ]

-- `changeOutputs.splice(i, 1)`: the satoshis of the element removed, and the rest.
pub splice_at : ℕ → List ChangeOutput → Option (ℕ × List ChangeOutput)
splice_at i [] = none
splice_at zero (o ∷ os) = some (o.satoshis, os)
splice_at (suc i) (o ∷ os) = elim (splice_at i os) [
  | none ↦ none
  | some (sats, ps) ↦ some (sats, o ∷ ps)
]

-- The `reduce` of `removeDustOutputs`, as the index of the largest output.
pub largest_index : (best_index best index : ℕ) → List ChangeOutput → ℕ
largest_index b best i [] = b
largest_index b best i (o ∷ os) =
    largest_index (if ltb best o.satoshis then i else b)
      (if ltb best o.satoshis then o.satoshis else best) (i + 1) os

-- `removeDustOutputs`: the loop at the indices below `n`, downwards.
pub remove_dust_outputs : ℕ → List ChangeOutput → (dust_floor : ℕ) → Option (List ChangeOutput)
remove_dust_outputs zero os dust = some os
remove_dust_outputs (suc i) os dust = elim (splice_at i os) [
  | none ↦ none
  | some (sats, ps) ↦ elim (ltb sats dust && ltb 1 (length os)) [
    | false ↦ remove_dust_outputs i os dust
    | true ↦ elim (add_at (largest_index 0 (first_satoshis ps) 0 ps) sats ps) [
      | none ↦ none
      | some qs ↦ remove_dust_outputs i qs dust
    ]
  ]
]

-- `validateGenerateChangeSdkResult`, without its log.
pub result_is_valid : Doubles → Params → Generated → Bool
result_is_valid D p r =
    let sum_in =
      sum_by (λ i. i.satoshis) p.fixed_inputs
      + sum_by (λ i. i.satoshis) r.allocated_change_inputs in
    let sum_out = sum_ℤ p.fixed_outputs +ℤ pos (satoshis_of r.change_outputs) in
    if ltb_ℤ r.fee (pos 0)
    then false
    else if eqb_ℤ (pos sum_in -ℤ sum_out) r.fee
    then eqb_ℤ (pos (D.fee_for r.size r.sats_per_kb)) r.fee
    else false

-- What a run of the last steps unfolds.
unfoldable pub settle_runs : Unit {0}
unfolding next_random_val_of next_random_val rand distribute_step distribute_excess_fees splice_at
    largest_index remove_dust_outputs result_is_valid
settle_runs = tt
