-- ===== src/Change/Generate.antt =====
-- `validateGenerateChangeSdkParams` and `generateChangeSdk` of
-- src/storage/methods/generateChange.ts, with `validateStorageFeeModel` of
-- src/storage/StorageProvider.ts. The checks that a value is an integer hold by its type. Logging is
-- left out.
pub mod Adjust
pub mod Correct
pub mod Tests
use Prim.Native.String.{String}
use text.Mathlib.Text.{◌==◌ as str_eq}
use mathlib.Core.List.{reverse}
use wallet_toolbox_rocksdb.Base.{
  ℕ, zero, suc, ◌+◌, Bool, true, false, not, ◌&&◌, ◌||◌, Option, none, some, List, [], ◌∷◌, ltb,
  ◌==◌, if◌then◌else◌, length, get_elem?,
}
use wallet_toolbox_rocksdb.Base.Int.{ℤ, pos, ◌+ℤ◌, ◌-ℤ◌, ltb_ℤ, eqb_ℤ, pos_part}
use wallet_toolbox_rocksdb.Change.Data.{
  FixedInput, FixedOutput, ChangeInput, ChangeOutput, FeeModel, Params, Adjustment, Generated,
  GenerateError, invalid_parameter, insufficient_funds, internal_max_possible, internal_result,
  index_error, Result, ok, err, ◌>>=◌, Doubles, Sdk, Allocator, max_possible_satoshis,
}
use wallet_toolbox_rocksdb.Change.Funding.{
  Setup, Draft, setup, spending, size, fee, fee_target, fee_excess, initial_outputs,
  release_allocated, fund_transaction,
}
use wallet_toolbox_rocksdb.Change.Settle.{
  Rng, distribute_excess_fees, remove_dust_outputs, result_is_valid,
}

-- `none` is the WERR_INVALID_PARAMETER that is thrown.
pub validate_storage_fee_model : Option FeeModel → Option FeeModel
validate_storage_fee_model none = some (record { model = "sat/kb"; value = some 1 })
validate_storage_fee_model (some m) =
    if str_eq m.model "sat/kb"
    then some
        (record { model = "sat/kb"; value = elim m.value [ none ↦ some 1 | some v ↦ some v ] })
    else none

abbrev pub rate_of : FeeModel → ℕ
rate_of m = elim m.value [ none ↦ 0 | some v ↦ v ]

module _ (K : Sdk) where
  pub inputs_are_valid : List FixedInput → Bool
  inputs_are_valid [] = true
  inputs_are_valid (x ∷ xs) = K.valid_satoshis (pos x.satoshis) 0 && inputs_are_valid xs

  -- The `forEach` over the fixed outputs, from index `i`, with `hasMaxPossibleOutput` so far.
  pub scan_outputs : ℕ → Option ℕ → List FixedOutput → Option (Option ℕ)
  scan_outputs i found [] = some found
  scan_outputs i found (x ∷ xs) = elim (K.valid_satoshis x.satoshis 0) [
    | false ↦ none
    | true ↦ elim (eqb_ℤ x.satoshis (pos max_possible_satoshis)) [
      | false ↦ scan_outputs (i + 1) found xs
      | true ↦ elim found [ none ↦ scan_outputs (i + 1) (some i) xs | some j ↦ none ]
    ]
  ]

  -- The fee rate, and `hasMaxPossibleOutput`.
  pub validate_params : Params → Option (ℕ × Option ℕ)
  validate_params p =
      if not (inputs_are_valid p.fixed_inputs)
      then none
      else elim (scan_outputs 0 none p.fixed_outputs) [
        | none ↦ none
        | some found ↦ elim (validate_storage_fee_model p.fee_model) [
          | none ↦ none
          | some m ↦
              if not (str_eq m.model "sat/kb")
              then none
              else if not (K.valid_satoshis (pos p.change_first_satoshis) 1)
              then none
              else if not (K.valid_satoshis (pos p.change_initial_satoshis) 1)
              then none
              else some (rate_of m, found)
        ]
      ]

abbrev pub set_satoshis : List FixedOutput → ℕ → ℤ → List FixedOutput
set_satoshis [] i v = []
set_satoshis (o ∷ os) zero v = record o { satoshis = v } ∷ os
set_satoshis (o ∷ os) (suc i) v = o ∷ set_satoshis os i v

abbrev pub with_satoshis : Setup → ℕ → ℤ → Setup
with_satoshis c i v = record c {
  params = record (c.params) { fixed_outputs = set_satoshis c.params.fixed_outputs i v };
}

module _ (D : Doubles) {S : Type 0} where
  -- Reducing the output of `maxPossibleSatoshis` to what just funds the transaction.
  pub adjust_max_possible : Setup → Option ℕ → Draft S → Result S (Setup × Option Adjustment)
  adjust_max_possible c none d = ok (c, none)
  adjust_max_possible c (some i) d =
      if ltb_ℤ (fee_excess D c d 0 0) (pos 0)
      then elim (get_elem? c.params.fixed_outputs i) [
        | none ↦ err (index_error d.storage)
        | some o ↦
            if eqb_ℤ o.satoshis (pos max_possible_satoshis)
            then (let v = o.satoshis +ℤ fee_excess D c d 0 0 in
                ok (with_satoshis c i v, some (record { fixed_output_index = i; satoshis = v })))
            else err (internal_max_possible d.storage)
      ]
      else ok (c, none)

module _ (D : Doubles) {S : Type 0} (A : Allocator S) where
  -- The two ways to end in WERR_INSUFFICIENT_FUNDS. The amounts of the first are read before the
  -- inputs are released, the total of the second after.
  fail_underfunded : Setup → Draft S → Result S (Draft S)
  fail_underfunded c d = do
    d' ← release_allocated D A d
    err (
        insufficient_funds (spending c +ℤ pos (fee_target D c d 0 0))
          (pos 0 -ℤ fee_excess D c d 0 0) d'.storage)

  fail_without_change : Setup → Draft S → Result S (Draft S)
  fail_without_change c d = do
    d' ← release_allocated D A d
    err (
        insufficient_funds (spending c +ℤ pos (fee_target D c d' 0 0))
          (pos c.params.change_first_satoshis) d'.storage)

  pub require_funds : Setup → Draft S → Result S (Draft S)
  unfolding fail_underfunded fail_without_change
  require_funds c d =
      if ltb_ℤ (fee_excess D c d 0 0) (pos 0)
      then fail_underfunded c d
      else if length d.outputs == 0 && ltb_ℤ (pos 0) (fee_excess D c d 0 0)
      then fail_without_change c d
      else ok d

module _ (D : Doubles) (K : Sdk) {S : Type 0} where
  -- Distribution, dust and the result, with its check.
  pub settle : Setup → Option Adjustment → Draft S → Result S (Generated × S)
  settle c a d =
      elim (distribute_excess_fees D K (pos_part (fee_excess D c d 0 0))
        c.params.change_initial_satoshis d.outputs (pos_part (fee_excess D c d 0 0))
        (record { vals = c.params.random_vals; drawn = 0 })) [
          | none ↦ err (index_error d.storage)
          | some (os, left) ↦ elim (remove_dust_outputs (length os) os c.dust_floor) [
            | none ↦ err (index_error d.storage)
            | some ps ↦
                let d' = record d { outputs = ps } in
                let r : Generated = record {
                  allocated_change_inputs = reverse d.allocated;
                  change_outputs = ps;
                  size = size c d' 0 0;
                  fee = fee D c d';
                  sats_per_kb = c.sats_per_kb;
                  adjustment = a;
                } in
                if result_is_valid D c.params r
                then ok (r, d.storage)
                else err (internal_result d.storage)
          ]
        ]

module _ (D : Doubles) (K : Sdk) {S : Type 0} (A : Allocator S) where
  pub generate_change_sdk : Params → S → Result S (Generated × S)
  unfolding validate_params adjust_max_possible require_funds settle
  generate_change_sdk p s = elim (validate_params K p) [
    | none ↦ err invalid_parameter
    | some (rate, found) ↦
        let c = setup D p rate in
        let d₀ : Draft S = record { storage = s; allocated = []; outputs = [] } in
        do
          d₁ ← fund_transaction D A c (initial_outputs D c.max_outputs c d₀)
          (c', a) ← adjust_max_possible D c found d₁
          d₂ ← require_funds D A c' d₁
          settle D K c' a d₂
  ]
