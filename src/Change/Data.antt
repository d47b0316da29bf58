-- ===== src/Change/Data.antt =====
-- The data of src/storage/methods/generateChange.ts, its errors, and what it calls elsewhere.
-- Satoshis and lengths are natural numbers; only a fixed output may become negative, by the
-- adjustment of `generateChangeSdk`. The fee rate is a whole number of satoshis per kilobyte.
use Prim.Native.String.{String}
use wallet_toolbox_rocksdb.Base.{ℕ, ◌≤◌, ◌<◌, ◌≡◌, ◌^◌, Option, some, List, Bool}
use wallet_toolbox_rocksdb.Base.Int.{ℤ}

abbrev pub max_possible_satoshis : ℕ
max_possible_satoshis = 2_099_999_999_999_999

abbrev pub max_change_outputs_per_transaction : ℕ
max_change_outputs_per_transaction = 8

pub record FixedInput : Type 0 where
  pub satoshis : ℕ
  pub unlocking_script_length : ℕ

pub record FixedOutput : Type 0 where
  pub satoshis : ℤ
  pub locking_script_length : ℕ

pub record ChangeInput : Type 0 where
  pub output_id : ℕ
  pub satoshis : ℕ

pub record ChangeOutput : Type 0 where
  pub satoshis : ℕ
  pub locking_script_length : ℕ

pub record FeeModel : Type 0 where
  pub model : String
  pub value : Option ℕ

-- `random_vals` holds the numerators of fractions over 2 ^ 32.
pub record Params : Type 0 where
  pub fixed_inputs : List FixedInput
  pub fixed_outputs : List FixedOutput
  pub fee_model : Option FeeModel
  pub target_net_count : Option ℤ
  pub change_initial_satoshis : ℕ
  pub change_first_satoshis : ℕ
  pub change_locking_script_length : ℕ
  pub change_unlocking_script_length : ℕ
  pub max_change_outputs : Option ℕ
  pub random_vals : List ℕ

pub record Adjustment : Type 0 where
  pub fixed_output_index : ℕ
  pub satoshis : ℤ

-- `GenerateChangeSdkResult`.
pub record Generated : Type 0 where
  pub allocated_change_inputs : List ChangeInput
  pub change_outputs : List ChangeOutput
  pub size : ℕ
  pub fee : ℤ
  pub sats_per_kb : ℕ
  pub adjustment : Option Adjustment

-- WERR_INVALID_PARAMETER, WERR_INSUFFICIENT_FUNDS with its two amounts, the two places that throw
-- WERR_INTERNAL, a rejected `releaseChangeInput`, and a loop of the model that ran out of fuel.
-- The error carries the storage as it was left.
pub data GenerateError (S : Type 0) : Type 0 where
  invalid_parameter : GenerateError S
  insufficient_funds : (total more : ℤ) → S → GenerateError S
  internal_max_possible : S → GenerateError S
  internal_result : S → GenerateError S
  index_error : S → GenerateError S
  release_rejected : S → GenerateError S
  out_of_fuel : GenerateError S

pub data Result {ℓ} (S : Type 0) (A : Type ℓ) : Type ℓ where
  ok : A → Result S A
  err : GenerateError S → Result S A

infixl 5 ◌>>=◌
abbrev pub ◌>>=◌ {ℓ κ} :
    {S : Type 0} {A : Type ℓ} {B : Type κ} → Result S A → (A → Result S B) → Result S B
ok a >>= f = f a
err e >>= f = err e

-- What the function computes with doubles: `Math.ceil((size / 1000) * satsPerKb)` and
-- `Math.floor((r / 10000) * excess)`. Rounding is monotone, so a part of at most the whole does not
-- exceed it.
pub record Doubles : Type 0 where
  pub fee_for : (size rate : ℕ) → ℕ
  pub share_of : (r excess : ℕ) → ℕ
  pub share_of-le : (r excess : ℕ) → r ≤ 10_000 → share_of r excess ≤ excess

-- The `Random` and `Validation` of @bsv/sdk: the four bytes of a draw are a number below 2 ^ 32.
pub record Sdk : Type 0 where
  pub random : ℕ → ℕ
  pub random-lt : (n : ℕ) → random n < 2 ^ 32
  pub valid_satoshis : ℤ → ℕ → Bool

-- The two callbacks that give access to the wallet's available change. `available` bounds how many
-- more allocations can succeed, and a release undoes the latest allocation.
pub record Allocator (S : Type 0) : Type 0 where
  pub allocate : (target : ℤ) (exact : Option ℤ) → S → Option (ChangeInput × S)
  pub release : ℕ → S → Option S
  pub available : S → ℕ
  pub allocate-available :
      (target : ℤ) (exact : Option ℤ) (s : S) (i : ChangeInput) (s' : S)
      → allocate target exact s ≡ some (i, s')
      → available s' < available s
  pub release-allocate :
      (target : ℤ) (exact : Option ℤ) (s : S) (i : ChangeInput) (s' : S)
      → allocate target exact s ≡ some (i, s')
      → release i.output_id s' ≡ some s
