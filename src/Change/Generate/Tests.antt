-- ===== src/Change/Generate/Tests.antt =====
-- Runs of the model of generateChange.ts, and its theorems at concrete inputs.
use wallet_toolbox_rocksdb.Base.{
  ℕ, ◌+◌, ◌*◌, ◌/◌, ◌≤◌, ◌<◌, ◌^◌, ◌≡◌, refl, ◌⊎◌, true, ◌&&◌, Option, none, some, List, [], ◌∷◌,
  map, arith,
}
use wallet_toolbox_rocksdb.Base.Int.{ℤ, pos, negsuc, leb_ℤ, ◌+ℤ◌, ◌-ℤ◌}
use wallet_toolbox_rocksdb.Change.Data.{
  ChangeOutput, Params, Generated, Doubles, Sdk, ok, err, invalid_parameter, insufficient_funds,
  Result,
}
use wallet_toolbox_rocksdb.Change.Size.{size_runs}
use wallet_toolbox_rocksdb.Change.Pool.{StoredChange, pool_runs}
use wallet_toolbox_rocksdb.Change.Pool.Takes.{spendable_count}
use wallet_toolbox_rocksdb.Change.Pool.Store.{
  Store, entries, pool_allocator, checked_allocate, checked_release, pool_allocate, pool_release,
  pool_release-allocate,
}
use wallet_toolbox_rocksdb.Change.Funding.{satoshis_of, funding_runs, Setup}
use wallet_toolbox_rocksdb.Change.Generate.{
  generate_change_sdk, validate_params, inputs_are_valid, scan_outputs, validate_storage_fee_model,
  adjust_max_possible, require_funds, fail_underfunded, fail_without_change, settle,
}
use wallet_toolbox_rocksdb.Change.Settle.{Rng, distribute_excess_fees, settle_runs}
use wallet_toolbox_rocksdb.Change.Settle.Settled.{Grew, distribute_excess_fees_total}
use text.Mathlib.Text.{◌==◌ as str_eq}
use wallet_toolbox_rocksdb.Change.Generate.Correct.{IsCorrect, IsFinal, generate_change_sdk_total}

share_of-le : (r excess : ℕ) → r ≤ 10_000 → r * excess / 10_000 ≤ excess
share_of-le r excess h = let p : r * excess ≤ 10_000 * excess = grind arith in omega arith

abbrev exact_doubles : Doubles
exact_doubles = record {
  fee_for = λ size rate. (size * rate + 999) / 1000;
  share_of = λ r excess. r * excess / 10_000;
  share_of-le = share_of-le;
}

fixed-lt : (n : ℕ) → 7 < 2 ^ 32
fixed-lt n = omega arith

abbrev fixed_sdk : Sdk
fixed_sdk = record {
  random = λ n. 7;
  random-lt = fixed-lt;
  valid_satoshis = λ v m. leb_ℤ (pos m) v && leb_ℤ v (pos 2_100_000_000_000_000);
}

abbrev free_change : ℕ → ℕ → StoredChange
free_change id sats = record {
  input = record { output_id = id; satoshis = sats };
  spendable = true;
}

abbrev wallet : Store
wallet = (free_change 1 500 ∷ free_change 2 2000 ∷ free_change 3 9000 ∷ [], (omega arith))

abbrev payment : ℤ → Params
payment sats = record {
  fixed_inputs = [];
  fixed_outputs = record { satoshis = sats; locking_script_length = 25 } ∷ [];
  fee_model = some (record { model = "sat/kb"; value = some 100 });
  target_net_count = none;
  change_initial_satoshis = 1000;
  change_first_satoshis = 285;
  change_locking_script_length = 25;
  change_unlocking_script_length = 107;
  max_change_outputs = none;
  random_vals = [];
}

abbrev run : ℤ → Result Store (Generated × Store)
run sats = generate_change_sdk exact_doubles fixed_sdk pool_allocator (payment sats) wallet

-- The ids of the inputs, the satoshis of the change outputs, the fee and the adjusted satoshis.
summary : Result Store (Generated × Store) → Option (List ℕ × List ℕ × ℤ × Option ℤ)
summary (err e) = none
summary (ok (r, s)) = some (
  map (λ i. i.output_id) r.allocated_change_inputs,
  map (λ o. o.satoshis) r.change_outputs,
  r.fee,
  elim r.adjustment [ none ↦ none | some a ↦ some a.satoshis ],
)

pool_after : ℤ → Store
pool_after target = elim (pool_allocate target none wallet) [ none ↦ wallet | some (i, s) ↦ s ]

-- What the runs unfold.
model : Unit {0}
unfolding generate_change_sdk validate_params inputs_are_valid scan_outputs
    validate_storage_fee_model adjust_max_possible require_funds fail_underfunded
    fail_without_change settle summary pool_allocate checked_allocate pool_release checked_release
    entries funding_runs settle_runs pool_runs size_runs spendable_count str_eq ◌-ℤ◌ ◌+ℤ◌
model = tt

-- One input and one change output; too little; and an output of the most possible, which takes all
-- that is left of the wallet.
generate_change_sdk_tests :
    (summary (run (pos 1000)) ≡ some (2 ∷ [], 977 ∷ [], pos 23, none))
    × (summary (run (pos 100000)) ≡ none)
    × (summary (run (pos 2_099_999_999_999_999))
        ≡ some (3 ∷ 2 ∷ 1 ∷ [], [], pos 49, some (pos 11451)))
unfolding model
generate_change_sdk_tests = (refl, refl, refl)

-- An output of the most possible beside one of more than the wallet has: its satoshis are adjusted
-- to a negative amount, and the call succeeds.
abbrev overspent : Params
overspent = record (payment (pos 2_099_999_999_999_999)) {
  fixed_outputs =
      record { satoshis = pos 2_099_999_999_999_999; locking_script_length = 25 }
      ∷ record { satoshis = pos 20_000; locking_script_length = 25 }
      ∷ [];
}

overspent_test :
    summary (generate_change_sdk exact_doubles fixed_sdk pool_allocator overspent wallet)
    ≡ some (3 ∷ 2 ∷ 1 ∷ [], [], pos 53, some (negsuc 8552))
unfolding model
overspent_test = refl

generate_change_sdk_total_example :
    ((validate_params fixed_sdk (payment (pos 1000)) ≡ none)
      × (run (pos 1000) ≡ err invalid_parameter))
    ⊎ ((t m : ℤ) × (run (pos 1000) ≡ err (insufficient_funds t m wallet)))
    ⊎ ((r : Generated) × (s : Store) × (rate : ℕ) × (found : Option ℕ) × (c : Setup) × (run
            (pos 1000)
          ≡ ok (r, s))
        × (validate_params fixed_sdk (payment (pos 1000)) ≡ some (rate, found))
        × IsCorrect exact_doubles pool_allocator c wallet r s
        × IsFinal exact_doubles (payment (pos 1000)) rate found c r.adjustment)
generate_change_sdk_total_example =
    generate_change_sdk_total exact_doubles fixed_sdk pool_allocator wallet (payment (pos 1000)) tt

pool_release-allocate_example : pool_release 2 (pool_after (pos 700)) ≡ some wallet
unfolding pool_after model
pool_release-allocate_example =
    pool_release-allocate (pos 700) none wallet (record { output_id = 2; satoshis = 2000 })
      (pool_after (pos 700)) refl

abbrev change_outputs : List ChangeOutput
change_outputs =
    record { satoshis = 900; locking_script_length = 25 }
    ∷ record { satoshis = 1000; locking_script_length = 25 }
    ∷ []

abbrev drawn : Rng
drawn = record { vals = 1_000_000 ∷ 3_000_000_000 ∷ []; drawn = 0 }

distribute_excess_fees_total_example :
    (ps : List ChangeOutput) × (distribute_excess_fees exact_doubles fixed_sdk 800 1000
        change_outputs 750 drawn
      ≡ some (ps, 0))
    × (satoshis_of ps ≡ satoshis_of change_outputs + 750)
    × Grew change_outputs ps
distribute_excess_fees_total_example =
    distribute_excess_fees_total fixed_sdk exact_doubles 800 1000 change_outputs 750 drawn
      (omega arith) (omega arith) (omega arith, (omega arith, tt))
