-- ===== src/ServiceCollection/Tests.antt =====
-- Runs of the model of ServiceCollection.ts, and its theorems at concrete collections.
use Prim.Native.String.{String}
use mathlib.Core.List.{Perm}
use wallet_toolbox_rocksdb.Base.{
  ℕ, ◌+◌, ◌≡◌, refl, true, false, Option, none, some, [], ◌∷◌, map, arith,
}
use wallet_toolbox_rocksdb.ServiceCollection.{
  Named, ServiceCall, CallError, ServiceToCall, ServiceCollection, ProviderHistory, new,
  move_service_to_last, add_service_call_error, add_service_call_failure, current_name,
  lookup_history, fresh_history,
}
use wallet_toolbox_rocksdb.ServiceCollection.Order.{advance, advance_lem, move_service_to_last-perm}
use wallet_toolbox_rocksdb.ServiceCollection.History.{
  Op, AllSound, run, run-new-AllSound, add_service_call_error-misattributed,
}

abbrev arc : Named ℕ
arc = record { name = "ARC"; service = 10 }

abbrev woc : Named ℕ
woc = record { name = "WhatsOnChain"; service = 20 }

abbrev bitails : Named ℕ
bitails = record { name = "Bitails"; service = 30 }

providers : ServiceCollection ℕ
providers = new "postBeef" (arc ∷ woc ∷ bitails ∷ []) 1000

abbrev a_call : ServiceCall
a_call = record { when = 1500; msecs = 0; success = false; result = none; error = none }

abbrev to_woc : ServiceToCall ℕ
to_woc = record {
  provider_name = "WhatsOnChain";
  service_name = "postBeef";
  service = 20;
  call = a_call;
}

abbrev to_arc : ServiceToCall ℕ
to_arc = record { provider_name = "ARC"; service_name = "postBeef"; service = 10; call = a_call }

abbrev timeout : CallError
timeout = record { message = "timeout"; code = "ETIMEDOUT" }

-- The collection after one failed call of the provider at the index.
after_failure : ServiceCollection ℕ
unfolding providers
after_failure = elim (add_service_call_failure to_arc none 1600 providers) [
  | none ↦ providers
  | some c ↦ c
]

after_error : ServiceCollection ℕ
unfolding after_failure
after_error = elim (add_service_call_error to_woc timeout 1700 after_failure) [
  | none ↦ after_failure
  | some c ↦ c
]

model : Unit {0}
unfolding after_error add_service_call_error add_service_call_failure lookup_history
    move_service_to_last new
model = tt

abbrev failures_of : String → ServiceCollection ℕ → Option ℕ
failures_of name c = elim (lookup_history name c.history) [
  | none ↦ none
  | some h ↦ some h.total_counts.failure
]

-- An error of WhatsOnChain is counted for ARC.
ServiceCollection_tests :
    (map (λ s. s.service) (move_service_to_last to_woc providers).services ≡ 10 ∷ 30 ∷ 20 ∷ [])
    × (failures_of "ARC" after_failure ≡ some 1)
    × (failures_of "ARC" after_error ≡ some 2)
    × (failures_of "WhatsOnChain" after_error ≡ none)
unfolding model
ServiceCollection_tests = (refl, refl, refl, refl)

advance_lem_example : advance 5 providers ≡ some (record providers { index = 2 })
unfolding providers new
advance_lem_example = advance_lem 5 providers (omega arith)

move_service_to_last-perm_example :
    Perm (move_service_to_last to_woc providers).services providers.services
move_service_to_last-perm_example = move_service_to_last-perm to_woc providers

run-new-AllSound_example :
    AllSound
      (run
        (Op.succeeds to_woc none 1200 ∷ Op.reads true 1300 ∷ Op.throws to_arc timeout 1400 ∷ [])
        (new "postBeef" (arc ∷ woc ∷ []) 1000)).history
run-new-AllSound_example =
    run-new-AllSound "postBeef" (arc ∷ woc ∷ []) 1000
      (Op.succeeds to_woc none 1200 ∷ Op.reads true 1300 ∷ Op.throws to_arc timeout 1400 ∷ [])

arc_history : ProviderHistory
unfolding after_failure
arc_history = elim (lookup_history "ARC" after_failure.history) [
  | none ↦ fresh_history "postBeef" "ARC" 0 0
  | some h ↦ h
]

add_service_call_error-misattributed_example :
    (lookup_history "WhatsOnChain" after_error.history
      ≡ lookup_history "WhatsOnChain" after_failure.history)
    × (k : ProviderHistory) × (lookup_history "ARC" after_error.history ≡ some k)
    × (k.total_counts.failure ≡ arc_history.total_counts.failure + 1)
    × (k.total_counts.error ≡ arc_history.total_counts.error + 1)
unfolding model arc_history current_name
add_service_call_error-misattributed_example =
    add_service_call_error-misattributed after_failure after_error to_woc timeout 1700 "ARC"
      arc_history refl (λ e. cc) refl refl
