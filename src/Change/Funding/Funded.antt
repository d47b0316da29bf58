-- ===== src/Change/Funding/Funded.antt =====
-- What the funding loops of generateChange.ts keep: the storage is the first one with the allocated
-- inputs taken, and every change output is worth at least the dust floor. And they end.
use wallet_toolbox_rocksdb.Base.{
  ℕ, zero, suc, ◌-◌, ◌≤◌, ◌<◌, ◌≡◌, refl, inl, inr, Bool, true, List, [], ◌∷◌, arith, length, All,
  All-append, length-append, Bool-cases,
}
use wallet_toolbox_rocksdb.Change.Data.{ChangeOutput, Doubles}
use wallet_toolbox_rocksdb.Change.Funding.{
  Setup, Draft, drop_last, wants_output, initial_round, extra_satoshis, initial_outputs,
  push_output, maybe_add_change_output,
}

-- Change outputs within the cap, none below the dust floor.
pub record IsViable (c : Setup) (os : List ChangeOutput) : Type 0 where
  pub floor : All (λ o. c.dust_floor ≤ o.satoshis) os
  pub count : length os ≤ c.max_outputs

pub length-drop_last : (os : List ChangeOutput) → length (drop_last os) ≡ length os - 1
length-drop_last [] = omega arith
length-drop_last (o ∷ []) = omega arith
length-drop_last (o ∷ p ∷ os) = omega (arith, length-drop_last (p ∷ os))

All-drop_last :
    (P : ChangeOutput → Type 0) (os : List ChangeOutput) → All P os → All P (drop_last os)
All-drop_last P [] h = tt
All-drop_last P (o ∷ []) h = tt
All-drop_last P (o ∷ p ∷ os) (h, hs) = (h, All-drop_last P (p ∷ os) hs)

pub pop-IsViable : (c : Setup) (os : List ChangeOutput) → IsViable c os → IsViable c (drop_last os)
pop-IsViable c os v = record {
  floor = All-drop_last _ os v.floor;
  count = omega (arith, length-drop_last os);
}

push-IsViable :
    {S : Type 0} (c : Setup) (sats : ℕ) (d : Draft S)
    → c.dust_floor ≤ sats
    → length d.outputs < c.max_outputs
    → IsViable c d.outputs
    → IsViable c (push_output c sats d).outputs
push-IsViable c sats d h l v = record {
  floor = All-append _ d.outputs _ v.floor (h, tt);
  count = omega (arith, length-append d.outputs);
}

module _ (D : Doubles) {S : Type 0} (c : Setup) where
  -- A draft with other change outputs only, all viable.
  abbrev pub Grown : Draft S → Draft S → Type 0
  Grown d e = IsViable c e.outputs × (e.storage ≡ d.storage) × (e.allocated ≡ d.allocated)

  wants_output-lt : (d : Draft S) → wants_output D c d ≡ true → length d.outputs < c.max_outputs
  unfolding wants_output
  wants_output-lt d h = ground arith

  initial_round-IsViable :
      (d : Draft S)
      → length d.outputs < c.max_outputs
      → IsViable c d.outputs
      → IsViable c (initial_round D c d).outputs
  unfolding initial_round
  initial_round-IsViable d h v = push-IsViable c _ d (ground arith) h v

  pub initial_outputs_lem :
      (n : ℕ) (d : Draft S) → IsViable c d.outputs → Grown d (initial_outputs D n c d)
  unfolding initial_outputs
  initial_outputs_lem zero d v = (v, refl, refl)
  initial_outputs_lem (suc n) d v = elim (Bool-cases (wants_output D c d)) [
    | inr stop ↦ rw (stop, initial_outputs) (v, refl, refl)
    | inl go ↦
        let ih =
          initial_outputs_lem n (initial_round D c d)
            (initial_round-IsViable d (wants_output-lt d go) v) in
        rw (go, initial_outputs) ih
  ]

  pub maybe_add_lem :
      (removing : Bool) (ao : ℕ) (d : Draft S)
      → IsViable c d.outputs
      → Grown d (maybe_add_change_output D c removing ao d)
        × (removing ≡ true → (maybe_add_change_output D c removing ao d).outputs ≡ d.outputs)
  unfolding maybe_add_change_output
  maybe_add_lem removing ao d v = ground (arith, push-IsViable c (extra_satoshis D c d) d)
