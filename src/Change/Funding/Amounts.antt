-- ===== src/Change/Funding/Amounts.antt =====
-- The derived amounts of generateChange.ts when the change outputs are settled.
use mathlib.Core.List.{reverse, reverse-cons}
use native.Mathlib.Nat.{add-zero}
use wallet_toolbox_rocksdb.Base.{
  ℕ, ◌+◌, ◌≡◌, refl, ap, List, [], ◌∷◌, ◌++◌, map, arith, length, sum_by, length-append,
  sum_by-append,
}
use wallet_toolbox_rocksdb.Base.Int.{ℤ, pos, pos_part, neg_part, ◌+ℤ◌, ◌-ℤ◌, int_laws}
use wallet_toolbox_rocksdb.Change.Data.{ChangeInput, ChangeOutput, Doubles}
use wallet_toolbox_rocksdb.Change.Size.{transaction_size}
use wallet_toolbox_rocksdb.Change.Funding.{
  Setup, Draft, sum_ℤ, satoshis_of, funding, spending, size, fee, fee_target, fee_excess, replicate,
}

sum_by-reverse : (f : ChangeInput → ℕ) (xs : List ChangeInput) → sum_by f (reverse xs) ≡ sum_by f xs
sum_by-reverse f [] = refl
sum_by-reverse f (x ∷ xs) =
    rw (reverse-cons x xs)
      (omega (arith, sum_by-append f (reverse xs) (x ∷ []), sum_by-reverse f xs))

length-reverse : (xs : List ChangeInput) → length (reverse xs) ≡ length xs
length-reverse [] = refl
length-reverse (x ∷ xs) =
    rw (reverse-cons x xs) (omega (arith, length-append (reverse xs) (x ∷ []), length-reverse xs))

exact_fee :
    (f a b e t : ℕ) (sp : ℤ)
    → pos f -ℤ sp -ℤ pos a -ℤ pos t ≡ pos e
    → b ≡ a + e
    → pos f -ℤ sp -ℤ pos b ≡ pos t
exact_fee f a b e t sp h s = omega (int_laws, ap pos_part h, ap neg_part h)

balanced : (f a : ℕ) (sp : ℤ) → pos f ≡ sp +ℤ pos a +ℤ (pos f -ℤ sp -ℤ pos a)
balanced f a sp = omega int_laws

module _ (D : Doubles) {S : Type 0} (c : Setup) (d : Draft S) where
  -- The fee is exact once the excess is spread over as many outputs.
  pub fee_of_spread :
      (ps : List ChangeOutput) (e : ℕ)
      → fee_excess D c d 0 0 ≡ pos e
      → satoshis_of ps ≡ satoshis_of d.outputs + e
      → length ps ≡ length d.outputs
      → let d' = record d { outputs = ps } in
        fee D c d' ≡ pos (D.fee_for (size c d' 0 0) c.sats_per_kb)
  unfolding fee_excess fee fee_target size funding
  fee_of_spread ps e h s l = rw l (
      exact_fee (funding c d) (satoshis_of d.outputs) (satoshis_of ps) e (fee_target D c d 0 0)
        (spending c) h s)

  -- The size is that of the transaction with the listed inputs and outputs.
  pub size_of_result :
      size c d 0 0
      ≡ transaction_size
          (map (λ i. i.unlocking_script_length) c.params.fixed_inputs
            ++ replicate (length (reverse d.allocated)) c.params.change_unlocking_script_length)
          (map (λ o. o.locking_script_length) c.params.fixed_outputs
            ++ replicate (length d.outputs) c.params.change_locking_script_length)
  unfolding size
  size_of_result = simp (add-zero, length-reverse d.allocated)

  -- What comes in is what goes out and the fee.
  pub balance_of_result :
      pos (
        sum_by (λ i. i.satoshis) c.params.fixed_inputs
        + sum_by (λ i. i.satoshis) (reverse d.allocated))
      ≡ sum_ℤ c.params.fixed_outputs +ℤ pos (satoshis_of d.outputs) +ℤ fee D c d
  unfolding fee funding spending
  balance_of_result =
      rw (sum_by-reverse (λ i. i.satoshis) d.allocated)
        (balanced (funding c d) (satoshis_of d.outputs) (spending c))
