-- ===== src/Change/Settle/Settled.antt =====
-- What the last steps of generateChange.ts do to the change outputs: the excess is spread to the
-- last satoshi, outputs only grow, and none above the dust floor is removed.
use wallet_toolbox_rocksdb.Base.{
  ℕ, zero, suc, ◌+◌, ◌-◌, ◌*◌, ◌/◌, ◌^◌, ◌≤◌, ◌<◌, ◌≡◌, refl, ap, ◌∙◌, true, false, ◌&&◌, some,
  List, [], ◌∷◌, arith, length, All, All-append, Bool-cases, ltb, ◌==◌, min, max, inl, inr, sum_by,
}
use wallet_toolbox_rocksdb.Base.Int.{ℤ, pos, pos_part, neg_part, ◌+ℤ◌, ◌-ℤ◌, ltb_ℤ, eqb_ℤ, int_laws}
use wallet_toolbox_rocksdb.Change.Data.{ChangeOutput, Params, Generated, Doubles, Sdk}
use wallet_toolbox_rocksdb.Change.Funding.{satoshis_of, sum_ℤ}
use wallet_toolbox_rocksdb.Change.Settle.{
  Rng, add_at, first_satoshis, next_random_val_of, next_random_val, rand, distribute_step,
  distribute_excess_fees, splice_at, remove_dust_outputs, result_is_valid,
}

-- `ps` are the outputs `os`, some with more satoshis.
abbrev pub Grew : List ChangeOutput → List ChangeOutput → Type 0
Grew [] [] = Unit
Grew [] (p ∷ ps) = ⊥
Grew (o ∷ os) [] = ⊥
Grew (o ∷ os) (p ∷ ps) =
    (o.satoshis ≤ p.satoshis) × (o.locking_script_length ≡ p.locking_script_length) × Grew os ps

pub Grew-refl : (os : List ChangeOutput) → Grew os os
Grew-refl [] = tt
Grew-refl (o ∷ os) = (omega arith, refl, Grew-refl os)

Grew-trans : (os ps qs : List ChangeOutput) → Grew os ps → Grew ps qs → Grew os qs
Grew-trans [] [] [] g h = tt
Grew-trans (o ∷ os) (p ∷ ps) (q ∷ qs) g h = (omega arith, g.1 ∙ h.1, Grew-trans os ps qs g.2 h.2)
Grew-trans [] [] (q ∷ qs) g h = h
Grew-trans [] (p ∷ ps) qs g h = absurd g
Grew-trans (o ∷ os) [] qs g h = absurd g
Grew-trans (o ∷ os) (p ∷ ps) [] g h = absurd h

pub Grew-length : (os ps : List ChangeOutput) → Grew os ps → length ps ≡ length os
Grew-length [] [] g = refl
Grew-length [] (p ∷ ps) g = absurd g
Grew-length (o ∷ os) [] g = absurd g
Grew-length (o ∷ os) (p ∷ ps) g = ap suc (Grew-length os ps g.2)

pub Grew-floor :
    (n : ℕ) (os ps : List ChangeOutput)
    → Grew os ps
    → All (λ o. n ≤ o.satoshis) os
    → All (λ o. n ≤ o.satoshis) ps
Grew-floor n [] [] g h = tt
Grew-floor n [] (p ∷ ps) g h = absurd g
Grew-floor n (o ∷ os) [] g h = absurd g
Grew-floor n (o ∷ os) (p ∷ ps) g h = (omega arith, Grew-floor n os ps g.2 h.1)

add_at_lem :
    (i sats : ℕ) (os : List ChangeOutput)
    → i < length os
    → (ps : List ChangeOutput) × (add_at i sats os ≡ some ps)
      × (satoshis_of ps ≡ satoshis_of os + sats)
      × Grew os ps
add_at_lem i sats [] h = absurd (omega arith)
add_at_lem zero sats (o ∷ os) h = (_, refl, omega arith, (omega arith, refl, Grew-refl os))
add_at_lem (suc i) sats (o ∷ os) h =
    let (ps, e, s, g) = add_at_lem i sats os (omega arith) in
    (o ∷ ps, rw e, omega arith, (omega arith, refl, g))

-- A draw below 2 ^ 32, scaled to a range of `n` values, falls in the range.
scaled-lt : (v n : ℕ) → v < 2 ^ 32 → 0 < n → v * n / 2 ^ 32 < n
scaled-lt v n h k = let p : v * n ≤ 4294967295 * n = grind arith in omega arith

module _ (K : Sdk) where
  abbrev pub IsFair : Rng → Type 0
  IsFair g = All (λ v. v < 2 ^ 32) g.vals

  next_random_val_of_lem :
      (vs : List ℕ) (n : ℕ)
      → All (λ v. v < 2 ^ 32) vs
      → ((next_random_val_of K vs n).0 < 2 ^ 32) × IsFair (next_random_val_of K vs n).1
  unfolding next_random_val_of
  next_random_val_of_lem [] n f = (K.random-lt n, tt)
  next_random_val_of_lem (v ∷ vs) n f = (f.0, All-append _ vs (v ∷ []) f.1 (f.0, tt))

  next_random_val_lem :
      (g : Rng) → IsFair g → ((next_random_val K g).0 < 2 ^ 32) × IsFair (next_random_val K g).1
  unfolding next_random_val
  next_random_val_lem g f = next_random_val_of_lem g.vals g.drawn f

  rand_lem :
      (lo hi : ℕ) (g : Rng)
      → lo ≤ hi
      → IsFair g
      → (r : ℕ) × (g' : Rng) × (rand K lo hi g ≡ some (r, g')) × (lo ≤ r) × (r ≤ hi) × IsFair g'
  unfolding rand
  rand_lem lo hi g h f =
      let ok_draw = next_random_val_lem g f in
      let v = (next_random_val K g).0 in
      let small = scaled-lt v (hi - lo + 1) ok_draw.0 (omega arith) in
      let in_order : ltb hi lo ≡ false = ground arith in
      (
        v * (hi - lo + 1) / 2 ^ 32 + lo,
        (next_random_val K g).1,
        rw in_order,
        omega arith,
        omega arith,
        ok_draw.1,
      )

  module _ (D : Doubles) where
    distribute_step_lem :
        (initial : ℕ) (os : List ChangeOutput) (excess : ℕ) (g : Rng)
        → 0 < length os
        → 0 < excess
        → IsFair g
        → (ps : List ChangeOutput) × (left : ℕ) × (g' : Rng) × (distribute_step D K initial os
              excess g
            ≡ some (ps, left, g'))
          × (left < excess)
          × IsFair g'
          × (satoshis_of ps + left ≡ satoshis_of os + excess)
          × Grew os ps
    unfolding distribute_step
    distribute_step_lem initial os excess g h k f = elim (Bool-cases (length os == 1)) [
      | inl one ↦
          let (ps, e, s, w) = add_at_lem 0 excess os h in
          (ps, 0, g, rw (one, e), omega arith, f, omega arith, w)
      | inr more ↦ elim (Bool-cases (ltb (first_satoshis os) initial)) [
        | inl low ↦
            let sats = min excess (initial - first_satoshis os) in
            let (ps, e, s, w) = add_at_lem 0 sats os h in
            (ps, excess - sats, g, rw (more, low, e), ground arith, f, ground arith, w)
        | inr high ↦
            let (r, g₁, e₁, lo, hi, f₁) = rand_lem 2500 5000 g (omega arith) f in
            let sats = max 1 (D.share_of r excess) in
            let (i, g₂, e₂, lo', hi', f₂) = rand_lem 0 (length os - 1) g₁ (omega arith) f₁ in
            let (ps, e, s, w) = add_at_lem i sats os (omega arith) in
            let part = D.share_of-le r excess (omega arith) in
            (ps, excess - sats, g₂, rw (more, high, e₁, e₂, e), omega arith, f₂, omega arith, w)
      ]
    ]

    -- With at least one change output, fuel of at least the excess, and given random values that are
    -- fractions below one, the spreading ends with no excess left: the outputs have gained exactly
    -- the excess in sum, none has lost satoshis, and their number and scripts are unchanged.
    pub distribute_excess_fees_total :
        (fuel initial : ℕ) (os : List ChangeOutput) (excess : ℕ) (g : Rng)
        → 0 < length os
        → excess ≤ fuel
        → IsFair g
        → (ps : List ChangeOutput) × (distribute_excess_fees D K fuel initial os excess g
            ≡ some (ps, 0))
          × (satoshis_of ps ≡ satoshis_of os + excess)
          × Grew os ps
    unfolding distribute_excess_fees
    distribute_excess_fees_total zero initial os excess g h k f =
        let done : (ltb 0 (length os) && ltb 0 excess) ≡ false = ground arith in
        let none_left : excess ≡ 0 = omega arith in
        (os, rw (done, none_left), omega arith, Grew-refl os)
    distribute_excess_fees_total (suc fuel) initial os excess g h k f =
        elim (Bool-cases (ltb 0 (length os) && ltb 0 excess)) [
          | inr done ↦
              let none_left : excess ≡ 0 = ground arith in
              (os, rw (done, distribute_excess_fees, none_left), omega arith, Grew-refl os)
          | inl go ↦
              let (ps, left, g', e, less, f', kept, w) =
                distribute_step_lem initial os excess g h (ground arith) f in
              let (qs, e', s, w') =
                distribute_excess_fees_total fuel initial ps left g'
                  (omega (arith, Grew-length os ps w)) (omega arith) f' in
              (qs, rw (go, distribute_excess_fees, e) e', omega arith, Grew-trans os ps qs w w')
        ]

splice_at_lem :
    (i dust : ℕ) (os : List ChangeOutput)
    → i < length os
    → All (λ o. dust ≤ o.satoshis) os
    → (sats : ℕ) × (ps : List ChangeOutput) × (splice_at i os ≡ some (sats, ps)) × (dust ≤ sats)
unfolding splice_at
splice_at_lem i dust [] h f = absurd (omega arith)
splice_at_lem zero dust (o ∷ os) h f = (o.satoshis, os, refl, f.0)
splice_at_lem (suc i) dust (o ∷ os) h f =
    let (sats, ps, e, l) = splice_at_lem i dust os (omega arith) f.1 in (sats, o ∷ ps, rw e, l)

-- Where no output is below the dust floor, `removeDustOutputs` changes nothing.
pub remove_dust_outputs_lem :
    (n dust : ℕ) (os : List ChangeOutput)
    → n ≤ length os
    → All (λ o. dust ≤ o.satoshis) os
    → remove_dust_outputs n os dust ≡ some os
unfolding remove_dust_outputs
remove_dust_outputs_lem zero dust os h f = refl
remove_dust_outputs_lem (suc i) dust os h f =
    let (sats, ps, e, l) = splice_at_lem i dust os (omega arith) f in
    let stays : (ltb sats dust && ltb 1 (length os)) ≡ false = ground arith in
    rw (e, remove_dust_outputs, stays) (remove_dust_outputs_lem i dust os (omega arith) f)

module _ (D : Doubles) (K : Sdk) where
  pub distribute_excess_fees_none :
      (initial : ℕ) (os : List ChangeOutput) (g : Rng)
      → distribute_excess_fees D K 0 initial os 0 g ≡ some (os, 0)
  unfolding distribute_excess_fees
  distribute_excess_fees_none initial os g = ground arith

balance_test :
    (f o : ℤ) (i n : ℕ)
    → f ≡ pos n
    → pos i ≡ o +ℤ f
    → (ltb_ℤ f (pos 0) ≡ false) × (eqb_ℤ (pos i -ℤ o) f ≡ true) × (eqb_ℤ (pos n) f ≡ true)
balance_test f o i n e b =
    let q : pos i -ℤ o ≡ f =
      omega (int_laws, ap pos_part b, ap neg_part b, ap pos_part e, ap neg_part e) in
    rw (q, e) (ground arith, ground arith, ground arith)

-- The check of the result passes when the fee is exact and the amounts balance.
pub result_is_valid_lem :
    (D : Doubles) (p : Params) (r : Generated)
    → r.fee ≡ pos (D.fee_for r.size r.sats_per_kb)
    → pos (
        sum_by (λ i. i.satoshis) p.fixed_inputs
        + sum_by (λ i. i.satoshis) r.allocated_change_inputs)
      ≡ sum_ℤ p.fixed_outputs +ℤ pos (satoshis_of r.change_outputs) +ℤ r.fee
    → result_is_valid D p r ≡ true
unfolding result_is_valid
result_is_valid_lem D p r e b =
    let (x, y, z) =
      balance_test r.fee (sum_ℤ p.fixed_outputs +ℤ pos (satoshis_of r.change_outputs)) _ _ e b in
    rw (x, y, z)
