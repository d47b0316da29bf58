-- ===== src/Change/Funding/Loops.antt =====
-- The funding and starvation loops of generateChange.ts: they end, and the storage they leave is
-- the first one with the allocated inputs taken.
use mathlib.Core.List.{reverse}
use wallet_toolbox_rocksdb.Base.{
  ℕ, zero, suc, ◌≤◌, ◌<◌, ◌≡◌, refl, ◌∙◌, ◌⊎◌, inl, inr, Bool, true, false, ◌&&◌, ◌||◌, Option,
  none, some, List, [], ◌∷◌, arith, length, Bool-cases, Option-cases, ltb, ◌==◌, if◌then◌else◌,
}
use wallet_toolbox_rocksdb.Base.Int.{ℤ, pos, ltb_ℤ, leb_ℤ}
use wallet_toolbox_rocksdb.Change.Data.{ChangeInput, ChangeOutput, ok, ◌>>=◌, Doubles, Allocator}
use wallet_toolbox_rocksdb.Change.Funding.{
  Setup, Draft, drop_last, last_satoshis, fee_excess, maybe_add_change_output,
  add_output_to_balance_new_input, target_satoshis, exact_satoshis, attempt_to_fund, funding_loop,
  release_all, release_allocated, pop_outputs, remove_covered, churn_loop, remove_churn_pairs,
  starvation_loop, fund_transaction,
}
use wallet_toolbox_rocksdb.Change.Funding.Funded.{
  IsViable, pop-IsViable, length-drop_last, Grown, maybe_add_lem,
}

module _ {S : Type 0} (A : Allocator S) where
  -- `s` is `first` after the allocations of the stack, which are all still held.
  pub data Held (first : S) : List ChangeInput → S → Type 0 where
    start : Held first [] first
    took :
        (target : ℤ) (exact : Option ℤ) {i : ChangeInput} {is : List ChangeInput} {s s' : S}
        → Held first is s
        → A.allocate target exact s ≡ some (i, s')
        → Held first (i ∷ is) s'

-- Popping outputs, and dropping churn, keep the outputs viable and make them no more.
churn_loop-IsViable :
    (c : Setup) (n : ℕ) (is : List ChangeInput) (os : List ChangeOutput)
    → IsViable c os
    → IsViable c (churn_loop n is os) × (length (churn_loop n is os) ≤ length os)
unfolding churn_loop
churn_loop-IsViable c zero is os v = (v, omega arith)
churn_loop-IsViable c (suc n) is os v = elim (Bool-cases (ltb 1 (length is) && ltb 1 (length os))) [
  | inr stop ↦ rw (stop, churn_loop) (v, omega arith)
  | inl go ↦ elim (Option-cases (remove_covered (last_satoshis os) is)) [
    | inl missing ↦ rw (go, churn_loop, missing) (v, omega arith)
    | inr (is', found) ↦
        let (v', l) = churn_loop-IsViable c n is' (drop_last os) (pop-IsViable c os v) in
        rw (go, churn_loop, found) (v', omega (arith, length-drop_last os))
  ]
]

module _ (D : Doubles) {S : Type 0} (c : Setup) where
  pop_outputs_lem :
      (n : ℕ) (d : Draft S)
      → IsViable c d.outputs
      → Grown D c d (pop_outputs D n c d)
        × (length (pop_outputs D n c d).outputs ≤ length d.outputs)
  unfolding pop_outputs
  pop_outputs_lem zero d v = ((v, refl, refl), omega arith)
  pop_outputs_lem (suc n) d v =
      elim (Bool-cases (ltb 0 (length d.outputs) && ltb_ℤ (fee_excess D c d 0 0) (pos 0))) [
        | inr stop ↦ rw (stop, pop_outputs) ((v, refl, refl), omega arith)
        | inl go ↦
            let (g, l) =
              pop_outputs_lem n (record d { outputs = drop_last d.outputs })
                (pop-IsViable c d.outputs v) in
            rw (go, pop_outputs) (g, omega (arith, length-drop_last d.outputs))
      ]

  -- An underfunded transaction with outputs loses at least one.
  pop_outputs-lt :
      (n : ℕ) (d : Draft S)
      → IsViable c d.outputs
      → ltb_ℤ (fee_excess D c d 0 0) (pos 0) ≡ true
      → 0 < length d.outputs
      → length (pop_outputs D (suc n) c d).outputs < length d.outputs
  unfolding pop_outputs
  pop_outputs-lt n d v e l =
      let go : (ltb 0 (length d.outputs) && ltb_ℤ (fee_excess D c d 0 0) (pos 0)) ≡ true =
        ground arith in
      let (g, m) =
        pop_outputs_lem n (record d { outputs = drop_last d.outputs })
          (pop-IsViable c d.outputs v) in
      rw (go, pop_outputs) (omega (arith, length-drop_last d.outputs))

  fewer_outputs :
      (n : ℕ) (d : Draft S)
      → IsViable c d.outputs
      → ltb_ℤ (fee_excess D c d 0 0) (pos 0) ≡ true
      → 0 < length d.outputs
      → n ≡ length d.outputs
      → length (pop_outputs D n c d).outputs < length d.outputs
  fewer_outputs zero d v e l p = absurd (omega arith)
  fewer_outputs (suc n) d v e l p = pop_outputs-lt n d v e l

module _ (D : Doubles) {S : Type 0} (A : Allocator S) (c : Setup) (first : S) where
  pub record Inv (d : Draft S) : Type 0 where
    pub held : Held A first d.allocated d.storage
    pub viable : IsViable c d.outputs

  release_all-Held :
      {is : List ChangeInput} {s : S} → Held A first is s → release_all D A is s ≡ ok first
  unfolding release_all
  release_all-Held start = refl
  release_all-Held (took t e {i} {is} h a) =
      rw (A.release-allocate _ _ _ _ _ a, release_all) (release_all-Held h)

  pub release_allocated_lem :
      (d : Draft S)
      → Inv d
      → release_allocated D A d ≡ ok (record d { storage = first; allocated = [] })
  unfolding release_allocated
  release_allocated_lem d v = rw (release_all-Held v.held)

  -- What a call of `attemptToFundTransaction` can do while the transaction is underfunded.
  attempt_cases :
      (removing : Bool) (d : Draft S)
      → Inv d
      → ltb_ℤ (fee_excess D c d 0 0) (pos 0) ≡ true
      → (attempt_to_fund D A c removing d ≡ none)
        ⊎ ((d' : Draft S) × (attempt_to_fund D A c removing d ≡ some d')
            × Inv d'
            × (A.available d'.storage < A.available d.storage)
            × (removing ≡ true → d'.outputs ≡ d.outputs))
  unfolding attempt_to_fund
  attempt_cases removing d v e =
      let ao : ℕ = if add_output_to_balance_new_input c d then 1 else 0 in
      let unfunded : ltb_ℤ (pos 0) (fee_excess D c d 0 0) ≡ false = ground arith in
      elim (Option-cases (A.allocate (target_satoshis D c d ao) (exact_satoshis D c d) d.storage)) [
        | inl missing ↦ inl (rw (unfunded, attempt_to_fund, missing))
        | inr ((i, s), found) ↦
            let d₁ = record d { storage = s; allocated = i ∷ d.allocated } in
            let (g, same) = maybe_add_lem D c removing ao d₁ v.viable in
            let d₂ = maybe_add_change_output D c removing ao d₁ in
            let taken : Held A first (i ∷ d.allocated) s = took _ _ v.held found in
            inr (
              d₂,
              rw (unfunded, attempt_to_fund, found),
              record { held = rw (g.1, g.2) taken; viable = g.0 },
              rw g.1 (A.allocate-available _ _ _ _ _ found),
              same,
            )
      ]

  funding_loop_total :
      (n : ℕ) (removing : Bool) (d : Draft S)
      → A.available d.storage < n
      → Inv d
      → (d' : Draft S) × (funding_loop D A n c removing d ≡ some d')
        × Inv d'
        × (removing ≡ true → d'.outputs ≡ d.outputs)
  unfolding funding_loop
  funding_loop_total zero removing d h v = absurd (omega arith)
  funding_loop_total (suc n) removing d h v =
      elim (Bool-cases (ltb_ℤ (fee_excess D c d 0 0) (pos 0))) [
        | inr stop ↦ (d, rw (stop, funding_loop), v, λ _. refl)
        | inl go ↦ elim (attempt_cases removing d v go) [
          | inl failed ↦ (d, rw (go, funding_loop, failed), v, λ _. refl)
          | inr (d', done, v', less, same) ↦
              let (d'', e, v'', same') = funding_loop_total n removing d' (omega arith) v' in
              (d'', rw (go, funding_loop, done) e, v'', λ r. same' r ∙ same r)
        ]
      ]

  -- The part of a starvation round after its funding loop.
  starved_total :
      (n : ℕ) (d : Draft S)
      → Inv d
      → (leb_ℤ (pos 0) (fee_excess D c d 0 0) || length d.outputs == 0) ≡ false
      → length d.outputs < suc n
      → let d' = pop_outputs D (length d.outputs) c d in
        let e = record d' { outputs = remove_churn_pairs (reverse d'.allocated) d'.outputs } in
        Inv d' × Inv e × (length e.outputs < n)
  unfolding remove_churn_pairs
  starved_total n d v h l =
      let some_output : 0 < length d.outputs = ground arith in
      let short : ltb_ℤ (fee_excess D c d 0 0) (pos 0) ≡ true = ground arith in
      let (g, m) = pop_outputs_lem D c (length d.outputs) d v.viable in
      let fewer : length (pop_outputs D (length d.outputs) c d).outputs < length d.outputs =
        fewer_outputs D c (length d.outputs) d v.viable short some_output refl in
      let d' = pop_outputs D (length d.outputs) c d in
      let (w, l') =
        churn_loop-IsViable c (length d'.outputs) (reverse d'.allocated) d'.outputs g.0 in
      let kept : Held A first d'.allocated d'.storage = rw (g.1, g.2) v.held in
      (record { held = kept; viable = g.0 }, record { held = kept; viable = w }, omega arith)

  starvation_loop_total :
      (n : ℕ) (removing : Bool) (d : Draft S)
      → Inv d
      → 0 < n
      → (removing ≡ true → length d.outputs < n)
      → (removing ≡ false → c.max_outputs < n)
      → (d' : Draft S) × (starvation_loop D A n c removing d ≡ ok d') × Inv d'
  unfolding starvation_loop
  starvation_loop_total zero removing d v p q r = absurd (omega arith)
  starvation_loop_total (suc n) removing d v p q r =
      let d₁ = record d { storage = first; allocated = [] } in
      let v₁ : Inv d₁ = record { held = start; viable = v.viable } in
      let (d₂, e₂, v₂, same) =
        funding_loop_total (suc (A.available first)) removing d₁ (omega arith) v₁ in
      let few : length d₂.outputs < suc n = elim (Bool-cases removing) [
        | inl a ↦ rw (same a) (q a)
        | inr b ↦ omega (arith, r b, v₂.viable.count)
      ] in
      elim (Bool-cases (leb_ℤ (pos 0) (fee_excess D c d₂ 0 0) || length d₂.outputs == 0)) [
        | inl done ↦ (d₂, rw (release_allocated_lem d v, starvation_loop, ◌>>=◌, e₂, done), v₂)
        | inr short ↦
            let d₃ = pop_outputs D (length d₂.outputs) c d₂ in
            let (v₃, v₄, fewer) = starved_total n d₂ v₂ short few in
            elim (Bool-cases (ltb_ℤ (fee_excess D c d₃ 0 0) (pos 0))) [
              | inl broke ↦
                  (d₃, rw (release_allocated_lem d v, starvation_loop, ◌>>=◌, e₂, short, broke), v₃)
              | inr again ↦
                  let (d₅, e₅, v₅) =
                    starvation_loop_total n true
                      (record d₃ { outputs = remove_churn_pairs (reverse d₃.allocated) d₃.outputs })
                      v₄ (omega arith) (λ _. fewer) (λ x. cc) in
                  (
                    d₅,
                    rw (release_allocated_lem d v, starvation_loop, ◌>>=◌, e₂, short, again) e₅,
                    v₅,
                  )
            ]
      ]

  -- Funding always ends, and never in an error; it leaves the storage with the inputs that are
  -- listed taken, and the outputs within the cap and above the dust floor.
  pub fund_transaction_total :
      (d : Draft S) → Inv d → (d' : Draft S) × (fund_transaction D A c d ≡ ok d') × Inv d'
  unfolding fund_transaction
  fund_transaction_total d v =
      starvation_loop_total (suc (suc c.max_outputs)) false d v (omega arith) (λ x. cc)
        (λ _. omega arith)
