-- ===== src/Change/Generate/Adjust.antt =====
-- The output of `maxPossibleSatoshis` in generateChange.ts: how it is found, and its adjustment.
use wallet_toolbox_rocksdb.Base.{
  ℕ, suc, ◌+◌, ◌≡◌, refl, ap, ◌∙◌, ◌⊎◌, inl, inr, true, Option, none, some, List, [], ◌∷◌, arith,
  Bool-cases, get_elem?,
}
use wallet_toolbox_rocksdb.Base.Int.{ℤ, pos, ◌+ℤ◌, ◌<ℤ◌, ltb_ℤ, eqb_ℤ, ltb_ℤ→lt, eqb_ℤ→eq}
use wallet_toolbox_rocksdb.Change.Data.{
  FixedOutput, Params, ok, Doubles, Sdk, max_possible_satoshis,
}
use wallet_toolbox_rocksdb.Change.Funding.{Setup, Draft, fee_excess}
use wallet_toolbox_rocksdb.Change.Generate.{
  validate_params, scan_outputs, with_satoshis, adjust_max_possible,
}

abbrev pub HasMax : ℕ → List FixedOutput → ℕ → Type 0
HasMax i os j =
    (n : ℕ) × (o : FixedOutput) × (j ≡ i + n)
    × (get_elem? os n ≡ some o)
    × (o.satoshis ≡ pos max_possible_satoshis)

module _ (K : Sdk) where
  scan_outputs_lem :
      (i : ℕ) (found : Option ℕ) (os : List FixedOutput) (j : ℕ)
      → scan_outputs K i found os ≡ some (some j)
      → (found ≡ some j) ⊎ HasMax i os j
  unfolding scan_outputs
  scan_outputs_lem i found [] j e = inl (ground arith)
  scan_outputs_lem i found (o ∷ os) j e =
      elim (Bool-cases (eqb_ℤ o.satoshis (pos max_possible_satoshis))) [
        | inr other ↦
            let e' : scan_outputs K (i + 1) found os ≡ some (some j) = ground arith in
            elim (scan_outputs_lem (i + 1) found os j e') [
              | inl h ↦ inl h
              | inr (n, o', p, q, r) ↦ inr (suc n, o', omega arith, q, r)
            ]
        | inl here ↦
            let e' : scan_outputs K (i + 1) (some i) os ≡ some (some j) = ground arith in
            elim (scan_outputs_lem (i + 1) (some i) os j e') [
              | inl h ↦ inr (0, o, ground arith, refl, eqb_ℤ→eq o.satoshis _ here)
              | inr (n, o', p, q, r) ↦ inr (suc n, o', omega arith, q, r)
            ]
      ]

  pub validate_params-HasMax :
      (p : Params) (rate j : ℕ) (found : Option ℕ)
      → validate_params K p ≡ some (rate, found)
      → found ≡ some j
      → HasMax 0 p.fixed_outputs j
  unfolding validate_params
  validate_params-HasMax p rate j found e h =
      let e' : scan_outputs K 0 none p.fixed_outputs ≡ some found = ground arith in
      elim (scan_outputs_lem 0 none p.fixed_outputs j (e' ∙ ap some h)) [
        | inl absent ↦ cc
        | inr m ↦ m
      ]

module _ (D : Doubles) {S : Type 0} where
  -- An adjusted setup: the same but for the satoshis of one output.
  pub adjust_cases :
      (c : Setup) (found : Option ℕ) (d : Draft S)
      → ((j : ℕ) → found ≡ some j → HasMax 0 c.params.fixed_outputs j)
      → (adjust_max_possible D c found d ≡ ok (c, none))
        ⊎ ((i : ℕ) × (v : ℤ) × (adjust_max_possible D c found d
              ≡ ok (with_satoshis c i v, some (record { fixed_output_index = i; satoshis = v })))
            × (found ≡ some i)
            × (fee_excess D c d 0 0 <ℤ pos 0)
            × (v ≡ pos max_possible_satoshis +ℤ fee_excess D c d 0 0))
  unfolding adjust_max_possible
  adjust_cases c none d m = inl refl
  adjust_cases c (some i) d m = elim (Bool-cases (ltb_ℤ (fee_excess D c d 0 0) (pos 0))) [
    | inr enough ↦ inl (rw enough)
    | inl short ↦
        let (n, o, p, q, r) = m i refl in
        let at : get_elem? c.params.fixed_outputs i ≡ some o =
          let p' : i ≡ n = omega arith in rw p' q in
        let test : eqb_ℤ o.satoshis (pos max_possible_satoshis) ≡ true = ground arith in
        inr (
          i,
          o.satoshis +ℤ fee_excess D c d 0 0,
          rw (short, at, test),
          refl,
          ltb_ℤ→lt (fee_excess D c d 0 0) (pos 0) short,
          rw r,
        )
  ]
