-- ===== src/Sync/Rows/Newest.antt =====
-- Versions of a row that are merged one after the other: the newest wins.
use wallet_toolbox_rocksdb.Base.{
  ℕ, suc, Bool, some, List, [], ◌∷◌, ltb, ◌≡◌, ◌<◌, ◌≤◌, ◌⊎◌, refl, ap, ◌∙◌, inl, inr, arith,
  Bool-cases, All, get_elem?, ltb→lt, ltb→ge,
}
use wallet_toolbox_rocksdb.Sync.{IdMap}
use wallet_toolbox_rocksdb.Sync.Rows.{
  TableTransaction, merge_transaction, overwrite_transaction, TableOutput, merge_output,
  overwrite_output,
}

module _ {A : Type 0} where
  abbrev pub merge_all : (A → A → A × Bool) → List A → A → A
  merge_all merge [] this = this
  merge_all merge (ei ∷ eis) this = merge_all merge eis (merge ei this).0

  -- A merge that lets the newer version overwrite what is merged.
  pub record IsNewestWins (merge : A → A → A × Bool) (date : A → ℕ) (over : A → A → A)
      : Type 0 where
    pub newer : (ei this : A) → date this < date ei → (merge ei this).0 ≡ over ei this
    pub older : (ei this : A) → date ei ≤ date this → (merge ei this).0 ≡ this
    pub dated : (ei this : A) → date this < date ei → date (over ei this) ≡ date ei
    pub again :
        (a b this : A) → date this < date b → date b < date a → over a (over b this) ≡ over a this

  -- What a sequence of versions leaves: the row as it is, if none is newer, or the row overwritten by
  -- one of them that is newer than it and not older than any other.
  abbrev pub NewestOf : (A → ℕ) → (A → A → A) → List A → A → A → Type 0
  NewestOf date over eis this result =
      (All (λ ei. date ei ≤ date this) eis × (result ≡ this))
      ⊎ ((i : ℕ) × (ei : A) × (get_elem? eis i ≡ some ei)
          × (date this < date ei)
          × All (λ e. date e ≤ date ei) eis
          × (result ≡ over ei this))

  module _ (merge : A → A → A × Bool) (date : A → ℕ) (over : A → A → A)
      (n : IsNewestWins merge date over) where
    All-le :
        (x y : ℕ) (eis : List A) → x ≤ y → All (λ e. date e ≤ x) eis → All (λ e. date e ≤ y) eis
    All-le x y [] le all = tt
    All-le x y (e ∷ es) le all = (omega (arith, all.0, le), All-le x y es le all.1)

    pub merge_all-NewestOf :
        (eis : List A) (this : A) → NewestOf date over eis this (merge_all merge eis this)
    merge_all-NewestOf [] this = inl (tt, refl)
    merge_all-NewestOf (e ∷ es) this = elim (Bool-cases (ltb (date this) (date e))) [
      | inr old ↦
          let le = ltb→ge _ _ old in
          let same : (merge e this).0 ≡ this = n.older e this le in
          let rest = merge_all-NewestOf es this in
          let eq : merge_all merge es (merge e this).0 ≡ merge_all merge es this =
            ap (merge_all merge es) same in
          elim rest [
            | inl (all, kept) ↦ inl ((le, all), eq ∙ kept)
            | inr (i, ei, at, newer, all, over_it) ↦
                inr (suc i, ei, at, newer, (omega (arith, le, newer), all), eq ∙ over_it)
          ]
      | inl new ↦
          let lt = ltb→lt _ _ new in
          let same : (merge e this).0 ≡ over e this = n.newer e this lt in
          let dated = n.dated e this lt in
          let eq : merge_all merge es (merge e this).0 ≡ merge_all merge es (over e this) =
            ap (merge_all merge es) same in
          elim (merge_all-NewestOf es (over e this)) [
            | inl (all, kept) ↦ inr (
              0,
              e,
              refl,
              lt,
              (omega arith, All-le (date (over e this)) (date e) es (omega (arith, dated)) all),
              eq ∙ kept,
            )
            | inr (i, ei, at, newer, all, over_it) ↦
                let lt' : date e < date ei = omega (arith, dated, newer) in
                inr (
                  suc i,
                  ei,
                  at,
                  omega (arith, lt, lt'),
                  (omega (arith, lt'), all),
                  eq ∙ over_it ∙ n.again ei e this lt lt',
                )
          ]
    ]

transactions_newest :
    (m : IdMap) → IsNewestWins (merge_transaction m) (λ t. t.updated_at) (overwrite_transaction m)
unfolding merge_transaction
transactions_newest m = record {
  newer = λ ei this lt. ground arith;
  older = λ ei this le. ground arith;
  dated = λ ei this lt. omega arith;
  again = λ a b this lt lt'. ground arith;
}

outputs_newest :
    (m : IdMap) → IsNewestWins (merge_output m) (λ t. t.updated_at) (overwrite_output m)
unfolding merge_output
outputs_newest m = record {
  newer = λ ei this lt. ground arith;
  older = λ ei this le. ground arith;
  dated = λ ei this lt. omega arith;
  again = λ a b this lt lt'. ground arith;
}

-- Versions of a transaction merged one after the other, in any order, leave it as it is, if none of
-- them is newer, or with the merged properties of one that is newer than it and as new as any other.
pub merge_transactions-NewestOf :
    (m : IdMap) (eis : List TableTransaction) (this : TableTransaction)
    → NewestOf
        (λ t. t.updated_at)
        (overwrite_transaction m)
        eis
        this
        (merge_all (merge_transaction m) eis this)
merge_transactions-NewestOf m =
    merge_all-NewestOf (merge_transaction m) (λ t. t.updated_at) (overwrite_transaction m)
      (transactions_newest m)

-- Versions of an output merged one after the other, in any order, leave it as it is, if none of them
-- is newer, or with the merged properties of one that is newer than it and as new as any other.
pub merge_outputs-NewestOf :
    (m : IdMap) (eis : List TableOutput) (this : TableOutput)
    → NewestOf
        (λ t. t.updated_at)
        (overwrite_output m)
        eis
        this
        (merge_all (merge_output m) eis this)
merge_outputs-NewestOf m =
    merge_all-NewestOf (merge_output m) (λ t. t.updated_at) (overwrite_output m) (outputs_newest m)
