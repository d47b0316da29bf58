-- ===== src/Sync/Maps.antt =====
-- The maps from foreign to local ids in MergeEntity.ts and EntitySyncState.ts are never changed where
-- they are defined.
use wallet_toolbox_rocksdb.Base.{
  ℕ, none, some, [], ◌∷◌, ◌==◌, ◌≡◌, sym, ap, ◌∙◌, inl, inr, arith, Bool-cases, Option-cases,
  ==_iff, subst,
}
use wallet_toolbox_rocksdb.Sync.{IdMap, lookup, ok, update_sync_map, merge_id_map}

-- Every id that is mapped stays mapped to the same id.
abbrev pub Extends : IdMap → IdMap → Type 0
Extends m m' = (i o : ℕ) → lookup i m ≡ some o → lookup i m' ≡ some o

pub lookup-cons_self : (i o : ℕ) (m : IdMap) → lookup i ((i, o) ∷ m) ≡ some o
unfolding lookup
lookup-cons_self i o m = ground arith

cons-Extends : (i o : ℕ) (m : IdMap) → lookup i m ≡ none → Extends m ((i, o) ∷ m)
unfolding lookup
cons-Extends i o m free j p e = elim (Bool-cases (i == j)) [
  | inl same ↦
      let eq : i ≡ j = (==_iff _ _).0 same in
      let clash : lookup j m ≡ none = ap (λ k. lookup k m) (sym eq) ∙ free in ground arith
  | inr other ↦ ground arith
]

pub update_sync_map-Extends :
    (m m' : IdMap) (in_id out_id : ℕ)
    → update_sync_map m in_id out_id ≡ ok m'
    → Extends m m' × (lookup in_id m' ≡ some out_id)
unfolding update_sync_map
update_sync_map-Extends m m' in_id out_id run = elim (Bool-cases (in_id == 0)) [
  | inl bad ↦ let stop = rw (bad) at run in cc
  | inr good ↦ elim (Bool-cases (out_id == 0)) [
    | inl bad ↦ let stop = rw (good, bad) at run in cc
    | inr good' ↦ elim (Option-cases (lookup in_id m)) [
      | inl free ↦
          let run' : ok ((in_id, out_id) ∷ m) ≡ ok m' = rw (good, good', free) at run in
          let eq : (in_id, out_id) ∷ m ≡ m' = cc in
          (
            subst (Extends m) eq (cons-Extends in_id out_id m free),
            subst (λ z. lookup in_id z ≡ some out_id) eq (lookup-cons_self in_id out_id m),
          )
      | inr (p, found) ↦ elim (Bool-cases (p == out_id)) [
        | inl same ↦
            let run' : ok m ≡ ok m' = rw (good, good', found, same) at run in
            let eq : m ≡ m' = cc in
            (
              subst (Extends m) eq (λ i o e. e),
              subst (λ z. lookup in_id z ≡ some out_id) eq (found ∙ ap some ((==_iff _ _).0 same)),
            )
        | inr other ↦ let stop = rw (good, good', found, other) at run in cc
      ]
    ]
  ]
]

both :
    (i o : ℕ) (from_map m : IdMap)
    → lookup i m ≡ some o
    → Extends from_map m
    → Extends ((i, o) ∷ from_map) m
unfolding lookup
both i o from_map m first taken j p e = elim (Bool-cases (i == j)) [
  | inl same ↦
      let eq : i ≡ j = (==_iff _ _).0 same in
      let at_j : some o ≡ some p = rw (lookup, same) at e in
      ap (λ k. lookup k m) (sym eq) ∙ first ∙ at_j
  | inr other ↦ let at_j : lookup j from_map ≡ some p = rw (lookup, other) at e in taken j p at_j
]

-- Merging the map of another storage into a map, where it succeeds, keeps what was mapped and maps
-- every id of the other map as that does; so it cannot succeed where the two maps disagree.
pub merge_id_map-Extends :
    (from_map to_map m : IdMap)
    → merge_id_map from_map to_map ≡ ok m
    → Extends to_map m × Extends from_map m
unfolding merge_id_map lookup
merge_id_map-Extends [] to_map m run = (λ i o e. ground arith, λ i o e. cc)
merge_id_map-Extends ((i, o) ∷ from_map) to_map m run = elim (Option-cases (lookup i to_map)) [
  | inl free ↦
      let run' : merge_id_map from_map ((i, o) ∷ to_map) ≡ ok m = rw (merge_id_map, free) at run in
      let (kept, taken) = merge_id_map-Extends from_map ((i, o) ∷ to_map) m run' in
      let kept' : Extends to_map m = λ j p e. kept j p (cons-Extends i o to_map free j p e) in
      let first : lookup i m ≡ some o = kept i o (lookup-cons_self i o to_map) in
      (kept', λ j p e. both i o from_map m first taken j p e)
  | inr (p, found) ↦ elim (Bool-cases (p == o)) [
    | inl same ↦
        let run' : merge_id_map from_map to_map ≡ ok m = rw (merge_id_map, found, same) at run in
        let (kept, taken) = merge_id_map-Extends from_map to_map m run' in
        let first : lookup i m ≡ some o = kept i o (found ∙ ap some ((==_iff _ _).0 same)) in
        (kept, λ j q e. both i o from_map m first taken j q e)
    | inr other ↦ let stop = rw (merge_id_map, found, other) at run in cc
  ]
]
