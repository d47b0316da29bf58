-- ===== src/Sync/Growing.antt =====
-- Merging entities (MergeEntity.ts) keeps the ids that are mapped.
use wallet_toolbox_rocksdb.Base.Results.{Fallible-cases, both_ran}
use wallet_toolbox_rocksdb.Base.{
  ℕ, zero, suc, Option, none, some, List, [], ◌∷◌, map, ◌≡◌, refl, ap, ◌∙◌, inl, inr, arith,
  Bool-cases, subst,
}
use wallet_toolbox_rocksdb.Sync.{
  ok, EntitySyncMap, SyncMap, get_map, alter_map, Found, Kinds, Progress, see_date, note_id,
  merge_known, merge_unknown, merge_item, merge_items, update_sync_map, max_date,
}
use wallet_toolbox_rocksdb.Sync.Maps.{Extends, update_sync_map-Extends}

abbrev pub counts : SyncMap → List ℕ
counts maps = map (λ m. m.count) maps

-- What merging entities may do to the maps: ids stay mapped, and the counts are left alone.
abbrev pub Grows : SyncMap → SyncMap → Type 0
Grows ms ns =
    ((k : ℕ) → Extends (get_map k ms).id_map (get_map k ns).id_map) × (counts ns ≡ counts ms)

pub Grows-refl : (ms : SyncMap) → Grows ms ms
Grows-refl ms = (λ k i o e. e, refl)

Grows-trans : (ls ms ns : SyncMap) → Grows ls ms → Grows ms ns → Grows ls ns
Grows-trans ls ms ns g h = (λ k i o e. h.0 k i o (g.0 k i o e), h.1 ∙ g.1)

alter_map-Grows :
    (k : ℕ) (f : EntitySyncMap → EntitySyncMap) (ms : SyncMap)
    → Extends (get_map k ms).id_map (f (get_map k ms)).id_map
    → ((m : EntitySyncMap) → (f m).count ≡ m.count)
    → Grows ms (alter_map k f ms)
unfolding alter_map get_map
alter_map-Grows k f [] more same = (λ j i o e. e, refl)
alter_map-Grows zero f (m ∷ ms) more same = (λ j. zero_case j, ap (λ c. c ∷ counts ms) (same m))
  where
    zero_case : (j : ℕ) → Extends (get_map j (m ∷ ms)).id_map (get_map j (f m ∷ ms)).id_map
    zero_case zero i o e = more i o e
    zero_case (suc j) i o e = e
alter_map-Grows (suc k) f (m ∷ ms) more same =
    let (rest, kept) = alter_map-Grows k f ms more same in
    (λ j. suc_case rest j, ap (λ cs. m.count ∷ cs) kept)
  where
    suc_case :
        ((j : ℕ) → Extends (get_map j ms).id_map (get_map j (alter_map k f ms)).id_map)
        → (j : ℕ) → Extends (get_map j (m ∷ ms)).id_map (get_map j (m ∷ alter_map k f ms)).id_map
    suc_case rest zero i o e = e
    suc_case rest (suc j) i o e = rest j i o e

module _ {S Api Entity : Type 0} (K : Kinds S Api Entity) where
  see_date-Grows : (kind : ℕ) (ei : Api) (maps : SyncMap) → Grows maps (see_date K kind ei maps)
  unfolding see_date
  see_date-Grows kind ei maps =
      alter_map-Grows kind
        (λ m. record m { max_updated_at = max_date m.max_updated_at (some (K.updated_at ei)) }) maps
        (λ i o e. e) (λ m. refl)

  note_id-Grows :
      (kind : ℕ) (ei_id : Option ℕ) (out_id : ℕ) (maps maps' : SyncMap)
      → note_id K kind ei_id out_id maps ≡ ok maps'
      → Grows maps maps'
  unfolding note_id
  note_id-Grows kind none out_id maps maps' run =
      let eq : maps ≡ maps' = cc in subst (Grows maps) eq (Grows-refl maps)
  note_id-Grows kind (some in_id) out_id maps maps' run =
      let (m, updated, done) =
        both_ran (update_sync_map (get_map kind maps).id_map in_id out_id)
          (λ m. ok (alter_map kind (λ e. record e { id_map = m }) maps)) run in
      let (more, _) = update_sync_map-Extends (get_map kind maps).id_map m in_id out_id updated in
      let eq : alter_map kind (λ e. record e { id_map = m }) maps ≡ maps' = cc in
      subst (Grows maps) eq
        (alter_map-Grows kind (λ e. record e { id_map = m }) maps more (λ e. refl))

  -- What `noteId` leaves, in either case, is in the result.
  merge_known-Grows :
      (kind : ℕ) (f : Found Entity) (ei : Api) (maps : SyncMap) (p q : Progress S)
      → merge_known K kind f ei maps p ≡ ok q
      → Grows maps q.maps
  unfolding merge_known
  merge_known-Grows kind f ei maps p q run =
      elim (Fallible-cases (K.merge_existing p.store f.eo ei maps)) [
        | inr (e, failed) ↦ let stop = rw failed at run in cc
        | inl ((store, eo, changed), merged) ↦
            elim (Fallible-cases (note_id K kind f.ei_id (K.id_of eo) maps)) [
              | inr (e, failed) ↦ let stop = rw (merged, failed) at run in cc
              | inl (maps', noted) ↦
                  let done = rw (merged, noted) at run in
                  let eq : maps' ≡ q.maps = ground arith in
                  subst (Grows maps) eq (note_id-Grows kind f.ei_id (K.id_of eo) maps maps' noted)
            ]
      ]

  merge_unknown-Grows :
      (kind : ℕ) (f : Found Entity) (maps : SyncMap) (p q : Progress S)
      → merge_unknown K kind f maps p ≡ ok q
      → Grows maps q.maps
  unfolding merge_unknown
  merge_unknown-Grows kind f maps p q run = elim (Fallible-cases (K.merge_new p.store f.eo maps)) [
    | inr (e, failed) ↦ let stop = rw failed at run in cc
    | inl ((store, eo), merged) ↦ elim (Fallible-cases (note_id K kind f.ei_id (K.id_of eo) maps)) [
      | inr (e, failed) ↦ let stop = rw (merged, failed) at run in cc
      | inl (maps', noted) ↦
          let done = rw (merged, noted) at run in
          let eq : maps' ≡ q.maps = ground arith in
          subst (Grows maps) eq (note_id-Grows kind f.ei_id (K.id_of eo) maps maps' noted)
    ]
  ]

  merge_item-Grows :
      (kind : ℕ) (ei : Api) (p q : Progress S) → merge_item K kind ei p ≡ ok q → Grows p.maps q.maps
  unfolding merge_item
  merge_item-Grows kind ei p q run =
      let maps = see_date K kind ei p.maps in
      let first = see_date-Grows kind ei p.maps in
      elim (Fallible-cases (K.find kind p.store ei maps)) [
        | inr (e, failed) ↦ let stop = rw failed at run in cc
        | inl (f, found) ↦ elim (Bool-cases f.found) [
          | inl known ↦
              let rest : merge_known K kind f ei maps p ≡ ok q = rw (found, known) at run in
              Grows-trans p.maps maps q.maps first (merge_known-Grows kind f ei maps p q rest)
          | inr unknown ↦
              let rest : merge_unknown K kind f maps p ≡ ok q = rw (found, unknown) at run in
              Grows-trans p.maps maps q.maps first (merge_unknown-Grows kind f maps p q rest)
        ]
      ]

  pub merge_items-Grows :
      (kind : ℕ) (eis : List Api) (p q : Progress S)
      → merge_items K kind eis p ≡ ok q
      → Grows p.maps q.maps
  unfolding merge_items
  merge_items-Grows kind [] p q run =
      let eq : p ≡ q = cc in subst (λ z. Grows p.maps z.maps) eq (Grows-refl p.maps)
  merge_items-Grows kind (ei ∷ eis) p q run =
      let (r, one, rest) = both_ran (merge_item K kind ei p) (merge_items K kind eis) run in
      Grows-trans p.maps r.maps q.maps (merge_item-Grows kind ei p r one)
        (merge_items-Grows kind eis r q rest)
