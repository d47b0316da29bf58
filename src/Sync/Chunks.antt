-- ===== src/Sync/Chunks.antt =====
-- Merging the entities of a chunk (MergeEntity.ts) and the state that is left for the next request
-- (`processSyncChunk` of EntitySyncState.ts).
use wallet_toolbox_rocksdb.Base.Results.{Fallible-cases, both_ran}
use wallet_toolbox_rocksdb.Base.{
  ℕ, zero, suc, ◌+◌, Bool, true, false, ◌&&◌, Option, none, some, List, [], ◌∷◌, map, ◌≡◌, refl,
  sym, ap, ◌∙◌, ◌⊎◌, inl, inr, arith, Bool-cases, subst,
}
use wallet_toolbox_rocksdb.Sync.{
  lookup, ok, SyncMap, get_map, alter_map, Kinds, Progress, merge, Round, is_last, size_of,
  merge_kind, merge_kinds, SyncState, reset_counts, first_round, finish_chunk, process_sync_chunk,
  next_offsets,
}
use wallet_toolbox_rocksdb.Sync.Maps.{Extends}
use wallet_toolbox_rocksdb.Sync.Growing.{counts, Grows, Grows-refl, merge_items-Grows}

and_true : (a b : Bool) → (a && b) ≡ (a && (b && true))
and_true true true = refl
and_true true false = refl
and_true false b = refl

true_and : (a : Bool) → a ≡ (a && true)
true_and true = refl
true_and false = refl

module _ {S Api Entity : Type 0} (K : Kinds S Api Entity) where
  -- The counts with the sizes of the arrays added, kind by kind.
  abbrev pub add_sizes : List (Option (List Api)) → List ℕ → List ℕ
  add_sizes [] cs = cs
  add_sizes (items ∷ rest) [] = []
  add_sizes (items ∷ rest) (c ∷ cs) = (c + size_of K items) ∷ add_sizes rest cs

  abbrev pub all_last : List (Option (List Api)) → Bool
  all_last [] = true
  all_last (items ∷ rest) = is_last K items && all_last rest

  abbrev bump : (kind n : ℕ) → List ℕ → List ℕ
  bump kind n [] = []
  bump zero n (c ∷ cs) = (c + n) ∷ cs
  bump (suc kind) n (c ∷ cs) = c ∷ bump kind n cs

  abbrev bump_all : (kind : ℕ) → List (Option (List Api)) → List ℕ → List ℕ
  bump_all kind [] cs = cs
  bump_all kind (items ∷ rest) cs = bump_all (suc kind) rest (bump kind (size_of K items) cs)

  bump_all-suc :
      (kind : ℕ) (arrays : List (Option (List Api))) (c : ℕ) (cs : List ℕ)
      → bump_all (suc kind) arrays (c ∷ cs) ≡ c ∷ bump_all kind arrays cs
  bump_all-suc kind [] c cs = refl
  bump_all-suc kind (items ∷ rest) c cs =
      bump_all-suc (suc kind) rest c (bump kind (size_of K items) cs)

  bump_all-nil : (kind : ℕ) (arrays : List (Option (List Api))) → bump_all kind arrays [] ≡ []
  bump_all-nil kind [] = refl
  bump_all-nil kind (items ∷ rest) = bump_all-nil (suc kind) rest

  bump_all-add_sizes :
      (arrays : List (Option (List Api))) (cs : List ℕ) → bump_all 0 arrays cs ≡ add_sizes arrays cs
  bump_all-add_sizes [] cs = refl
  bump_all-add_sizes (items ∷ rest) [] = bump_all-nil 1 rest
  bump_all-add_sizes (items ∷ rest) (c ∷ cs) =
      bump_all-suc 0 rest (c + size_of K items) cs
      ∙ ap (λ ds. (c + size_of K items) ∷ ds) (bump_all-add_sizes rest cs)

  counts-alter_map :
      (kind n : ℕ) (ms : SyncMap)
      → counts (alter_map kind (λ m. record m { count = m.count + n }) ms) ≡ bump kind n (counts ms)
  unfolding alter_map
  counts-alter_map kind n [] = refl
  counts-alter_map zero n (m ∷ ms) = refl
  counts-alter_map (suc kind) n (m ∷ ms) = ap (λ cs. m.count ∷ cs) (counts-alter_map kind n ms)

  ids-alter_map :
      (kind n : ℕ) (ms : SyncMap) (k : ℕ)
      → Extends
          (get_map k ms).id_map
          (get_map k (alter_map kind (λ m. record m { count = m.count + n }) ms)).id_map
  unfolding alter_map get_map
  ids-alter_map kind n [] k i o e = e
  ids-alter_map zero n (m ∷ ms) zero i o e = e
  ids-alter_map zero n (m ∷ ms) (suc k) i o e = e
  ids-alter_map (suc kind) n (m ∷ ms) zero i o e = e
  ids-alter_map (suc kind) n (m ∷ ms) (suc k) i o e = ids-alter_map kind n ms k i o e

  merge-Grows :
      (kind : ℕ) (items : Option (List Api)) (p q : Progress S)
      → merge K kind items p ≡ ok q
      → Grows p.maps q.maps
  unfolding merge
  merge-Grows kind none p q run =
      let eq : p ≡ q = cc in subst (λ z. Grows p.maps z.maps) eq (Grows-refl p.maps)
  merge-Grows kind (some eis) p q run = merge_items-Grows K kind eis p q run

  -- What the loop over the kinds does to the maps and to `done`.
  abbrev Advanced : (kind : ℕ) → List (Option (List Api)) → Round S → Round S → Type 0
  Advanced kind arrays r r' =
      ((k : ℕ) → Extends (get_map k r.progress.maps).id_map (get_map k r'.progress.maps).id_map)
      × (counts r'.progress.maps ≡ bump_all kind arrays (counts r.progress.maps))
      × (r'.done ≡ (r.done && all_last arrays))

  merge_kind-Advanced :
      (kind : ℕ) (items : Option (List Api)) (r r' : Round S)
      → merge_kind K kind items r ≡ ok r'
      → Advanced kind (items ∷ []) r r'
  unfolding merge_kind
  merge_kind-Advanced kind items r r' run = elim (Fallible-cases (merge K kind items r.progress)) [
    | inr (e, failed) ↦ let stop = rw failed at run in cc
    | inl (p, merged) ↦
        let done = rw merged at run in
        let maps = alter_map kind (λ m. record m { count = m.count + size_of K items }) p.maps in
        let grown = merge-Grows kind items r.progress p merged in
        let at_maps : maps ≡ r'.progress.maps = ground arith in
        let at_done : r'.done ≡ (r.done && is_last K items) = ground arith in
        (
          λ k i o e.
              subst (λ z. lookup i (get_map k z).id_map ≡ some o) at_maps
                (ids-alter_map kind (size_of K items) p.maps k i o (grown.0 k i o e)),
          ap counts (sym at_maps)
              ∙ counts-alter_map kind (size_of K items) p.maps
              ∙ ap (bump kind (size_of K items)) grown.1,
          at_done ∙ and_true r.done (is_last K items),
        )
  ]

  merge_kinds-Advanced :
      (kind : ℕ) (arrays : List (Option (List Api))) (r r' : Round S)
      → merge_kinds K kind arrays r ≡ ok r'
      → Advanced kind arrays r r'
  unfolding merge_kinds
  merge_kinds-Advanced kind [] r r' run =
      let eq : r ≡ r' = cc in
      (
        λ k i o e. subst (λ z. lookup i (get_map k z.progress.maps).id_map ≡ some o) eq e,
        ap (λ z. counts z.progress.maps) (sym eq),
        ap (λ z. z.done) (sym eq) ∙ true_and r.done,
      )
  merge_kinds-Advanced kind (items ∷ rest) r r' run =
      let (mid, one, more) =
        both_ran (merge_kind K kind items r) (merge_kinds K (suc kind) rest) run in
      let (ids, sizes, done) = merge_kind-Advanced kind items r mid one in
      let (ids', sizes', done') = merge_kinds-Advanced (suc kind) rest mid r' more in
      (
        λ k i o e. ids' k i o (ids k i o e),
        sizes' ∙ ap (bump_all (suc kind) rest) sizes,
        done' ∙ ground arith,
      )

  reset_zero :
      (ms : SyncMap) → counts (reset_counts K ms) ≡ map (λ c. 0) (counts (reset_counts K ms))
  reset_zero [] = refl
  reset_zero (m ∷ ms) = ap (λ cs. 0 ∷ cs) (reset_zero ms)

  reset_ids :
      (ms : SyncMap) (k : ℕ) → Extends (get_map k ms).id_map (get_map k (reset_counts K ms)).id_map
  unfolding get_map
  reset_ids [] k i o e = e
  reset_ids (m ∷ ms) zero i o e = e
  reset_ids (m ∷ ms) (suc k) i o e = reset_ids ms k i o e

  -- A chunk that is processed leaves every id mapped as it was. Where each array of it was sent and
  -- empty, the state is done: the next request asks for what is newer than the latest date of the
  -- round, with offsets of zero. Otherwise the date stays, and the offsets grow by what was received
  -- of each kind.
  pub process_sync_chunk_lem :
      (s s' : SyncState) (store : S) (user : Option ℕ) (arrays : List (Option (List Api)))
      (r : Round S)
      → process_sync_chunk K s store user arrays ≡ ok (s', r)
      → ((k : ℕ) → Extends (get_map k s.sync_map).id_map (get_map k s'.sync_map).id_map)
        × (((all_last arrays ≡ true)
              × (s'.when ≡ r.latest)
              × (next_offsets s' ≡ map (λ c. 0) (next_offsets s')))
            ⊎ ((all_last arrays ≡ false)
                × (s'.when ≡ s.when)
                × (next_offsets s' ≡ add_sizes arrays (next_offsets s))))
  unfolding process_sync_chunk next_offsets
  process_sync_chunk_lem s s' store user arrays r run =
      let start = first_round K s store user in
      let (r₀, merged, last) =
        both_ran (merge_kinds K 0 arrays start) (λ z. ok (finish_chunk K s z, z)) run in
      let same_round : r₀ ≡ r = cc in
      let state : finish_chunk K s r ≡ s' = cc in
      let (ids, sizes, done) = merge_kinds-Advanced 0 arrays start r (merged ∙ ap ok same_round) in
      elim (Bool-cases (all_last arrays)) [
        | inl all ↦
            let is_done : r.done ≡ true = done ∙ all in
            let eq : s' ≡ record { when = r.latest; sync_map = reset_counts K r.progress.maps } =
              sym state ∙ rw is_done refl in
            (
              λ k i o e.
                  subst (λ z. lookup i (get_map k z.sync_map).id_map ≡ some o) (sym eq)
                    (reset_ids r.progress.maps k i o (ids k i o e)),
              inl (
                all,
                ap (λ z. z.when) eq,
                subst (λ z. counts z.sync_map ≡ map (λ c. 0) (counts z.sync_map)) (sym eq)
                    (reset_zero r.progress.maps),
              ),
            )
        | inr some_left ↦
            let is_done : r.done ≡ false = done ∙ some_left in
            let eq : s' ≡ record s { sync_map = r.progress.maps } = sym state ∙ rw is_done refl in
            (
              λ k i o e.
                  subst (λ z. lookup i (get_map k z.sync_map).id_map ≡ some o) (sym eq)
                    (ids k i o e),
              inr (
                some_left,
                ap (λ z. z.when) eq,
                ap (λ z. counts z.sync_map) eq
                    ∙ sizes
                    ∙ bump_all-add_sizes arrays (counts s.sync_map),
              ),
            )
      ]
