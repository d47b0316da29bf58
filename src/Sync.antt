-- ===== src/Sync.antt =====
-- Synchronisation of one storage from chunks of another: src/storage/schema/entities, with
-- MergeEntity.ts, EntitySyncState.ts, and the merging of transactions (EntityTransaction.ts), outputs
-- (EntityOutput.ts), labels of transactions (EntityTxLabelMap.ts) and users (EntityUser.ts). The
-- storage and the entities that it finds are parameters. Dates are milliseconds.
use Prim.Native.String.{String}
pub use wallet_toolbox_rocksdb.Base.Results.{ok, err, ◌>>=◌}
use wallet_toolbox_rocksdb.Base.Results.{Fallible}
use wallet_toolbox_rocksdb.Base.{
  ℕ, zero, suc, ◌+◌, Bool, true, false, not, ◌&&◌, ◌||◌, Option, none, some, List, [], ◌∷◌, ltb,
  ◌==◌, if◌then◌else◌, length, max, map, ◌≡◌,
}
pub mod Rows
pub mod Maps
pub mod Growing
pub mod Chunks
pub mod Tests

-- `maxDate`.
pub max_date : Option ℕ → Option ℕ → Option ℕ
max_date (some d1) (some d2) = if ltb d2 d1 then some d1 else some d2
max_date (some d1) none = some d1
max_date none d2 = d2

-- What is thrown: an id that is not above zero, a mapping that cannot be changed, and what the storage
-- throws.
pub data SyncError : Type 0 where
  invalid_id : SyncError
  mapped_otherwise : ℕ → SyncError
  storage_error : SyncError

abbrev pub Result {ℓ} : Type ℓ → Type ℓ
Result A = Fallible SyncError A

-- A record from ids to ids.
abbrev pub IdMap : Type 0
IdMap = List (ℕ × ℕ)

pub lookup : ℕ → IdMap → Option ℕ
lookup i [] = none
lookup i ((j, o) ∷ m) = if j == i then some o else lookup i m

pub verify_id : ℕ → Result ℕ
verify_id id = if id == 0 then err invalid_id else ok id

pub update_sync_map : IdMap → (in_id out_id : ℕ) → Result IdMap
unfolding verify_id lookup
update_sync_map m in_id out_id = do
  i ← verify_id in_id
  o ← verify_id out_id
  elim (lookup i m) [
    | none ↦ ok ((i, o) ∷ m)
    | some p ↦ if p == o then ok m else err (mapped_otherwise i)
  ]

-- `EntitySyncState.mergeIdMap`, over the entries of `from_map`.
pub merge_id_map : (from_map to_map : IdMap) → Result IdMap
unfolding lookup
merge_id_map [] to_map = ok to_map
merge_id_map ((i, o) ∷ from_map) to_map = elim (lookup i to_map) [
  | none ↦ merge_id_map from_map ((i, o) ∷ to_map)
  | some p ↦ elim (p == o) [
    | true ↦ merge_id_map from_map to_map
    | false ↦ err (mapped_otherwise i)
  ]
]

pub record EntitySyncMap : Type 0 where
  pub id_map : IdMap
  pub max_updated_at : Option ℕ
  pub count : ℕ

abbrev pub fresh_map : EntitySyncMap
fresh_map = record { id_map = []; max_updated_at = none; count = 0 }

-- `createSyncMap`: the maps of the kinds of entities, by their place in the order in which they are
-- merged.
abbrev pub SyncMap : Type 0
SyncMap = List EntitySyncMap

pub create_sync_map : SyncMap
create_sync_map =
    let m = fresh_map in m ∷ (m ∷ (m ∷ (m ∷ (m ∷ (m ∷ (m ∷ (m ∷ (m ∷ (m ∷ (m ∷ (m ∷ [])))))))))))

pub get_map : ℕ → SyncMap → EntitySyncMap
get_map k [] = fresh_map
get_map zero (m ∷ ms) = m
get_map (suc k) (m ∷ ms) = get_map k ms

pub alter_map : ℕ → (EntitySyncMap → EntitySyncMap) → SyncMap → SyncMap
alter_map k f [] = []
alter_map zero f (m ∷ ms) = f m ∷ ms
alter_map (suc k) f (m ∷ ms) = m ∷ alter_map k f ms

-- The answer of `find`: the local entity, or a copy of the external one, and the id of that, which
-- is none for a kind without ids (-1).
pub record Found (Entity : Type 0) : Type 0 where
  pub found : Bool
  pub eo : Entity
  pub ei_id : Option ℕ

-- The entity kinds over a storage of type `S`: `find`, `mergeExisting` with its answer, `mergeNew`.
pub record Kinds (S Api Entity : Type 0) : Type 0 where
  pub updated_at : Api → ℕ
  pub id_of : Entity → ℕ
  pub find : (kind : ℕ) → S → Api → SyncMap → Result (Found Entity)
  pub merge_existing : S → Entity → Api → SyncMap → Result (S × Entity × Bool)
  pub merge_new : S → Entity → SyncMap → Result (S × Entity)

-- The storage, the maps and the counts of `merge`.
pub record Progress (S : Type 0) : Type 0 where
  pub store : S
  pub maps : SyncMap
  pub inserts : ℕ
  pub updates : ℕ

-- The loop over the kinds in `processSyncChunk`, with its running date and whether it is done.
pub record Round (S : Type 0) : Type 0 where
  pub progress : Progress S
  pub latest : Option ℕ
  pub done : Bool

-- `when` and `syncMap` of the state.
pub record SyncState : Type 0 where
  pub when : Option ℕ
  pub sync_map : SyncMap

module _ {S Api Entity : Type 0} (K : Kinds S Api Entity) where
  abbrev pub see_date : ℕ → Api → SyncMap → SyncMap
  unfolding alter_map max_date
  see_date kind ei maps =
      alter_map kind
        (λ m. record m { max_updated_at = max_date m.max_updated_at (some (K.updated_at ei)) }) maps

  -- `if (eiId > -1) this.updateSyncMap(...)`.
  pub note_id : (kind : ℕ) → Option ℕ → (out_id : ℕ) → SyncMap → Result SyncMap
  unfolding update_sync_map alter_map get_map
  note_id kind none out_id maps = ok maps
  note_id kind (some in_id) out_id maps = do
    m ← update_sync_map ((get_map kind maps).id_map) in_id out_id
    ok (alter_map kind (λ e. record e { id_map = m }) maps)

  -- The entity is known, or it is new; `maps` has the date of the external entity.
  pub merge_known : (kind : ℕ) → Found Entity → Api → SyncMap → Progress S → Result (Progress S)
  unfolding note_id
  merge_known kind f ei maps p = do
    (store, eo, changed) ← K.merge_existing p.store f.eo ei maps
    maps' ← note_id kind f.ei_id (K.id_of eo) maps
    ok (record p {
      store = store;
      maps = maps';
      updates = if changed then p.updates + 1 else p.updates;
    })

  pub merge_unknown : (kind : ℕ) → Found Entity → SyncMap → Progress S → Result (Progress S)
  unfolding note_id
  merge_unknown kind f maps p = do
    (store, eo) ← K.merge_new p.store f.eo maps
    maps' ← note_id kind f.ei_id (K.id_of eo) maps
    ok (record p { store = store; maps = maps'; inserts = p.inserts + 1 })

  -- One round of the loop of `MergeEntity.merge`.
  pub merge_item : (kind : ℕ) → Api → Progress S → Result (Progress S)
  unfolding merge_known merge_unknown
  merge_item kind ei p = do
    let maps = see_date kind ei p.maps
    f ← K.find kind p.store ei maps
    if f.found then merge_known kind f ei maps p else merge_unknown kind f maps p

  pub merge_items : (kind : ℕ) → List Api → Progress S → Result (Progress S)
  unfolding merge_item
  merge_items kind [] p = ok p
  merge_items kind (ei ∷ eis) p = merge_item kind ei p >>= merge_items kind eis

  -- `merge`, where no array is nothing to do.
  pub merge : (kind : ℕ) → Option (List Api) → Progress S → Result (Progress S)
  unfolding merge_items
  merge kind none p = ok p
  merge kind (some eis) p = merge_items kind eis p

  abbrev pub is_last : Option (List Api) → Bool
  is_last none = false
  is_last (some []) = true
  is_last (some (ei ∷ eis)) = false

  abbrev pub size_of : Option (List Api) → ℕ
  size_of none = 0
  size_of (some eis) = length eis

  pub merge_kind : (kind : ℕ) → Option (List Api) → Round S → Result (Round S)
  unfolding merge alter_map get_map max_date
  merge_kind kind items r = merge kind items r.progress >>= λ p.
      let maps = alter_map kind (λ m. record m { count = m.count + size_of items }) p.maps in
      ok (record {
        progress = record p { maps = maps };
        latest = max_date r.latest (get_map kind maps).max_updated_at;
        done = r.done && is_last items;
      })

  pub merge_kinds : (kind : ℕ) → List (Option (List Api)) → Round S → Result (Round S)
  unfolding merge_kind
  merge_kinds kind [] r = ok r
  merge_kinds kind (items ∷ rest) r = merge_kind kind items r >>= merge_kinds (suc kind) rest

  abbrev pub reset_counts : SyncMap → SyncMap
  reset_counts [] = []
  reset_counts (m ∷ ms) = record m { count = 0 } ∷ reset_counts ms

  abbrev pub first_round : SyncState → S → (user : Option ℕ) → Round S
  first_round s store user = record {
    progress = record {
      store = store;
      maps = s.sync_map;
      inserts = 0;
      updates = elim user as (λ _. ℕ) [ none ↦ 0 | some d ↦ 1 ];
    };
    latest = user;
    done = true;
  }

  abbrev pub finish_chunk : SyncState → Round S → SyncState
  finish_chunk s r =
      if r.done
      then record { when = r.latest; sync_map = reset_counts r.progress.maps }
      else record s { sync_map = r.progress.maps }

  -- `user` is the outcome of merging the user record of the chunk, its date if it was merged. The
  -- state is saved at the end.
  pub process_sync_chunk :
      SyncState → S → (user : Option ℕ) → List (Option (List Api)) → Result (SyncState × Round S)
  unfolding merge_kinds
  process_sync_chunk s store user arrays = do
    r ← merge_kinds 0 arrays (first_round s store user)
    ok (finish_chunk s r, r)

-- The offsets of the next request: the counts, in the order of the kinds.
pub next_offsets : SyncState → List ℕ
next_offsets s = map (λ m. m.count) s.sync_map
