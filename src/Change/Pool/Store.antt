-- ===== src/Change/Pool/Store.antt =====
-- `generateChangeSdkMakeStorage` of generateChange.ts is an allocator, where ids are distinct: each
-- allocation takes a spendable entry, and releasing it restores the list.
use mathlib.Core.HLevel.{Σ_prop_path, ×_prop}
use wallet_toolbox_rocksdb.Base.{ℕ, ◌<◌, ◌≡◌, refl, ap, Option, none, some, List, [], ◌∷◌, arith}
use wallet_toolbox_rocksdb.Base.Int.{ℤ}
use wallet_toolbox_rocksdb.Change.Data.{ChangeInput, Allocator}
use wallet_toolbox_rocksdb.Change.Pool.Takes.{
  spendable_count, IsNew, HasDistinctIds, Takes, allocate_change_input-Takes, Takes-spendable_count,
  Takes-HasDistinctIds, Takes-release, release-HasDistinctIds,
}
use wallet_toolbox_rocksdb.Change.Pool.{StoredChange, allocate_change_input, release_change_input}

IsNew-prop : (id : ℕ) (cs : List StoredChange) → IsProp (IsNew id cs)
IsNew-prop id [] = hlevel
IsNew-prop id (c ∷ cs) = ×_prop (hlevel) (IsNew-prop id cs)

HasDistinctIds-prop : (cs : List StoredChange) → IsProp (HasDistinctIds cs)
HasDistinctIds-prop [] = hlevel
HasDistinctIds-prop (c ∷ cs) = ×_prop (IsNew-prop c.input.output_id cs) (HasDistinctIds-prop cs)

-- A list of stored change with distinct ids.
abbrev pub Store : Type 0
Store = (cs : List StoredChange) × HasDistinctIds cs

unfoldable pub entries : Store → List StoredChange
entries (cs, h) = cs

module _ (target : ℤ) (exact : Option ℤ) where
  unfoldable pub checked_allocate :
      (cs : List StoredChange) (o : Option (ChangeInput × List StoredChange))
      → HasDistinctIds cs
      → allocate_change_input target exact cs ≡ o
      → Option (ChangeInput × Store)
  checked_allocate cs none h e = none
  checked_allocate cs (some (i, ds)) h e =
      some (i, (ds, Takes-HasDistinctIds (allocate_change_input-Takes target exact cs i ds e) h))

  unfoldable pub pool_allocate : Store → Option (ChangeInput × Store)
  unfolding checked_allocate
  pool_allocate (cs, h) = checked_allocate cs (allocate_change_input target exact cs) h refl

  checked_allocate-Takes :
      (cs : List StoredChange) (o : Option (ChangeInput × List StoredChange))
      (h : HasDistinctIds cs) (e : allocate_change_input target exact cs ≡ o) (i : ChangeInput)
      (s : Store)
      → checked_allocate cs o h e ≡ some (i, s)
      → Takes i cs (entries s)
  unfolding checked_allocate entries
  checked_allocate-Takes cs none h e i s p = cc
  checked_allocate-Takes cs (some (j, ds)) h e i s p =
      allocate_change_input-Takes target exact cs i (entries s) (ground arith)

  pool_allocate-Takes :
      (s : Store) (i : ChangeInput) (s' : Store)
      → pool_allocate s ≡ some (i, s')
      → Takes i (entries s) (entries s')
  unfolding pool_allocate entries
  pool_allocate-Takes (cs, h) i s' p =
      checked_allocate-Takes cs (allocate_change_input target exact cs) h refl i s' p

unfoldable pub checked_release :
    (id : ℕ) (cs : List StoredChange) (o : Option (List StoredChange))
    → HasDistinctIds cs
    → release_change_input id cs ≡ o
    → Option Store
checked_release id cs none h e = none
checked_release id cs (some ds) h e = some (ds, release-HasDistinctIds id cs ds e h)

unfoldable pub pool_release : ℕ → Store → Option Store
unfolding checked_release
pool_release id (cs, h) = checked_release id cs (release_change_input id cs) h refl

checked_release_lem :
    (id : ℕ) (cs : List StoredChange) (o : Option (List StoredChange)) (h : HasDistinctIds cs)
    (e : release_change_input id cs ≡ o) (s : Store)
    → o ≡ some (entries s)
    → checked_release id cs o h e ≡ some s
unfolding checked_release entries
checked_release_lem id cs none h e s p = cc
checked_release_lem id cs (some ds) h e s p =
    ap some (Σ_prop_path HasDistinctIds-prop (ground arith))

pool_release_lem :
    (id : ℕ) (s s' : Store)
    → release_change_input id (entries s) ≡ some (entries s')
    → pool_release id s ≡ some s'
unfolding pool_release entries
pool_release_lem id (cs, h) s' p =
    checked_release_lem id cs (release_change_input id cs) h refl s' p

ids_of : (s : Store) → HasDistinctIds (entries s)
unfolding entries
ids_of (cs, h) = h

pub pool_takes_one :
    (target : ℤ) (exact : Option ℤ) (s : Store) (i : ChangeInput) (s' : Store)
    → pool_allocate target exact s ≡ some (i, s')
    → spendable_count (entries s') < spendable_count (entries s)
pool_takes_one t e s i s' p = Takes-spendable_count (pool_allocate-Takes t e s i s' p)

-- In a storage whose inputs have distinct ids: where `allocateChangeInput` answers an input, with or
-- without an exact amount, releasing that input gives back the storage from before the call.
pub pool_release-allocate :
    (target : ℤ) (exact : Option ℤ) (s : Store) (i : ChangeInput) (s' : Store)
    → pool_allocate target exact s ≡ some (i, s')
    → pool_release i.output_id s' ≡ some s
pool_release-allocate t e s i s' p =
    pool_release_lem i.output_id s' s (Takes-release (pool_allocate-Takes t e s i s' p) (ids_of s))

abbrev pub pool_allocator : Allocator Store
pool_allocator = record {
  allocate = pool_allocate;
  release = pool_release;
  available = λ s. spendable_count (entries s);
  allocate-available = pool_takes_one;
  release-allocate = pool_release-allocate;
}
