-- ===== src/Change/Pool.antt =====
-- `generateChangeSdkMakeStorage` of src/storage/methods/generateChange.ts: the available change as
-- a sorted list with a mark on what is spendable. Its log is left out.
pub mod Takes
pub mod Store
use wallet_toolbox_rocksdb.Base.{
  ℕ, Bool, true, false, not, ◌&&◌, Option, none, some, List, [], ◌∷◌, ltb, leb, ◌==◌, if◌then◌else◌,
}
use wallet_toolbox_rocksdb.Base.Int.{ℤ, pos, leb_ℤ, eqb_ℤ}
use wallet_toolbox_rocksdb.Change.Data.{ChangeInput}

pub record StoredChange : Type 0 where
  pub input : ChangeInput
  pub open input use *
  pub spendable : Bool

-- The order of the `sort`: by satoshis, then by id.
pub precedes : ChangeInput → ChangeInput → Bool
precedes a b =
    if ltb a.satoshis b.satoshis
    then true
    else if ltb b.satoshis a.satoshis
    then false
    else leb a.output_id b.output_id

pub insert_change : ChangeInput → List StoredChange → List StoredChange
insert_change a [] = record { input = a; spendable = true } ∷ []
insert_change a (c ∷ cs) =
    if precedes a c.input
    then record { input = a; spendable = true } ∷ c ∷ cs
    else c ∷ insert_change a cs

-- The list that `availableChange` gives, sorted.
pub make_storage : List ChangeInput → List StoredChange
unfolding insert_change precedes
make_storage [] = []
make_storage (a ∷ as') = insert_change a (make_storage as')

-- `change.find(test)` followed by `allocate`: what was found, and the list with it marked.
pub allocate_first :
    (StoredChange → Bool) → List StoredChange → Option (ChangeInput × List StoredChange)
allocate_first test [] = none
allocate_first test (c ∷ cs) =
    if test c
    then some (c.input, record c { spendable = false } ∷ cs)
    else elim (allocate_first test cs) [ none ↦ none | some (i, cs') ↦ some (i, c ∷ cs') ]

-- The downward loop for the last spendable entry.
pub allocate_last : List StoredChange → Option (ChangeInput × List StoredChange)
allocate_last [] = none
allocate_last (c ∷ cs) = elim (allocate_last cs) [
  | some (i, cs') ↦ some (i, c ∷ cs')
  | none ↦ if c.spendable then some (c.input, record c { spendable = false } ∷ cs) else none
]

abbrev pub or_else {ℓ} : {A : Type ℓ} → Option A → Option A → Option A
or_else (some a) o = some a
or_else none o = o

pub allocate_exact : Option ℤ → List StoredChange → Option (ChangeInput × List StoredChange)
allocate_exact none cs = none
allocate_exact (some e) cs = allocate_first (λ c. c.spendable && eqb_ℤ (pos c.input.satoshis) e) cs

pub allocate_change_input :
    (target : ℤ) (exact : Option ℤ) → List StoredChange → Option (ChangeInput × List StoredChange)
allocate_change_input target exact cs = or_else (allocate_exact exact cs) (
    or_else (allocate_first (λ c. c.spendable && leb_ℤ target (pos c.input.satoshis)) cs)
      (allocate_last cs))

-- `none` is one of the two WERR_INTERNAL of `releaseChangeInput`.
pub release_change_input : ℕ → List StoredChange → Option (List StoredChange)
release_change_input id [] = none
release_change_input id (c ∷ cs) =
    if c.input.output_id == id
    then if c.spendable then none else some (record c { spendable = true } ∷ cs)
    else elim (release_change_input id cs) [ none ↦ none | some cs' ↦ some (c ∷ cs') ]

-- What a run of the storage unfolds.
unfoldable pub pool_runs : Unit {0}
unfolding allocate_first allocate_last allocate_exact allocate_change_input release_change_input
pool_runs = tt
