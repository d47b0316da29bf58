-- ===== src/LiveHeaders.antt =====
-- The live block headers that are kept in memory, with the ways to find one:
-- src/services/chaintracker/chaintracks/Storage/ChaintracksStorageNoDb.ts.
use Prim.Native.String.{String}
use text.Mathlib.Text.{◌==◌ as str_eq}
use wallet_toolbox_rocksdb.Base.{
  ℕ, ◌+◌, Bool, true, false, not, ◌&&◌, Option, none, some, List, [], ◌∷◌, map, ltb, leb, ◌==◌,
  if◌then◌else◌, length, keep_if, find_first, take, min, max,
}
use wallet_toolbox_rocksdb.BlockHeader.{BlockHeader}
use wallet_toolbox_rocksdb.Base.Int.{pos, leb_ℤ}
use wallet_toolbox_rocksdb.HeightRange.{HeightRange, range, empty, is_empty}
pub mod Store
pub mod Tree
pub mod Growth
pub mod Chain
pub mod Insertion
pub mod Deletion
pub mod Runs
pub mod Tests

-- `BlockHeader` extended: `base` has its fields.
pub record LiveBlockHeader : Type 0 where
  pub base : BlockHeader
  pub chain_work : ℕ
  pub is_chain_tip : Bool
  pub is_active : Bool
  pub header_id : ℕ
  pub previous_header_id : Option ℕ

-- The maps as lists, in the order of insertion. The key of a header in `live_headers` is its own
-- `header_id`, in every call of `set`.
pub record LiveData : Type 0 where
  pub live_headers : List LiveBlockHeader
  pub max_header_id : ℕ
  pub tip_header_id : ℕ
  pub hash_to_header_id : List (String × ℕ)

-- `liveHeaders.get` and `liveHeaders.set`: a header that is there keeps its place.
pub get_header : ℕ → List LiveBlockHeader → Option LiveBlockHeader
get_header id [] = none
get_header id (h ∷ hs) = if h.header_id == id then some h else get_header id hs

pub set_header : LiveBlockHeader → List LiveBlockHeader → List LiveBlockHeader
set_header new [] = new ∷ []
set_header new (h ∷ hs) = if h.header_id == new.header_id then new ∷ hs else h ∷ set_header new hs

-- `liveHeaders.get(header.previousHeaderId)`, where no key is null.
pub get_previous : Option ℕ → List LiveBlockHeader → Option LiveBlockHeader
unfolding get_header
get_previous none hs = none
get_previous (some id) hs = get_header id hs

-- `hashToHeaderId.get`, `set` and `delete`.
pub get_id : String → List (String × ℕ) → Option ℕ
get_id hash [] = none
get_id hash ((k, id) ∷ m) = if str_eq k hash then some id else get_id hash m

pub set_id : String → ℕ → List (String × ℕ) → List (String × ℕ)
set_id hash id [] = (hash, id) ∷ []
set_id hash id ((k, i) ∷ m) = if str_eq k hash then (k, id) ∷ m else (k, i) ∷ set_id hash id m

pub delete_id : String → List (String × ℕ) → List (String × ℕ)
delete_id hash m = keep_if (λ e. not (str_eq e.0 hash)) m

abbrev pub active_tip : LiveBlockHeader → Bool
active_tip h = h.is_active && h.is_chain_tip

pub find_chain_tip_header_or_undefined : LiveData → Option LiveBlockHeader
find_chain_tip_header_or_undefined s = find_first active_tip s.live_headers

pub find_by_hash : String → List LiveBlockHeader → Option LiveBlockHeader
find_by_hash hash hs = find_first (λ h. str_eq h.base.hash hash) hs

-- The test `headerId ?` fails at 0 too.
pub find_live_header_for_block_hash : String → LiveData → Option LiveBlockHeader
unfolding get_id get_header
find_live_header_for_block_hash hash s = elim (get_id hash s.hash_to_header_id) [
  | none ↦ none
  | some id ↦ if id == 0 then none else get_header id s.live_headers
]

pub find_live_header_for_height : ℕ → LiveData → Option LiveBlockHeader
find_live_header_for_height height s =
    find_first (λ h. (h.base.height == height) && h.is_active) s.live_headers

pub find_live_header_for_merkle_root : String → LiveData → Option LiveBlockHeader
find_live_header_for_merkle_root root s =
    find_first (λ h. str_eq h.base.merkle_root root) s.live_headers

-- `Math.min(...)` and `Math.max(...)` over the heights of a list that is not empty.
pub min_height : ℕ → List LiveBlockHeader → ℕ
min_height m [] = m
min_height m (h ∷ hs) = min_height (min m h.base.height) hs

pub max_height : ℕ → List LiveBlockHeader → ℕ
max_height m [] = m
max_height m (h ∷ hs) = max_height (max m h.base.height) hs

abbrev range_of : List LiveBlockHeader → HeightRange
unfolding min_height max_height
range_of [] = empty
range_of (h ∷ hs) = range (pos (min_height h.base.height hs)) (pos (max_height h.base.height hs))

pub find_live_height_range : LiveData → HeightRange
unfolding min_height max_height
find_live_height_range s = range_of (keep_if (λ h. h.is_active) s.live_headers)

-- A stable sort by height.
pub insert_by_height : LiveBlockHeader → List LiveBlockHeader → List LiveBlockHeader
insert_by_height h [] = h ∷ []
insert_by_height h (k ∷ ks) =
    if leb h.base.height k.base.height then h ∷ (k ∷ ks) else k ∷ insert_by_height h ks

pub sort_by_height : List LiveBlockHeader → List LiveBlockHeader
unfolding insert_by_height
sort_by_height [] = []
sort_by_height (h ∷ hs) = insert_by_height h (sort_by_height hs)

pub live_headers_for_bulk : ℕ → LiveData → List LiveBlockHeader
unfolding sort_by_height
live_headers_for_bulk count s =
    take count (sort_by_height (keep_if (λ h. h.is_active) s.live_headers))

pub get_live_headers : HeightRange → LiveData → List LiveBlockHeader
unfolding is_empty sort_by_height
get_live_headers r s =
    if is_empty r
    then []
    else sort_by_height (
        keep_if
          (λ h.
            h.is_active
            && leb_ℤ r.min_height (pos h.base.height)
            && leb_ℤ (pos h.base.height) r.max_height)
          s.live_headers)

-- `if (header.previousHeaderId)` fails at 0 too.
abbrev pub linked_id : Option ℕ → Option ℕ
linked_id none = none
linked_id (some id) = if id == 0 then none else some id

-- The headers whose previous header is to be deleted lose their link to it.
pub unlink : (max_height : ℕ) → List LiveBlockHeader → LiveBlockHeader → LiveBlockHeader
unfolding get_previous
unlink max_height hs h = elim (get_previous (linked_id h.previous_header_id) hs) [
  | none ↦ h
  | some p ↦ elim (leb p.base.height max_height) [
    | true ↦ record h { previous_header_id = none }
    | false ↦ h
  ]
]

pub delete_ids : (max_height : ℕ) → List LiveBlockHeader → List (String × ℕ) → List (String × ℕ)
unfolding delete_id
delete_ids max_height [] m = m
delete_ids max_height (h ∷ hs) m = elim (leb h.base.height max_height) [
  | true ↦ delete_ids max_height hs (delete_id h.base.hash m)
  | false ↦ delete_ids max_height hs m
]

abbrev pub id_of : Option LiveBlockHeader → ℕ
id_of none = 0
id_of (some h) = h.header_id

-- The new state and the number of headers deleted.
pub delete_older_live_block_headers : (max_height : ℕ) → LiveData → LiveData × ℕ
unfolding unlink delete_ids find_chain_tip_header_or_undefined
delete_older_live_block_headers max_height s =
    let linked = map (unlink max_height s.live_headers) s.live_headers in
    let kept = keep_if (λ h. not (leb h.base.height max_height)) linked in
    (
      record s {
        live_headers = kept;
        hash_to_header_id = delete_ids max_height linked s.hash_to_header_id;
        tip_header_id = id_of (find_first active_tip kept);
      },
      length (keep_if (λ h. leb h.base.height max_height) linked),
    )

pub delete_live_block_headers : LiveData → LiveData
delete_live_block_headers s = record {
  live_headers = [];
  max_header_id = 0;
  tip_header_id = 0;
  hash_to_header_id = [];
}
