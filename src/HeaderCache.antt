-- ===== src/HeaderCache.antt =====
-- The cache of block headers by height and by hash: src/cache/BlockHeaderCache.ts. The store of
-- node-cache is a parameter; the events emitted and the metrics are left out.
use wallet_toolbox_rocksdb.Base.{
  ℕ, zero, suc, ◌+◌, ◌-◌, Bool, true, false, not, Option, none, some, List, [], ◌∷◌, ◌++◌, ltb, leb,
  ◌==◌, if◌then◌else◌, length, keep_if, ◌≡◌, ◌≢◌, refl,
}
use Prim.Native.String.{String}
use text.Mathlib.Text.{◌==◌ as str_eq}
use wallet_toolbox_rocksdb.BlockHeader.{BlockHeader}
pub mod Coherent
pub mod Invalidation
pub mod Setting
pub mod Runs
pub mod Tests

-- The texts that `heightKey` and `hashKey` make, which are told apart by how they start.
pub data Key : Type 0 where
  height_key : ℕ → Key
  hash_key : String → Key

-- The store of node-cache. An entry that has expired is gone before the handler of `expired` runs,
-- which is the operation `expire` below.
pub record Store (C : Type 0) : Type 0 where
  pub get : Key → C → Option BlockHeader
  pub put : Key → BlockHeader → C → C
  pub del : Key → C → C
  pub flush : C → C
  pub get-put : (k : Key) (b : BlockHeader) (c : C) → get k (put k b c) ≡ some b
  pub get-put_other : (k l : Key) (b : BlockHeader) (c : C) → k ≢ l → get k (put l b c) ≡ get k c
  pub get-del : (k : Key) (c : C) → get k (del k c) ≡ none
  pub get-del_other : (k l : Key) (c : C) → k ≢ l → get k (del l c) ≡ get k c
  pub get-flush : (k : Key) (c : C) → get k (flush c) ≡ none

-- `header_hashes` is the set of hashes, in the order in which they were added.
pub record HeaderCache (C : Type 0) : Type 0 where
  pub cache : C
  pub header_hashes : List String
  pub max_entries : ℕ
  pub hits : ℕ
  pub misses : ℕ

pub delete_hash : String → List String → List String
delete_hash hash hashes = keep_if (λ s. not (str_eq s hash)) hashes

module _ {C : Type 0} (N : Store C) where
  pub count_request : Option BlockHeader → HeaderCache C → HeaderCache C
  count_request none s = record s { misses = s.misses + 1 }
  count_request (some b) s = record s { hits = s.hits + 1 }

  pub get_by_height : ℕ → HeaderCache C → Option BlockHeader × HeaderCache C
  unfolding count_request
  get_by_height height s =
      let header = N.get (height_key height) s.cache in (header, count_request header s)

  pub get_by_hash : String → HeaderCache C → Option BlockHeader × HeaderCache C
  unfolding count_request
  get_by_hash hash s =
      let header = N.get (hash_key hash) s.cache in (header, count_request header s)

  -- A header is deleted under the height of `header`, if there is one.
  abbrev pub del_height : Option BlockHeader → C → C
  del_height none c = c
  del_height (some b) c = N.del (height_key b.height) c

  pub invalidate_hash : String → HeaderCache C → HeaderCache C
  unfolding delete_hash
  invalidate_hash hash s = record s {
    cache = del_height (N.get (hash_key hash) s.cache) (N.del (hash_key hash) s.cache);
    header_hashes = delete_hash hash s.header_hashes;
  }

  pub invalidate_height : ℕ → HeaderCache C → HeaderCache C
  unfolding delete_hash
  invalidate_height height s =
      let c = N.del (height_key height) s.cache in
      elim (N.get (height_key height) s.cache) [
        | none ↦ record s { cache = c }
        | some b ↦ record s {
          cache = N.del (hash_key b.hash) c;
          header_hashes = delete_hash b.hash s.header_hashes;
        }
      ]

  -- The loop over the hashes that were there at its start, and the number of headers removed.
  pub invalidate_each : ℕ → List String → ℕ → HeaderCache C → HeaderCache C × ℕ
  unfolding invalidate_hash
  invalidate_each height [] removed s = (s, removed)
  invalidate_each height (hash ∷ hashes) removed s = elim (N.get (hash_key hash) s.cache) [
    | none ↦ invalidate_each height hashes removed s
    | some b ↦ elim (leb height b.height) [
      | true ↦ invalidate_each height hashes (removed + 1) (invalidate_hash hash s)
      | false ↦ invalidate_each height hashes removed s
    ]
  ]

  pub invalidate_from_height : ℕ → HeaderCache C → HeaderCache C × ℕ
  unfolding invalidate_each
  invalidate_from_height height s = invalidate_each height s.header_hashes 0 s

  -- The loop of `evictOldHeaders`, on the number of hashes.
  pub evict_loop : (fuel : ℕ) → HeaderCache C → HeaderCache C
  unfolding invalidate_hash
  evict_loop zero s = s
  evict_loop (suc fuel) s = elim (ltb s.max_entries (length s.header_hashes)) [
    | false ↦ s
    | true ↦ elim s.header_hashes [
      | [] ↦ s
      | oldest ∷ hashes ↦ evict_loop fuel (invalidate_hash oldest s)
    ]
  ]

  pub evict_old_headers : HeaderCache C → HeaderCache C
  unfolding evict_loop
  evict_old_headers s = evict_loop (length s.header_hashes) s

  -- Another header that was cached at the height of the new one.
  pub replace_at_height : BlockHeader → HeaderCache C → HeaderCache C
  unfolding delete_hash
  replace_at_height b s = elim (N.get (height_key b.height) s.cache) [
    | none ↦ s
    | some p ↦
        if not (str_eq p.hash b.hash)
        then record s {
          cache = N.del (hash_key p.hash) s.cache;
          header_hashes = delete_hash p.hash s.header_hashes;
        }
        else s
  ]

  -- The same hash that was cached at another height.
  pub replace_at_hash : BlockHeader → HeaderCache C → HeaderCache C
  replace_at_hash b s = elim (N.get (hash_key b.hash) s.cache) [
    | none ↦ s
    | some p ↦
        if not (p.height == b.height)
        then record s { cache = N.del (height_key p.height) s.cache }
        else s
  ]

  pub store_header : BlockHeader → HeaderCache C → HeaderCache C
  unfolding delete_hash
  store_header b s = record s {
    cache = N.put (hash_key b.hash) b (N.put (height_key b.height) b s.cache);
    header_hashes = delete_hash b.hash s.header_hashes ++ b.hash ∷ [];
  }

  pub set : BlockHeader → HeaderCache C → HeaderCache C
  unfolding replace_at_height replace_at_hash store_header evict_old_headers
  set b s = evict_old_headers (store_header b (replace_at_hash b (replace_at_height b s)))

  -- `setHeader`; none is the error of a height that is not the header's.
  pub set_header : ℕ → BlockHeader → HeaderCache C → Option (HeaderCache C)
  unfolding set
  set_header height b s = if b.height == height then some (set b s) else none

  pub clear : HeaderCache C → HeaderCache C
  clear s = record s { cache = N.flush s.cache; header_hashes = [] }

  -- `removeHeaderIndexes`, the handler of an expired entry.
  pub remove_header_indexes : Key → Option BlockHeader → HeaderCache C → HeaderCache C
  unfolding delete_hash
  remove_header_indexes k none s = s
  remove_header_indexes (height_key h) (some b) s = record s {
    cache = N.del (hash_key b.hash) s.cache;
    header_hashes = delete_hash b.hash s.header_hashes;
  }
  remove_header_indexes (hash_key h) (some b) s = record s {
    cache = N.del (height_key b.height) s.cache;
    header_hashes = delete_hash b.hash s.header_hashes;
  }

  -- The entry of a key expires.
  pub expire : Key → HeaderCache C → HeaderCache C
  unfolding remove_header_indexes
  expire k s = remove_header_indexes k (N.get k s.cache) (record s { cache = N.del k s.cache })

  pub on_block_mined :
      (block_height : Option ℕ) (header : Option BlockHeader) → HeaderCache C → HeaderCache C
  unfolding invalidate_from_height set
  on_block_mined height (some b) s = set b (invalidate_from_height b.height s).0
  on_block_mined (some height) none s = (invalidate_from_height height s).0
  on_block_mined none none s = s

  pub invalidate_hashes : List BlockHeader → HeaderCache C → HeaderCache C
  unfolding invalidate_hash
  invalidate_hashes [] s = s
  invalidate_hashes (b ∷ bs) s = invalidate_hashes bs (invalidate_hash b.hash s)

  -- The three ways of a reorganisation: its deactivated headers, or its depth below the old tip, or
  -- neither; `Math.max` with 0 is the subtraction on ℕ after the addition.
  pub on_reorg :
      (depth : Option ℕ) (old_tip : Option BlockHeader) (deactivated : List BlockHeader)
      → HeaderCache C
      → HeaderCache C
  unfolding invalidate_hashes invalidate_from_height clear
  on_reorg depth tip (b ∷ bs) s = invalidate_hashes (b ∷ bs) s
  on_reorg (some depth) (some tip) [] s = (invalidate_from_height (tip.height + 1 - depth) s).0
  on_reorg depth tip [] s = clear s

unfoldable pub header_cache_runs : Unit {0}
unfolding delete_hash count_request get_by_height get_by_hash invalidate_hash invalidate_height
    invalidate_each invalidate_from_height evict_loop evict_old_headers replace_at_height
    replace_at_hash store_header set set_header clear remove_header_indexes expire on_block_mined
    invalidate_hashes on_reorg
header_cache_runs = tt
