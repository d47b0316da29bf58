-- ===== src/HeaderCache/Tests.antt =====
-- A store of functions, and the theorems of BlockHeaderCache.ts at a concrete cache.
use wallet_toolbox_rocksdb.Base.{
  ℕ, Bool, true, false, Option, none, some, List, [], ◌∷◌, ◌==◌, if◌then◌else◌, length, ◌≡◌, ◌≢◌,
  ◌≤◌, refl, ap, arith, Bool-cases, inl, inr, ==_iff,
}
use Prim.Native.String.{String}
use text.Mathlib.Text.{◌==◌ as str_eq}
use text.Mathlib.TextEquality.{eq_iff}
use wallet_toolbox_rocksdb.BlockHeader.{BlockHeader}
use wallet_toolbox_rocksdb.HeaderCache.{
  Key, height_key, hash_key, Store, HeaderCache, set, header_cache_runs,
}
use wallet_toolbox_rocksdb.HeaderCache.Coherent.{Coherent}
use wallet_toolbox_rocksdb.HeaderCache.Invalidation.{empty-Coherent}
use wallet_toolbox_rocksdb.HeaderCache.Runs.{
  Op, looks_up_height, sets, expires, mines, reorganises, run, run-Coherent, set-bounded,
  operations_run,
}

abbrev key_eq : Key → Key → Bool
key_eq (height_key h) (height_key g) = h == g
key_eq (hash_key s) (hash_key t) = str_eq s t
key_eq (height_key h) (hash_key t) = false
key_eq (hash_key s) (height_key g) = false

key_eq_refl : (k : Key) → key_eq k k ≡ true
key_eq_refl (height_key h) = (==_iff h h).1 refl
key_eq_refl (hash_key s) = (eq_iff s s).1 refl

key_eq→same : (k l : Key) → key_eq k l ≡ true → k ≡ l
key_eq→same (height_key h) (height_key g) e = ap height_key ((==_iff h g).0 e)
key_eq→same (hash_key s) (hash_key t) e = ap hash_key ((eq_iff s t).0 e)
key_eq→same (height_key h) (hash_key t) e = absurd (ground arith)
key_eq→same (hash_key s) (height_key g) e = absurd (ground arith)

key_eq_other : (k l : Key) → k ≢ l → key_eq k l ≡ false
key_eq_other k l n = elim (Bool-cases (key_eq k l)) [
  | inl e ↦ absurd (n (key_eq→same k l e))
  | inr e ↦ e
]

abbrev Table : Type 0
Table = Key → Option BlockHeader

abbrev with_key : Key → Option BlockHeader → Table → Table
with_key k o c l = if key_eq l k then o else c l

with_key-same : (k : Key) (o : Option BlockHeader) (c : Table) → with_key k o c k ≡ o
with_key-same k o c = ap (λ (e : Bool). if e then o else c k) (key_eq_refl k)

with_key-other : (k l : Key) (o : Option BlockHeader) (c : Table) → k ≢ l → with_key l o c k ≡ c k
with_key-other k l o c n = ap (λ (e : Bool). if e then o else c k) (key_eq_other k l n)

abbrev table : Store Table
table = record {
  get = λ k c. c k;
  put = λ k b c. with_key k (some b) c;
  del = λ k c. with_key k none c;
  flush = λ c k. none;
  get-put = λ k b c. with_key-same k (some b) c;
  get-put_other = λ k l b c n. with_key-other k l (some b) c n;
  get-del = λ k c. with_key-same k none c;
  get-del_other = λ k l c n. with_key-other k l none c n;
  get-flush = λ k c. refl;
}

abbrev header : ℕ → String → BlockHeader
header height hash = record {
  version = 1;
  previous_hash = "00";
  merkle_root = "00";
  time = 0;
  bits = 0;
  nonce = 0;
  height = height;
  hash = hash;
}

abbrev start : HeaderCache Table
start = record { cache = λ k. none; header_hashes = []; max_entries = 2; hits = 0; misses = 0 }

-- The block of height 2 is replaced, one more is mined, and the top two are reorganised away.
abbrev operations : List Op
operations =
    sets (header 1 "a")
    ∷ sets (header 2 "b")
    ∷ looks_up_height 2
    ∷ sets (header 2 "c")
    ∷ mines none (some (header 3 "d"))
    ∷ expires (height_key 2)
    ∷ reorganises (some 1) (some (header 3 "d")) []
    ∷ []

run_tests :
    ((run table
        (sets (header 1 "a") ∷ sets (header 2 "b") ∷ sets (header 2 "c") ∷ [])
        start).header_hashes
      ≡ "a" ∷ "c" ∷ [])
    × ((run table
            (sets (header 1 "a") ∷ sets (header 2 "b") ∷ sets (header 3 "c") ∷ [])
            start).cache
          (height_key 1)
        ≡ none)
    × ((run table operations start).header_hashes ≡ [])
    × ((run table operations start).hits ≡ 1)
unfolding operations_run header_cache_runs str_eq
run_tests = (refl, refl, refl, refl)

run-Coherent_example : Coherent table (run table operations start).cache
run-Coherent_example =
    run-Coherent table operations start (empty-Coherent table start.cache (λ k. refl))

set-bounded_example :
    length (set table (header 3 "d") (run table operations start)).header_hashes
    ≤ (run table operations start).max_entries
set-bounded_example = set-bounded table (header 3 "d") (run table operations start)
