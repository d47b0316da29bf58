-- ===== src/Merkle.antt =====
-- Merkle roots and Merkle paths of a mock block: src/mockchain/merkleTree.ts. The SHA256 digest,
-- the two hex conversions and the `MerklePath` constructor of @bsv/sdk are parameters.
pub use wallet_toolbox_rocksdb.Base.Results.{ok, err, ◌>>=◌}
use wallet_toolbox_rocksdb.Base.Results.{Fallible}
use wallet_toolbox_rocksdb.Base.{
  ℕ, zero, suc, ◌+◌, ◌-◌, ◌/◌, ◌%◌, Bool, true, false, ◌||◌, List, [], ◌∷◌, ◌++◌, map, Option, none,
  some, arith, leb, ltb, ◌==◌, if◌then◌else◌, length, get_elem?, ◌≡◌, refl,
}
use wallet_toolbox_rocksdb.Base.Int.{ℤ, pos, pos_part, leb_ℤ, ltb_ℤ}
use mathlib.Core.List.{reverse}
use Prim.Native.String.{String}
pub mod Levels
pub mod Climb
pub mod Paths
pub mod Tests

abbrev pub Bytes : Type 0
Bytes = List ℕ

pub data MerkleError : Type 0 where
  empty_txids : MerkleError
  index_out_of_range : MerkleError
  no_root : MerkleError

abbrev pub Result {ℓ} : Type ℓ → Type ℓ
Result A = Fallible MerkleError A

-- A leaf of a path; `txid` and `duplicate` are false where the source leaves them undefined.
pub record Leaf : Type 0 where
  pub offset : ℕ
  pub hash : Option String
  pub txid : Bool
  pub duplicate : Bool

-- The functions of @bsv/sdk that the code calls.
pub record Sdk : Type 0 where
  pub to_array : String → Bytes
  pub to_hex : Bytes → String
  pub sha256 : Bytes → Bytes

pub double_sha256_le : Sdk → Bytes → Bytes
double_sha256_le k bytes = k.sha256 (k.sha256 bytes)

pub double_sha256_be : Sdk → Bytes → Bytes
double_sha256_be k bytes = reverse (double_sha256_le k bytes)

-- One level of the tree from the level below, an odd last element paired with itself.
pub next_level : {A : Type 0} → (A → A → A) → List A → List A
next_level combine [] = []
next_level combine (x ∷ []) = combine x x ∷ []
next_level combine (x ∷ y ∷ rest) = combine x y ∷ next_level combine rest

-- The parent of two little-endian hashes, as `computeMerkleRoot` makes it.
pub combine_bytes : Sdk → Bytes → Bytes → Bytes
combine_bytes k left right = reverse (double_sha256_be k (left ++ right))

-- The parent of two big-endian hex strings, as `computeMerklePath` makes it.
pub combine_hex : Sdk → String → String → String
combine_hex k left right =
    k.to_hex (double_sha256_be k (reverse (k.to_array left) ++ reverse (k.to_array right)))

pub root_loop : (fuel : ℕ) → Sdk → List Bytes → List Bytes
root_loop zero k level = level
root_loop (suc fuel) k level =
    let rest = root_loop fuel k (next_level (combine_bytes k) level) in
    if ltb 1 (length level) then rest else level

pub little_endian : Sdk → String → Bytes
little_endian k txid = reverse (k.to_array txid)

pub compute_merkle_root : Sdk → List String → Result String
compute_merkle_root k txids =
    if length txids == 0
    then err empty_txids
    else elim (get_elem? (root_loop (length txids) k (map (little_endian k) txids)) 0) [
      | none ↦ err no_root
      | some root ↦ ok (k.to_hex (reverse root))
    ]

-- `treeHeight`: how often `n` is halved, rounding up, until it is 1.
pub tree_height : (fuel n : ℕ) → ℕ
tree_height zero n = 0
tree_height (suc fuel) n =
    let rest = tree_height fuel ((n + 1) / 2) in if ltb 1 n then suc rest else 0

pub sibling_index : ℕ → ℕ
sibling_index index = if index % 2 == 1 then index - 1 else index + 1

pub sibling_leaf : List String → ℕ → Leaf
sibling_leaf level_txids sibling =
    if leb (length level_txids) sibling
    then record { offset = sibling; hash = none; txid = false; duplicate = true }
    else record {
      offset = sibling;
      hash = get_elem? level_txids sibling;
      txid = false;
      duplicate = false;
    }

-- The leaves of one level: the target and its sibling, in order, at level 0, and the sibling above.
pub path_level : (level target : ℕ) → List String → (index : ℕ) → List String → List Leaf
path_level zero target txids index level_txids =
    let target_leaf : Leaf = record {
      offset = target;
      hash = get_elem? txids target;
      txid = true;
      duplicate = false;
    } in
    let sibling = sibling_leaf level_txids (sibling_index index) in
    if leb (length level_txids) (sibling_index index)
    then target_leaf ∷ sibling ∷ []
    else if index % 2 == 1
    then sibling ∷ target_leaf ∷ []
    else target_leaf ∷ sibling ∷ []
path_level (suc level) target txids index level_txids =
    sibling_leaf level_txids (sibling_index index) ∷ []

pub path_loop :
    Sdk → (levels level target : ℕ) → List String → (index : ℕ) → List String → List (List Leaf)
path_loop k zero level target txids index level_txids = []
path_loop k (suc levels) level target txids index level_txids =
    path_level level target txids index level_txids
    ∷ path_loop k levels (suc level) target txids (index / 2)
        (next_level (combine_hex k) level_txids)

pub path_from : Sdk → List String → ℕ → List (List Leaf)
path_from k txids target =
    if length txids == 1
    then (record { offset = 0; hash = get_elem? txids 0; txid = true; duplicate = false } ∷ []) ∷ []
    else path_loop k (tree_height (length txids) (length txids)) 0 target txids target txids

-- `merkle_path` is the constructor of the SDK's class.
pub compute_merkle_path :
    {M : Type 0}
    → Sdk
    → (merkle_path : ℕ → List (List Leaf) → M) → List String
    → (target_index : ℤ) → (block_height : ℕ) → Result M
compute_merkle_path k merkle_path txids target_index block_height =
    if length txids == 0
    then err empty_txids
    else if ltb_ℤ target_index (pos 0) || leb_ℤ (pos (length txids)) target_index
    then err index_out_of_range
    else ok (merkle_path block_height (path_from k txids (pos_part target_index)))
