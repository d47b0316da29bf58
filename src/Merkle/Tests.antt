-- ===== src/Merkle/Tests.antt =====
-- A toy digest and a toy encoding, and the roots and paths of merkleTree.ts computed with them.
use wallet_toolbox_rocksdb.Base.{
  ℕ, zero, suc, ◌+◌, ◌*◌, List, [], ◌∷◌, some, none, true, false, arith, All, ◌≡◌, refl, ap,
}
use wallet_toolbox_rocksdb.Base.Int.{pos, negsuc}
use Prim.Native.String.{String, ◌++◌, count}
use text.Mathlib.TextLemmas.{length-append}
use wallet_toolbox_rocksdb.Merkle.{
  Bytes, Sdk, Leaf, ok, err, empty_txids, index_out_of_range, double_sha256_be, double_sha256_le,
  combine_bytes, combine_hex, next_level, root_loop, little_endian, tree_height, sibling_index,
  sibling_leaf, path_level, path_loop, path_from, compute_merkle_root, compute_merkle_path,
}
use wallet_toolbox_rocksdb.Merkle.Climb.{proven_root}
use wallet_toolbox_rocksdb.Merkle.Paths.{ReadsDigests, IsCanonical, compute_merkle_path-proven_root}

unary : ℕ → String
unary zero = ""
unary (suc n) = "a" ++ unary n

count-unary : (n : ℕ) → count (unary n) ≡ n
unfolding unary
count-unary zero = refl
count-unary (suc n) = omega (arith, length-append "a" (unary n), count-unary n)

weigh : Bytes → ℕ
weigh [] = 1
weigh (x ∷ xs) = x + 2 * weigh xs

write_bytes : Bytes → String
write_bytes [] = ""
write_bytes (x ∷ xs) = unary x

abbrev toy : Sdk
unfolding weigh write_bytes unary
toy = record { to_array = λ s. count s ∷ []; to_hex = write_bytes; sha256 = λ b. weigh b ∷ [] }

toy-ReadsDigests : ReadsDigests toy
unfolding toy double_sha256_be double_sha256_le write_bytes
toy-ReadsDigests b = ap (λ (n : ℕ). n ∷ []) (count-unary (weigh (weigh b ∷ [])))

abbrev txids : List String
txids = "a" ∷ "aaa" ∷ "aa" ∷ []

txids-IsCanonical : All (IsCanonical toy) txids
unfolding toy write_bytes unary
txids-IsCanonical = (refl, (refl, (refl, tt)))

-- The path of the last of three transactions, whose sibling is a duplicate of itself.
abbrev as_written : ℕ → List (List Leaf) → List (List Leaf)
as_written height path = path

root : compute_merkle_root toy txids ≡ ok (unary 43)
unfolding compute_merkle_root toy root_loop little_endian next_level combine_bytes double_sha256_be
    double_sha256_le weigh write_bytes unary
root = refl

path :
    compute_merkle_path toy as_written txids (pos 2) 7
    ≡ ok (
        (record { offset = 2; hash = some "aa"; txid = true; duplicate = false }
          ∷ record { offset = 3; hash = none; txid = false; duplicate = true }
          ∷ [])
        ∷ (record { offset = 0; hash = some (unary 13); txid = false; duplicate = false } ∷ [])
        ∷ [])
unfolding compute_merkle_path path_from path_loop path_level sibling_leaf sibling_index tree_height
    toy next_level combine_hex double_sha256_be double_sha256_le weigh write_bytes unary
path = refl

path_out_of_range : compute_merkle_path toy as_written txids (pos 3) 7 ≡ err index_out_of_range
unfolding compute_merkle_path
path_out_of_range = refl

path_negative : compute_merkle_path toy as_written txids (negsuc 0) 7 ≡ err index_out_of_range
unfolding compute_merkle_path
path_negative = refl

root_of_none : compute_merkle_root toy [] ≡ err empty_txids
unfolding compute_merkle_root
root_of_none = refl

compute_merkle_path-proven_root_example :
    (path : List (List Leaf)) × (root : String) × (compute_merkle_path toy as_written txids
        (pos 2)
        7
      ≡ ok path)
    × (compute_merkle_root toy txids ≡ ok root)
    × (proven_root toy 2 "aa" path ≡ some root)
compute_merkle_path-proven_root_example =
    compute_merkle_path-proven_root toy toy-ReadsDigests as_written txids 2 7 "aa" txids-IsCanonical
      refl
