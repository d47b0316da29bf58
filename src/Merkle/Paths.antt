-- ===== src/Merkle/Paths.antt =====
-- What the paths of merkleTree.ts prove: climbing from the target transaction recomputes the root.
use wallet_toolbox_rocksdb.Base.{
  ℕ, zero, suc, ◌<◌, inl, inr, List, [], ◌∷◌, ◌++◌, map, some, arith, length, get_elem?, All, ◌≡◌,
  refl, ap, sym, subst, ◌∙◌, ◌==◌, ltb, false, Bool-cases,
}
use wallet_toolbox_rocksdb.Base.Int.{pos}
use mathlib.Core.List.{reverse, reverse-reverse}
use Prim.Native.String.{String}
use wallet_toolbox_rocksdb.Merkle.{
  Bytes, Sdk, Leaf, ok, double_sha256_be, next_level, combine_bytes, combine_hex, little_endian,
  root_loop, compute_merkle_root, path_from, compute_merkle_path,
}
use wallet_toolbox_rocksdb.Merkle.Levels.{map-next_level}
use wallet_toolbox_rocksdb.Merkle.Climb.{
  proven_root, get_elem?-lt, top_level, path_from-proven_root,
}

-- A hex string that the two conversions leave as it is, and a digest that survives being written.
abbrev pub IsCanonical : Sdk → String → Type 0
IsCanonical k txid = k.to_hex (k.to_array txid) ≡ txid

abbrev pub ReadsDigests : Sdk → Type 0
ReadsDigests k = (b : Bytes) → k.to_array (k.to_hex (double_sha256_be k b)) ≡ double_sha256_be k b

module _ (k : Sdk) (reads : ReadsDigests k) where
  little_endian-combine :
      (a b : String)
      → little_endian k (combine_hex k a b)
        ≡ combine_bytes k (little_endian k a) (little_endian k b)
  unfolding little_endian combine_hex combine_bytes
  little_endian-combine a b =
      ap (λ (d : Bytes). reverse d) (reads (reverse (k.to_array a) ++ reverse (k.to_array b)))

  combine-IsCanonical : (a b : String) → IsCanonical k (combine_hex k a b)
  unfolding combine_hex
  combine-IsCanonical a b = ap k.to_hex (reads (reverse (k.to_array a) ++ reverse (k.to_array b)))

  next_level-IsCanonical :
      (xs : List String)
      → All (IsCanonical k) xs
      → All (IsCanonical k) (next_level (combine_hex k) xs)
  unfolding next_level
  next_level-IsCanonical [] h = tt
  next_level-IsCanonical (x ∷ []) h = (combine-IsCanonical x x, tt)
  next_level-IsCanonical (x ∷ y ∷ rest) h =
      (combine-IsCanonical x y, next_level-IsCanonical rest h.1.1)

  length-map : {A B : Type 0} (f : A → B) (xs : List A) → length (map f xs) ≡ length xs
  length-map f [] = refl
  length-map f (x ∷ xs) = ap suc (length-map f xs)

  root_loop-top_level :
      (fuel : ℕ) (level : List String)
      → All (IsCanonical k) level
      → (root_loop fuel k (map (little_endian k) level)
          ≡ map (little_endian k) (top_level fuel k level))
        × All (IsCanonical k) (top_level fuel k level)
  unfolding root_loop top_level
  root_loop-top_level zero level canonical = (refl, canonical)
  root_loop-top_level (suc fuel) level canonical =
      let up =
        map-next_level (little_endian k) (combine_hex k) (combine_bytes k) little_endian-combine
          level in
      let (same, above) =
        root_loop-top_level fuel (next_level (combine_hex k) level)
          (next_level-IsCanonical level canonical) in
      elim (Bool-cases (ltb 1 (length level))) [
        | inl many ↦
            (rw (length-map (little_endian k) level, many, sym up, same) refl, rw many above)
        | inr one ↦ (rw (length-map (little_endian k) level, one) refl, rw one canonical)
      ]

  reverse-little_endian :
      (txid : String) → IsCanonical k txid → k.to_hex (reverse (little_endian k txid)) ≡ txid
  unfolding little_endian
  reverse-little_endian txid canonical = ap k.to_hex (reverse-reverse (k.to_array txid)) ∙ canonical

  -- The root that `compute_merkle_root` returns is the one hash of the last level.
  compute_merkle_root_lem :
      (txids : List String) (root : String)
      → All (IsCanonical k) txids
      → top_level (length txids) k txids ≡ root ∷ []
      → 0 < length txids
      → compute_merkle_root k txids ≡ ok root
  unfolding compute_merkle_root
  compute_merkle_root_lem txids root canonical top positive =
      let (same, above) = root_loop-top_level (length txids) txids canonical in
      let filled : ((length txids == 0) ≡ false) = ground arith in
      let last : All (IsCanonical k) (root ∷ []) =
        subst (λ (l : List String). All (IsCanonical k) l) top above in
      let (here, rest) = last in rw (filled, same, top, reverse-little_endian root here) refl

  -- For every transaction of a block, at index `i`, with SDK conversions that read back the digests
  -- that they write and leave the block's txids as they are: `compute_merkle_path` gives the
  -- constructor a path, `compute_merkle_root` gives a root, and climbing the path from the
  -- transaction, hashing with the sibling at each level, ends at that root.
  pub compute_merkle_path-proven_root :
      {M : Type 0} (merkle_path : ℕ → List (List Leaf) → M) (txids : List String) (i height : ℕ)
      (txid : String)
      → All (IsCanonical k) txids
      → get_elem? txids i ≡ some txid
      → (path : List (List Leaf)) × (root : String) × (compute_merkle_path k merkle_path txids
            (pos i)
            height
          ≡ ok (merkle_path height path))
        × (compute_merkle_root k txids ≡ ok root)
        × (proven_root k i txid path ≡ some root)
  unfolding compute_merkle_path
  compute_merkle_path-proven_root merkle_path txids i height txid canonical e =
      let lt = get_elem?-lt txids i txid e in
      let (root, top, proven) = path_from-proven_root k txids i txid e in
      (
        path_from k txids i,
        root,
        ground arith,
        compute_merkle_root_lem txids root canonical top (omega (arith, lt)),
        proven,
      )
