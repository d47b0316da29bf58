-- ===== src/Merkle/Climb.antt =====
-- A reader that climbs a path of merkleTree.ts, and the levels that the path is made of.
use wallet_toolbox_rocksdb.Base.{
  ℕ, zero, suc, ◌+◌, ◌-◌, ◌/◌, ◌%◌, ◌≤◌, ◌<◌, ◌⊎◌, inl, inr, List, [], ◌∷◌, some, none, arith,
  length, get_elem?, ◌≡◌, refl, sym, ◌∙◌, Option, if◌then◌else◌, ◌==◌, find_first, ltb, Bool, true,
  false, Bool-cases, ltb→lt, ltb→ge,
}
use Prim.Native.String.{String}
use wallet_toolbox_rocksdb.Merkle.{
  Sdk, Leaf, next_level, combine_hex, tree_height, sibling_index, sibling_leaf, path_level,
  path_loop, path_from,
}
use wallet_toolbox_rocksdb.Merkle.Levels.{length-next_level, next_level-odd, next_level-even}

-- A reader of a path. At each level it looks the sibling of its index up, hashes the two in the
-- order of their indexes, a duplicate sibling standing for the hash itself, and goes up.
climb_step : Sdk → ℕ → String → Leaf → Option String
climb_step k index hash leaf = elim leaf.hash [
  | none ↦ if leaf.duplicate then some (combine_hex k hash hash) else none
  | some sibling ↦
      some (if index % 2 == 1 then combine_hex k sibling hash else combine_hex k hash sibling)
]

climb : Sdk → ℕ → String → List (List Leaf) → Option String
climb k index hash [] = some hash
climb k index hash (leaves ∷ levels) =
    elim (find_first (λ (l : Leaf). l.offset == sibling_index index) leaves) [
      | none ↦ none
      | some leaf ↦ elim (climb_step k index hash leaf) [
        | none ↦ none
        | some parent ↦ climb k (index / 2) parent levels
      ]
    ]

-- A path of one level with one leaf is that of a block of one transaction, which is its root.
is_single : List (List Leaf) → Bool
is_single ((leaf ∷ []) ∷ []) = true
is_single path = false

pub proven_root : Sdk → ℕ → String → List (List Leaf) → Option String
proven_root k index txid path = if is_single path then some txid else climb k index txid path

find-path_level :
    (level target : ℕ) (txids : List String) (index : ℕ) (level_txids : List String)
    → (level ≡ 0 → target ≡ index)
    → find_first
        (λ (l : Leaf). l.offset == sibling_index index)
        (path_level level target txids index level_txids)
      ≡ some (sibling_leaf level_txids (sibling_index index))
unfolding path_level sibling_leaf sibling_index
find-path_level zero target txids index level_txids same = ground (arith, same refl)
find-path_level (suc level) target txids index level_txids same = ground arith

remainder : (i : ℕ) → (i % 2 ≡ 0) ⊎ (i % 2 ≡ 1)
remainder i = omega arith

parity : (i : ℕ) → (i % 2 ≡ 0) ⊎ ((j : ℕ) × (i ≡ suc j) × (j % 2 ≡ 0))
parity zero = inl (omega arith)
parity (suc j) = elim (remainder j) [
  | inl even ↦ inr (j, refl, even)
  | inr odd ↦ inl (omega (arith, odd))
]

pub get_elem?-lt :
    {A : Type 0} (xs : List A) (i : ℕ) (x : A) → get_elem? xs i ≡ some x → i < length xs
get_elem?-lt [] i x e = absurd (ground arith)
get_elem?-lt (y ∷ ys) zero x e = omega arith
get_elem?-lt (y ∷ ys) (suc i) x e = omega (arith, get_elem?-lt ys i x e)

odd_parent :
    (k : Sdk) (level_txids : List String) (hash : String) (j index : ℕ)
    → index ≡ suc j
    → get_elem? level_txids index ≡ some hash
    → j % 2 ≡ 0
    → (parent : String) × (climb_step k index hash (sibling_leaf level_txids (sibling_index index))
        ≡ some parent)
      × (get_elem? (next_level (combine_hex k) level_txids) (index / 2) ≡ some parent)
unfolding climb_step sibling_leaf sibling_index
odd_parent k level_txids hash j index same e even =
    let (y, g, r) = next_level-odd (combine_hex k) level_txids j hash (rw same at e) even in
    let lt = get_elem?-lt level_txids index hash e in
    let pred : (index - 1 ≡ j) = omega (arith, same) in
    let here : (get_elem? level_txids (index - 1) ≡ some y) = rw pred g in
    (combine_hex k y hash, ground (arith, lt, same, even, pred, here), rw same r)

climb_step-parent :
    (k : Sdk) (level_txids : List String) (index : ℕ) (hash : String)
    → get_elem? level_txids index ≡ some hash
    → (parent : String) × (climb_step k index hash (sibling_leaf level_txids (sibling_index index))
        ≡ some parent)
      × (get_elem? (next_level (combine_hex k) level_txids) (index / 2) ≡ some parent)
unfolding climb_step sibling_leaf sibling_index
climb_step-parent k level_txids index hash e = elim (parity index) [
  | inl even ↦ elim (next_level-even (combine_hex k) level_txids index hash e even) [
    | inl (n, r) ↦ (combine_hex k hash hash, ground (arith, n, even), r)
    | inr (y, n, g, r) ↦ (combine_hex k hash y, ground (arith, n, even, g), r)
  ]
  | inr (j, same, even) ↦ odd_parent k level_txids hash j index same e even
]

get_elem?-single :
    {A : Type 0} (xs : List A) (i : ℕ) (x : A)
    → get_elem? xs i ≡ some x
    → length xs ≤ 1
    → (i ≡ 0) × (xs ≡ x ∷ [])
get_elem?-single [] i x e n = absurd (ground arith)
get_elem?-single (y ∷ []) zero x e n = (refl, cc)
get_elem?-single (y ∷ []) (suc i) x e n = absurd (ground arith)
get_elem?-single (y ∷ z ∷ ys) i x e n = absurd (omega (arith, n))

-- The last level is one hash, which is where the climb ends.
unfoldable pub top_level : (fuel : ℕ) → Sdk → List String → List String
top_level zero k level = level
top_level (suc fuel) k level =
    let rest = top_level fuel k (next_level (combine_hex k) level) in
    if ltb 1 (length level) then rest else level

climb-cons :
    (k : Sdk) (index : ℕ) (hash : String) (leaves : List Leaf) (levels : List (List Leaf))
    (leaf : Leaf) (parent : String)
    → find_first (λ (l : Leaf). l.offset == sibling_index index) leaves ≡ some leaf
    → climb_step k index hash leaf ≡ some parent
    → climb k index hash (leaves ∷ levels) ≡ climb k (index / 2) parent levels
unfolding climb
climb-cons k index hash leaves levels leaf parent f s = rw (climb, f, s) refl

climb-path_loop :
    (k : Sdk) (fuel level target : ℕ) (txids : List String) (index : ℕ) (level_txids : List String)
    (hash : String)
    → (level ≡ 0 → target ≡ index)
    → get_elem? level_txids index ≡ some hash
    → length level_txids ≤ fuel
    → (root : String) × (top_level fuel k level_txids ≡ root ∷ [])
      × (climb k index hash (
            path_loop k
              (tree_height fuel (length level_txids))
              level
              target
              txids
              index
              level_txids)
          ≡ some root)
unfolding climb path_loop tree_height top_level
climb-path_loop k zero level target txids index level_txids hash same e n =
    let single = get_elem?-single level_txids index hash e (omega (arith, n)) in
    (hash, single.1, refl)
climb-path_loop k (suc fuel) level target txids index level_txids hash same e n =
    elim (Bool-cases (ltb 1 (length level_txids))) [
      | inl many ↦
          let (parent, step, g) = climb_step-parent k level_txids index hash e in
          let shorter = length-next_level (combine_hex k) level_txids in
          let (root, top, up) =
            climb-path_loop k fuel (suc level) target txids (index / 2)
              (next_level (combine_hex k) level_txids) parent (λ z. absurd (omega (arith, z))) g
              (omega (arith, shorter, n, ltb→lt 1 (length level_txids) many)) in
          (
            root,
            rw many top,
            rw many (
                climb-cons k index hash (path_level level target txids index level_txids)
                  (path_loop k (tree_height fuel ((length level_txids + 1) / 2)) (suc level) target
                    txids (index / 2) (next_level (combine_hex k) level_txids))
                  (sibling_leaf level_txids (sibling_index index)) parent
                  (find-path_level level target txids index level_txids same) step
                ∙ rw (sym shorter) up),
          )
      | inr one ↦
          let single =
            get_elem?-single level_txids index hash e (ltb→ge 1 (length level_txids) one) in
          (hash, rw one single.1, rw one refl)
    ]

is_single-loop :
    (k : Sdk) (n target : ℕ) (txids : List String)
    → 1 < n
    → is_single (path_loop k (tree_height n n) 0 target txids target txids) ≡ false
unfolding is_single path_loop tree_height path_level
is_single-loop k zero target txids h = absurd (omega (arith, h))
is_single-loop k (suc n) target txids h = ground (arith, h)

pub path_from-proven_root :
    (k : Sdk) (txids : List String) (i : ℕ) (txid : String)
    → get_elem? txids i ≡ some txid
    → (root : String) × (top_level (length txids) k txids ≡ root ∷ [])
      × (proven_root k i txid (path_from k txids i) ≡ some root)
unfolding proven_root path_from is_single top_level
path_from-proven_root k txids i txid e =
    let (root, top, up) =
      climb-path_loop k (length txids) 0 i txids i txids txid (λ _. refl) e (omega arith) in
    elim (Bool-cases (length txids == 1)) [
      | inl single ↦
          let (_, only) = get_elem?-single txids i txid e (ground arith) in
          (txid, rw only refl, rw single refl)
      | inr several ↦
          let loop =
            is_single-loop k (length txids) i txids (ground (arith, get_elem?-lt txids i txid e)) in
          (root, top, rw (several, loop) up)
    ]
