-- ===== src/Merkle/Levels.antt =====
-- Facts about one level of the tree of merkleTree.ts: its size, its elements, and the two ways the
-- code writes a hash.
use wallet_toolbox_rocksdb.Base.{
  ℕ, zero, suc, ◌+◌, ◌/◌, ◌%◌, ◌≤◌, ◌<◌, ◌⊎◌, inl, inr, List, [], ◌∷◌, map, some, arith, length,
  get_elem?, ◌≡◌, refl,
}
use wallet_toolbox_rocksdb.Merkle.{next_level}

pub length-next_level :
    {A : Type 0} (c : A → A → A) (xs : List A) → length (next_level c xs) ≡ (length xs + 1) / 2
unfolding next_level
length-next_level c [] = omega arith
length-next_level c (x ∷ []) = omega arith
length-next_level c (x ∷ y ∷ rest) = omega (arith, length-next_level c rest)

half_step : (i : ℕ) → suc (suc i) / 2 ≡ suc (i / 2)
half_step i = omega arith

after_two : (i : ℕ) → suc (suc i) + 1 ≡ suc (suc (i + 1))
after_two i = omega arith

-- The parent of the element at an odd index, and of one at an even index.
pub next_level-odd :
    {A : Type 0} (c : A → A → A) (xs : List A) (i : ℕ) (x : A)
    → get_elem? xs (suc i) ≡ some x
    → i % 2 ≡ 0
    → (y : A) × (get_elem? xs i ≡ some y) × (get_elem? (next_level c xs) (suc i / 2) ≡ some (c y x))
unfolding next_level
next_level-odd c [] i x e even = absurd (ground arith)
next_level-odd c (a ∷ []) i x e even = absurd (ground arith)
next_level-odd c (a ∷ b ∷ rest) zero x e even = (a, refl, cc)
next_level-odd c (a ∷ b ∷ rest) (suc zero) x e even = absurd (omega (arith, even))
next_level-odd c (a ∷ b ∷ rest) (suc (suc i)) x e even =
    let (y, g, r) = next_level-odd c rest i x e (omega (arith, even)) in
    (y, g, rw (half_step (suc i)) r)

pub next_level-even :
    {A : Type 0} (c : A → A → A) (xs : List A) (i : ℕ) (x : A)
    → get_elem? xs i ≡ some x
    → i % 2 ≡ 0
    → ((length xs ≤ i + 1) × (get_elem? (next_level c xs) (i / 2) ≡ some (c x x)))
      ⊎ ((y : A) × (i + 1 < length xs)
          × (get_elem? xs (i + 1) ≡ some y)
          × (get_elem? (next_level c xs) (i / 2) ≡ some (c x y)))
unfolding next_level
next_level-even c [] i x e even = absurd (ground arith)
next_level-even c (a ∷ []) zero x e even = inl (omega arith, cc)
next_level-even c (a ∷ []) (suc i) x e even = absurd (ground arith)
next_level-even c (a ∷ b ∷ rest) zero x e even = inr (b, omega arith, refl, cc)
next_level-even c (a ∷ b ∷ rest) (suc zero) x e even = absurd (omega (arith, even))
next_level-even c (a ∷ b ∷ rest) (suc (suc i)) x e even =
    elim (next_level-even c rest i x e (omega (arith, even))) [
      | inl (n, r) ↦ inl (omega (arith, n), rw (half_step i) r)
      | inr (y, n, g, r) ↦ inr (y, omega (arith, n), rw (after_two i) g, rw (half_step i) r)
    ]

pub map-next_level :
    {A B : Type 0} (f : A → B) (c : A → A → A) (d : B → B → B)
    → ((a b : A) → f (c a b) ≡ d (f a) (f b))
    → (xs : List A) → map f (next_level c xs) ≡ next_level d (map f xs)
unfolding next_level
map-next_level f c d h [] = refl
map-next_level f c d h (x ∷ []) = rw (h x x) refl
map-next_level f c d h (x ∷ y ∷ rest) = rw (h x y, map-next_level f c d h rest) refl
