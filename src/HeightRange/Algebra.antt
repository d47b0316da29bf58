-- ===== src/HeightRange/Algebra.antt =====
-- Containment, counting and hulls of the ranges of HeightRange.ts.
use wallet_toolbox_rocksdb.Base.{
  ◌+◌, ◌≡◌, ap, ◌⊎◌, ◌↔◌, inl, inr, true, false, List, [], ◌∷◌, arith, All,
}
use wallet_toolbox_rocksdb.Base.Int.{
  ℤ, pos, pos_part, neg_part, ◌+ℤ◌, ◌-ℤ◌, ◌≤ℤ◌, ◌<ℤ◌, min_ℤ, max_ℤ, +ℤ_parts, -ℤ_parts, int_laws,
}
use wallet_toolbox_rocksdb.BlockHeader.{BlockHeader}
use wallet_toolbox_rocksdb.HeightRange.{
  HeightRange, range, is_empty, min_from, max_from, from, length, contains_height, contains,
  intersect, ok, union,
}
use wallet_toolbox_rocksdb.HeightRange.Cover.{Covers, union_cases}

contains_height_iff : (r : HeightRange) (h : ℤ) → (contains_height r h ≡ true) ↔ Covers r h
unfolding contains_height
contains_height_iff r h = (λ e. ground arith, λ c. ground arith)

-- For a range `s` that is not empty, `contains` answers true exactly when `contains` at a height
-- answers true for every height of `s`.
pub contains_iff :
    (r s : HeightRange)
    → is_empty s ≡ false
    → (contains r s ≡ true) ↔ ((h : ℤ) → contains_height s h ≡ true → contains_height r h ≡ true)
unfolding contains contains_height is_empty
contains_iff r s e =
    (λ c h d. ground arith, λ all. ground (arith, all s.min_height, all s.max_height))

length_cases :
    (r : HeightRange)
    → ((r.max_height <ℤ r.min_height) × (length r ≡ pos 0))
      ⊎ ((r.min_height ≤ℤ r.max_height) × (length r ≡ r.max_height -ℤ r.min_height +ℤ pos 1))
unfolding length
length_cases r =
    ground
      (arith, -ℤ_parts r.max_height r.min_height, +ℤ_parts (r.max_height -ℤ r.min_height) (pos 1))

-- The length in terms of the two parts of each number, for the arithmetic below.
abbrev Counts : ℤ → ℤ → ℤ → Type 0
Counts lo hi n =
    ((hi <ℤ lo) × (pos_part n ≡ 0) × (neg_part n ≡ 0))
    ⊎ ((lo ≤ℤ hi)
        × (pos_part n + pos_part lo + neg_part hi ≡ neg_part n + pos_part hi + neg_part lo + 1))

length-Counts : (r : HeightRange) → Counts r.min_height r.max_height (length r)
length-Counts r = elim (length_cases r) [
  | inl (a, e) ↦ inl (a, ap pos_part e, ap neg_part e)
  | inr (a, e) ↦ inr (a, rw e (omega int_laws))
]

-- `x` and `y` are the smaller and the larger of `a` and `b`.
abbrev Ordered : ℤ → ℤ → ℤ → ℤ → Type 0
Ordered a b x y =
    ((a ≤ℤ b) × (x ≤ℤ a) × (a ≤ℤ x) × (y ≤ℤ b) × (b ≤ℤ y))
    ⊎ ((b ≤ℤ a) × (x ≤ℤ b) × (b ≤ℤ x) × (y ≤ℤ a) × (a ≤ℤ y))

min_max-Ordered : (a b : ℤ) → Ordered a b (min_ℤ a b) (max_ℤ a b)
min_max-Ordered a b = ground arith

counts_add :
    (a b c d lo hi lo' hi' n m k l : ℤ)
    → Counts a b n
    → Counts c d m
    → Counts lo' hi' l
    → Ordered a c lo lo'
    → Ordered b d hi' hi
    → ((b <ℤ a) × (k ≡ m))
      ⊎ ((d <ℤ c) × (k ≡ n))
      ⊎ ((a ≤ℤ b) × (c ≤ℤ d) × (c ≤ℤ b +ℤ pos 1) × (a ≤ℤ d +ℤ pos 1) × Counts lo hi k)
    → k +ℤ l ≡ n +ℤ m
counts_add a b c d lo hi lo' hi' n m k l p q s t u (inl (v, e)) = rw e (omega int_laws)
counts_add a b c d lo hi lo' hi' n m k l p q s t u (inr (inl (v, e))) = rw e (omega int_laws)
counts_add a b c d lo hi lo' hi' n m k l p q s t u (inr (inr v)) = omega int_laws

-- Where the union of two ranges is defined, its length and that of their intersection add up to the
-- lengths of the two.
pub length-union :
    (r s u : HeightRange)
    → union r s ≡ ok u
    → length u +ℤ length (intersect r s) ≡ length r +ℤ length s
unfolding intersect
length-union r s u e =
    counts_add r.min_height r.max_height s.min_height s.max_height (min_ℤ r.min_height s.min_height)
      (max_ℤ r.max_height s.max_height) (max_ℤ r.min_height s.min_height)
      (min_ℤ r.max_height s.max_height) (length r) (length s) (length u) (length (intersect r s))
      (length-Counts r) (length-Counts s) (length-Counts (intersect r s))
      (min_max-Ordered r.min_height s.min_height) (min_max-Ordered r.max_height s.max_height)
      (elim (union_cases r s u e) [
        | inl (a, p) ↦ inl (a, ap length p)
        | inr (inl (a, p)) ↦ inr (inl (a, ap length p))
        | inr (inr (a, b, c, d, p)) ↦ inr (
            inr (
              a,
              b,
              c,
              d,
              rw p (
                  length-Counts
                    (range (min_ℤ r.min_height s.min_height) (max_ℤ r.max_height s.max_height))),
            ))
      ])

-- The bounds that the loops of `from` keep.
min_from_lem :
    (m : ℤ) (hs : List BlockHeader)
    → (min_from m hs ≤ℤ m) × All (λ h. min_from m hs ≤ℤ pos h.height) hs
unfolding min_from
min_from_lem m [] = (omega arith, tt)
min_from_lem m (h ∷ hs) =
    let (a, b) = min_from_lem (min_ℤ m (pos h.height)) hs in (ground arith, (ground arith, b))

max_from_lem :
    (m : ℤ) (hs : List BlockHeader)
    → (m ≤ℤ max_from m hs) × All (λ h. pos h.height ≤ℤ max_from m hs) hs
unfolding max_from
max_from_lem m [] = (omega arith, tt)
max_from_lem m (h ∷ hs) =
    let (a, b) = max_from_lem (max_ℤ m (pos h.height)) hs in (ground arith, (ground arith, b))

All-both :
    (P Q : BlockHeader → Type 0) (hs : List BlockHeader)
    → All P hs
    → All Q hs
    → All (λ h. P h × Q h) hs
All-both P Q [] p q = tt
All-both P Q (h ∷ hs) p q = ((p.0, q.0), All-both P Q hs p.1 q.1)

-- `from` gives a range that covers the height of every header given.
pub from-Covers : (hs : List BlockHeader) → All (λ h. Covers (from hs) (pos h.height)) hs
unfolding from
from-Covers [] = tt
from-Covers (h ∷ hs) =
    All-both _ _ (h ∷ hs) (min_from_lem (pos h.height) (h ∷ hs)).1
      (max_from_lem (pos h.height) (h ∷ hs)).1
