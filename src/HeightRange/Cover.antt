-- ===== src/HeightRange/Cover.antt =====
-- The set of heights that a range stands for, and the operations of HeightRange.ts on it.
use wallet_toolbox_rocksdb.Base.{◌≡◌, ◌≢◌, ◌⊎◌, ◌↔◌, inl, inr, true, false, arith}
use wallet_toolbox_rocksdb.Base.Int.{
  ℤ, pos, ◌+ℤ◌, ◌-ℤ◌, ◌≤ℤ◌, ◌<ℤ◌, min_ℤ, max_ℤ, +ℤ_parts, -ℤ_parts, int_laws,
}
use wallet_toolbox_rocksdb.HeightRange.{
  HeightRange, range, is_empty, intersect, ok, err, union_with_gap, unhandled_case,
  two_disjoint_ranges, union, subtract, above,
}

-- Height `h` lies in the range.
abbrev pub Covers : HeightRange → ℤ → Type 0
Covers r h = (r.min_height ≤ℤ h) × (h ≤ℤ r.max_height)

-- A height lies in the intersection of two ranges exactly when it lies in both.
pub intersect-Covers :
    (r s : HeightRange) (h : ℤ) → Covers (intersect r s) h ↔ (Covers r h × Covers s h)
unfolding intersect
intersect-Covers r s h = (λ c. ground arith, λ c. ground arith)

not-Covers_of_is_empty : (r : HeightRange) (h : ℤ) → is_empty r ≡ true → ¬ Covers r h
unfolding is_empty
not-Covers_of_is_empty r h e c = ground arith

-- A range is empty exactly when it has no height: otherwise its own lower end is one.
pub is_empty_iff : (r : HeightRange) → (is_empty r ≡ true) ↔ ((h : ℤ) → ¬ Covers r h)
unfolding is_empty
is_empty_iff r = (λ e h c. ground arith, λ all. ground (arith, all r.min_height))

pub union_cases :
    (r s u : HeightRange)
    → union r s ≡ ok u
    → ((r.max_height <ℤ r.min_height) × (u ≡ s))
      ⊎ ((s.max_height <ℤ s.min_height) × (u ≡ r))
      ⊎ ((r.min_height ≤ℤ r.max_height)
          × (s.min_height ≤ℤ s.max_height)
          × (s.min_height ≤ℤ r.max_height +ℤ pos 1)
          × (r.min_height ≤ℤ s.max_height +ℤ pos 1)
          × (u ≡ range (min_ℤ r.min_height s.min_height) (max_ℤ r.max_height s.max_height)))
unfolding union
union_cases r s u e = ground arith

merged-Covers :
    (r s : HeightRange) (h : ℤ)
    → r.min_height ≤ℤ r.max_height
    → s.min_height ≤ℤ s.max_height
    → s.min_height ≤ℤ r.max_height +ℤ pos 1
    → r.min_height ≤ℤ s.max_height +ℤ pos 1
    → Covers (range (min_ℤ r.min_height s.min_height) (max_ℤ r.max_height s.max_height)) h
      ↔ (Covers r h ⊎ Covers s h)
merged-Covers r s h a b c d = (
  λ x. ground (arith, +ℤ_parts r.max_height (pos 1), +ℤ_parts s.max_height (pos 1)),
  λ x. ground arith,
)

-- Where the union of two ranges is defined, a height lies in it exactly when it lies in one of them.
pub union-Covers :
    (r s u : HeightRange) (h : ℤ) → union r s ≡ ok u → Covers u h ↔ (Covers r h ⊎ Covers s h)
union-Covers r s u h e = elim (union_cases r s u e) [
  | inl (a, p) ↦ rw p (λ c. inr c, λ c. omega arith)
  | inr (inl (a, p)) ↦ rw p (λ c. inl c, λ c. omega arith)
  | inr (inr (a, b, c, d, p)) ↦ rw p (merged-Covers r s h a b c d)
]

-- The union is refused exactly when neither range is empty and one ends at least two heights below
-- the start of the other.
pub union-err_iff :
    (r s : HeightRange)
    → (union r s ≡ err union_with_gap) ↔ (
        (is_empty r ≡ false)
        × (is_empty s ≡ false)
        × ((r.max_height +ℤ pos 1 <ℤ s.min_height) ⊎ (s.max_height +ℤ pos 1 <ℤ r.min_height)))
unfolding union is_empty
union-err_iff r s = (λ e. ground arith, λ h. ground arith)

Outside : HeightRange → ℤ → Type 0
Outside s h = (h <ℤ s.min_height) ⊎ (s.max_height <ℤ h)

not-Covers→Outside : (s : HeightRange) (h : ℤ) → ¬ Covers s h → Outside s h
unfolding Outside
not-Covers→Outside s h n = ground arith

subtract_cases :
    (r s u : HeightRange)
    → subtract r s ≡ ok u
    → (((r.max_height <ℤ r.min_height)
          ⊎ (s.max_height <ℤ s.min_height)
          ⊎ (s.max_height <ℤ r.min_height)
          ⊎ (r.max_height <ℤ s.min_height))
        × (u ≡ r))
      ⊎ ((s.min_height ≤ℤ r.min_height)
          × (s.max_height <ℤ r.max_height)
          × (r.min_height ≤ℤ s.max_height)
          × (u ≡ range (s.max_height +ℤ pos 1) r.max_height))
      ⊎ ((s.min_height ≤ℤ r.min_height)
          × (r.max_height ≤ℤ s.max_height)
          × (u ≡ range r.min_height (r.min_height -ℤ pos 1)))
      ⊎ ((r.min_height <ℤ s.min_height)
          × (s.min_height ≤ℤ r.max_height)
          × (r.max_height ≤ℤ s.max_height)
          × (u ≡ range r.min_height (s.min_height -ℤ pos 1)))
unfolding subtract
subtract_cases r s u e = ground arith

-- Where the subtraction of `s` from `r` is defined, a height lies in the result exactly when it lies
-- in `r` and not in `s`.
pub subtract-Covers :
    (r s u : HeightRange) (h : ℤ) → subtract r s ≡ ok u → Covers u h ↔ (Covers r h × (¬ Covers s h))
unfolding Outside
subtract-Covers r s u h e =
    let out = not-Covers→Outside s h in
    elim (subtract_cases r s u e) [
      | inl (a, p) ↦ rw p (λ c. (c, λ d. omega arith), λ c. c.0)
      | inr (inl (a, b, c, p)) ↦
          rw p (λ x. (omega int_laws, λ d. omega int_laws), λ x. omega (int_laws, out x.1))
      | inr (inr (inl (a, b, p))) ↦
          rw p (λ x. (omega int_laws, λ d. omega int_laws), λ x. omega (int_laws, out x.1))
      | inr (inr (inr (a, b, c, p))) ↦
          rw p (λ x. (omega int_laws, λ d. omega int_laws), λ x. omega (int_laws, out x.1))
    ]

-- The subtraction is refused exactly when `s` is not empty, starts above the start of `r` and ends
-- below its end; the last throw of the source is never reached.
pub subtract-err_iff :
    (r s : HeightRange)
    → ((subtract r s ≡ err two_disjoint_ranges)
        ↔ ((is_empty s ≡ false) × (r.min_height <ℤ s.min_height) × (s.max_height <ℤ r.max_height)))
      × (subtract r s ≢ err unhandled_case)
unfolding subtract is_empty
subtract-err_iff r s = ((λ e. ground arith, λ h. ground arith), ground arith)

-- Where neither range is empty and `s` starts no higher than `r` ends, a height lies in `above r s`
-- exactly when it is above the end of `s` and no higher than the end of `r`.
pub above-Covers :
    (r s : HeightRange) (h : ℤ)
    → is_empty r ≡ false
    → is_empty s ≡ false
    → s.min_height ≤ℤ r.max_height
    → Covers (above r s) h ↔ ((h ≤ℤ r.max_height) × (s.max_height <ℤ h))
unfolding above
above-Covers r s h e f l = (
  λ c. ground (
    arith,
    +ℤ_parts s.max_height (pos 1),
    -ℤ_parts s.min_height (pos 1),
    -ℤ_parts r.min_height (pos 1),
  ),
  λ c. ground (
    arith,
    +ℤ_parts s.max_height (pos 1),
    -ℤ_parts s.min_height (pos 1),
    -ℤ_parts r.min_height (pos 1),
  ),
)
