-- ===== src/HeightRange/Tests.antt =====
-- Runs of the model of HeightRange.ts, and its theorems at concrete ranges.
use wallet_toolbox_rocksdb.Base.{ℕ, ◌≡◌, refl, ◌⊎◌, ◌↔◌, false, [], ◌∷◌}
use wallet_toolbox_rocksdb.Base.Int.{pos, ◌+ℤ◌, ◌-ℤ◌, ◌<ℤ◌}
use wallet_toolbox_rocksdb.BlockHeader.{BlockHeader}
use wallet_toolbox_rocksdb.HeightRange.{
  HeightRange, range, empty, is_empty, from, length, intersect, union, subtract, ok, err,
  union_with_gap, two_disjoint_ranges, unhandled_case, min_from, max_from,
}
use wallet_toolbox_rocksdb.HeightRange.Cover.{
  Covers, intersect-Covers, union-Covers, union-err_iff, subtract-Covers, subtract-err_iff,
}
use wallet_toolbox_rocksdb.HeightRange.Algebra.{length-union}

abbrev header_at : ℕ → BlockHeader
header_at n = record {
  version = 1;
  previous_hash = "p";
  merkle_root = "m";
  time = 0;
  bits = 0;
  nonce = 0;
  height = n;
  hash = "h";
}

abbrev low : HeightRange
low = range (pos 3) (pos 9)

abbrev high : HeightRange
high = range (pos 8) (pos 12)

HeightRange_tests :
    (union low high ≡ ok (range (pos 3) (pos 12)))
    × (union (range (pos 0) (pos 1)) high ≡ err union_with_gap)
    × (subtract low high ≡ ok (range (pos 3) (pos 7)))
    × (subtract low (range (pos 4) (pos 5)) ≡ err two_disjoint_ranges)
    × (intersect low high ≡ range (pos 8) (pos 9))
    × (length low ≡ pos 7)
    × (length empty ≡ pos 0)
    × (from (header_at 5 ∷ header_at 2 ∷ header_at 7 ∷ []) ≡ range (pos 2) (pos 7))
unfolding union subtract intersect length from min_from max_from ◌+ℤ◌ ◌-ℤ◌
HeightRange_tests = (refl, refl, refl, refl, refl, refl, refl, refl)

union-Covers_example :
    Covers (range (pos 3) (pos 12)) (pos 10) ↔ (Covers low (pos 10) ⊎ Covers high (pos 10))
union-Covers_example = union-Covers low high (range (pos 3) (pos 12)) (pos 10) HeightRange_tests.0

intersect-Covers_example :
    Covers (intersect low high) (pos 8) ↔ (Covers low (pos 8) × Covers high (pos 8))
intersect-Covers_example = intersect-Covers low high (pos 8)

subtract-Covers_example :
    Covers (range (pos 3) (pos 7)) (pos 5) ↔ (Covers low (pos 5) × (¬ Covers high (pos 5)))
subtract-Covers_example =
    subtract-Covers low high (range (pos 3) (pos 7)) (pos 5) HeightRange_tests.2

subtract-err_iff_example :
    ((subtract low high ≡ err two_disjoint_ranges)
      ↔ ((is_empty high ≡ false) × (pos 3 <ℤ pos 8) × (pos 12 <ℤ pos 9)))
    × (¬ (subtract low high ≡ err unhandled_case))
subtract-err_iff_example = subtract-err_iff low high

union-err_iff_example : (union low high ≡ err union_with_gap) ↔ (
    (is_empty low ≡ false)
    × (is_empty high ≡ false)
    × ((pos 9 +ℤ pos 1 <ℤ pos 8) ⊎ (pos 12 +ℤ pos 1 <ℤ pos 3)))
union-err_iff_example = union-err_iff low high

length-union_example :
    length (range (pos 3) (pos 12)) +ℤ length (intersect low high) ≡ length low +ℤ length high
length-union_example = length-union low high (range (pos 3) (pos 12)) HeightRange_tests.0
