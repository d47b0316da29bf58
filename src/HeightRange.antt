-- ===== src/HeightRange.antt =====
-- src/services/chaintracker/chaintracks/util/HeightRange.ts: ranges of block heights.
-- A height is a signed integer, since the empty range is (0, -1). A method that throws returns a
-- `Result`; the messages of the errors are its constructors.
pub mod Cover
pub mod Algebra
pub mod Tests
use wallet_toolbox_rocksdb.Base.{ℕ, Bool, ◌&&◌, ◌||◌, List, [], ◌∷◌, if◌then◌else◌}
use wallet_toolbox_rocksdb.Base.Int.{ℤ, pos, negsuc, ◌+ℤ◌, ◌-ℤ◌, leb_ℤ, ltb_ℤ, min_ℤ, max_ℤ}
use wallet_toolbox_rocksdb.BlockHeader.{BlockHeader}

pub record HeightRange : Type 0 where
  pub min_height : ℤ
  pub max_height : ℤ

pub data RangeError : Type 0 where
  union_with_gap two_disjoint_ranges unhandled_case : RangeError

pub data Result : Type 0 where
  ok : HeightRange → Result
  err : RangeError → Result

abbrev pub range : ℤ → ℤ → HeightRange
range lo hi = record { min_height = lo; max_height = hi }

abbrev pub empty : HeightRange
empty = range (pos 0) (negsuc 0)

unfoldable pub is_empty : HeightRange → Bool
is_empty r = ltb_ℤ r.max_height r.min_height

-- The two `reduce` calls of `from`, each from the first header's height.
min_from : ℤ → List BlockHeader → ℤ
min_from m [] = m
min_from m (h ∷ hs) = min_from (min_ℤ m (pos h.height)) hs

max_from : ℤ → List BlockHeader → ℤ
max_from m [] = m
max_from m (h ∷ hs) = max_from (max_ℤ m (pos h.height)) hs

pub from : List BlockHeader → HeightRange
from [] = empty
from (h ∷ hs) = range (min_from (pos h.height) (h ∷ hs)) (max_from (pos h.height) (h ∷ hs))

-- The number of heights in the range.
pub length : HeightRange → ℤ
length r = max_ℤ (pos 0) (r.max_height -ℤ r.min_height +ℤ pos 1)

-- `contains` at a single height, and at a range.
pub contains_height : HeightRange → ℤ → Bool
contains_height r h = leb_ℤ r.min_height h && leb_ℤ h r.max_height

pub contains : HeightRange → HeightRange → Bool
contains r s = leb_ℤ r.min_height s.min_height && leb_ℤ s.max_height r.max_height

abbrev pub copy : HeightRange → HeightRange
copy r = range r.min_height r.max_height

pub intersect : HeightRange → HeightRange → HeightRange
intersect r s = range (max_ℤ r.min_height s.min_height) (min_ℤ r.max_height s.max_height)

pub union : HeightRange → HeightRange → Result
unfolding is_empty
union r s =
    if is_empty r
    then ok (copy s)
    else if is_empty s
    then ok (copy r)
    else if ltb_ℤ (r.max_height +ℤ pos 1) s.min_height || ltb_ℤ (s.max_height +ℤ pos 1) r.min_height
    then err union_with_gap
    else ok (range (min_ℤ r.min_height s.min_height) (max_ℤ r.max_height s.max_height))

pub subtract : HeightRange → HeightRange → Result
unfolding is_empty
subtract r s =
    if is_empty r || is_empty s
    then ok (copy r)
    else if ltb_ℤ r.min_height s.min_height && ltb_ℤ s.max_height r.max_height
    then err two_disjoint_ranges
    else if ltb_ℤ s.max_height r.min_height || ltb_ℤ r.max_height s.min_height
    then ok (copy r)
    else if leb_ℤ s.min_height r.min_height && ltb_ℤ s.max_height r.max_height
    then ok (range (s.max_height +ℤ pos 1) r.max_height)
    else if leb_ℤ s.min_height r.min_height && leb_ℤ r.max_height s.max_height
    then ok (range r.min_height (r.min_height -ℤ pos 1))
    else if leb_ℤ s.min_height r.max_height && leb_ℤ r.max_height s.max_height
    then ok (range r.min_height (s.min_height -ℤ pos 1))
    else err unhandled_case

pub above : HeightRange → HeightRange → HeightRange
unfolding is_empty
above r s = if is_empty s || is_empty r then copy r else range (s.max_height +ℤ pos 1) r.max_height
