-- ===== src/Change/Size.antt =====
-- src/storage/methods/utils.ts: serialized sizes, in bytes. Lengths are natural numbers, so the
-- check of `varUintSize` for a negative number has no counterpart.
use wallet_toolbox_rocksdb.Base.{
  ℕ, ◌+◌, ◌≤◌, List, ◌++◌, arith, leb, length, sum_by, if◌then◌else◌, length-append, sum_by-append,
}

pub varuint_size : ℕ → ℕ
varuint_size n =
    if leb n 0xfc then 1 else if leb n 0xffff then 3 else if leb n 0xffffffff then 5 else 9

pub transaction_input_size : ℕ → ℕ
transaction_input_size script_size = 32 + 4 + varuint_size script_size + script_size + 4

pub transaction_output_size : ℕ → ℕ
transaction_output_size script_size = varuint_size script_size + script_size + 8

pub transaction_size : List ℕ → List ℕ → ℕ
transaction_size inputs outputs =
    4
    + varuint_size (length inputs)
    + sum_by transaction_input_size inputs
    + varuint_size (length outputs)
    + sum_by transaction_output_size outputs
    + 4

varuint_size_mono : (m n : ℕ) → m ≤ n → varuint_size m ≤ varuint_size n
unfolding varuint_size
varuint_size_mono m n h = ground arith

-- Adding inputs and outputs behind those of a transaction makes it larger by at least the sum of the
-- sizes of what is added.
pub transaction_size-append :
    (is os js ks : List ℕ)
    → transaction_size is os + sum_by transaction_input_size js + sum_by transaction_output_size ks
      ≤ transaction_size (is ++ js) (os ++ ks)
unfolding transaction_size
transaction_size-append is os js ks = omega (
  arith,
  varuint_size_mono (length is) (length (is ++ js)) (omega (arith, length-append is js)),
  varuint_size_mono (length os) (length (os ++ ks)) (omega (arith, length-append os ks)),
  sum_by-append transaction_input_size is js,
  sum_by-append transaction_output_size os ks,
)

-- What a computation of a size unfolds.
unfoldable pub size_runs : Unit {0}
unfolding varuint_size transaction_input_size transaction_output_size transaction_size
size_runs = tt
