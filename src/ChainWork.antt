-- ===== src/ChainWork.antt =====
-- Chain work and difficulty targets: src/services/chaintracker/chaintracks/util/blockHeaderUtilities.ts.
-- A chain work, a text of at least 64 hexadecimal digits in the source, is the number that it
-- writes. BigNumber of @bsv/sdk is natural numbers; its bitwise `notn` is a parameter.
use wallet_toolbox_rocksdb.Base.{ℕ, ◌+◌, ◌-◌, ◌*◌, ◌/◌, ◌%◌, ◌^◌, Bool, ltb, leb, if◌then◌else◌}
pub mod Exact

-- `bits` is an unsigned number of 32 bits: 8 bits of exponent, one bit of sign, 23 of mantissa.
unfoldable pub convert_bits_to_target : (bits : ℕ) → ℕ
convert_bits_to_target bits =
    let shift = bits / 2 ^ 24 % 2 ^ 8 in
    let mantissa = bits % 2 ^ 23 in
    if leb shift 3 then mantissa / 2 ^ (8 * (3 - shift)) else mantissa * 2 ^ (8 * (shift - 3))

unfoldable pub add_work : ℕ → ℕ → ℕ
add_work work1 work2 = work1 + work2

unfoldable pub is_more_work : ℕ → ℕ → Bool
is_more_work work1 work2 = ltb work2 work1

module _ (notn : ℕ → ℕ → ℕ) where
  unfoldable pub convert_bits_to_work : (bits : ℕ) → ℕ
  unfolding convert_bits_to_target
  convert_bits_to_work bits =
      let target = convert_bits_to_target bits in notn target 256 / (target + 1) + 1
