-- ===== src/ChainWork/Exact.antt =====
-- What the chain work of a difficulty target amounts to.
use native.Mathlib.Nat.{div-eq-sub-div}
use wallet_toolbox_rocksdb.Base.{ℕ, ◌+◌, ◌-◌, ◌/◌, ◌^◌, ◌<◌, ◌≡◌, sym, ap, ◌∙◌, arith}
use wallet_toolbox_rocksdb.ChainWork.{convert_bits_to_target, convert_bits_to_work}

-- The work of a target below 2 ^ 256 is 2 ^ 256 divided by the target and one, rounded down, where
-- `notn` flips the lowest bits of a number of that width.
pub convert_bits_to_work-exact :
    (notn : ℕ → ℕ → ℕ) (bits : ℕ)
    → ((n width : ℕ) → n < 2 ^ width → notn n width + n + 1 ≡ 2 ^ width)
    → convert_bits_to_target bits < 2 ^ 256
    → convert_bits_to_work notn bits ≡ 2 ^ 256 / (convert_bits_to_target bits + 1)
unfolding convert_bits_to_work
convert_bits_to_work-exact notn bits flips small =
    let t = convert_bits_to_target bits in
    let flipped = flips t 256 small in
    let off : 2 ^ 256 - (t + 1) ≡ notn t 256 = omega (arith, flipped) in
    sym (
      div-eq-sub-div {m = t + 1} {n = 2 ^ 256} (omega arith) (omega (arith, small))
      ∙ ap (λ n. n / (t + 1) + 1) off)
