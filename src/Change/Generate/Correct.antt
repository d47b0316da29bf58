-- ===== src/Change/Generate/Correct.antt =====
-- `generateChangeSdk` of src/storage/methods/generateChange.ts as a whole: its three outcomes.
use mathlib.Core.List.{reverse}
use wallet_toolbox_rocksdb.Base.{
  ℕ, ◌+◌, ◌<◌, ◌^◌, ◌≡◌, refl, ap, ◌⊎◌, inl, inr, true, ◌&&◌, Option, none, some, List, [], ◌++◌,
  map, arith, length, All, sum_by, Bool-cases, Option-cases, ◌==◌,
}
use wallet_toolbox_rocksdb.Base.Int.{ℤ, pos, pos_part, ◌+ℤ◌, ◌-ℤ◌, ◌≤ℤ◌, ltb_ℤ}
use wallet_toolbox_rocksdb.Change.Data.{
  ChangeInput, ChangeOutput, Params, Adjustment, Generated, invalid_parameter, insufficient_funds,
  ok, err, ◌>>=◌, Doubles, Sdk, Allocator,
}
use wallet_toolbox_rocksdb.Change.Size.{transaction_size}
use wallet_toolbox_rocksdb.Change.Funding.{
  Setup, Draft, setup, spending, size, fee, fee_target, fee_excess, initial_outputs,
  fund_transaction, sum_ℤ, satoshis_of, replicate,
}
use wallet_toolbox_rocksdb.Change.Funding.Funded.{IsViable, initial_outputs_lem}
use wallet_toolbox_rocksdb.Change.Funding.Loops.{
  Held, start, Inv, release_allocated_lem, fund_transaction_total,
}
use wallet_toolbox_rocksdb.Change.Funding.Amounts.{fee_of_spread, size_of_result, balance_of_result}
use wallet_toolbox_rocksdb.Change.Settle.{Rng, distribute_excess_fees, result_is_valid}
use wallet_toolbox_rocksdb.Change.Settle.Settled.{
  Grew-length, Grew-floor, distribute_excess_fees_total, distribute_excess_fees_none,
  result_is_valid_lem, remove_dust_outputs_lem,
}
use wallet_toolbox_rocksdb.Change.Generate.{
  validate_params, with_satoshis, fail_underfunded, fail_without_change, require_funds, settle,
  generate_change_sdk,
}
use wallet_toolbox_rocksdb.Change.Generate.Adjust.{validate_params-HasMax, adjust_cases}

-- What a result promises, over the setup `c` in force at the end: the fee is exactly the one for
-- its size, nothing is lost between inputs and outputs, no change output is below the dust floor,
-- and the storage has exactly the listed inputs taken from `first`.
pub record IsCorrect {S : Type 0} (D : Doubles) (A : Allocator S) (c : Setup) (first : S)
    (r : Generated) (s : S) : Type 0 where
  pub exact_fee : r.fee ≡ pos (D.fee_for r.size c.sats_per_kb)
  pub sized :
      r.size
      ≡ transaction_size
          (map (λ i. i.unlocking_script_length) c.params.fixed_inputs
            ++ replicate (length r.allocated_change_inputs) c.params.change_unlocking_script_length)
          (map (λ o. o.locking_script_length) c.params.fixed_outputs
            ++ replicate (length r.change_outputs) c.params.change_locking_script_length)
  pub balance :
      pos (
        sum_by (λ i. i.satoshis) c.params.fixed_inputs
        + sum_by (λ i. i.satoshis) r.allocated_change_inputs)
      ≡ sum_ℤ c.params.fixed_outputs +ℤ pos (satoshis_of r.change_outputs) +ℤ r.fee
  pub viable : IsViable c r.change_outputs
  pub stack : List ChangeInput
  pub listed : r.allocated_change_inputs ≡ reverse stack
  pub held : Held A first stack s

nonneg_pos : (z : ℤ) → pos 0 ≤ℤ z → z ≡ pos (pos_part z)
nonneg_pos z h = ground arith

spare :
    (z : ℤ) (os : List ChangeOutput)
    → (0 < length os) ⊎ (z ≡ pos 0)
    → (0 < length os) ⊎ (pos_part z ≡ 0)
spare z os (inl h) = inl h
spare z os (inr h) = inr (ap pos_part h)

module _ (D : Doubles) (K : Sdk) {S : Type 0} (A : Allocator S) (first : S) where
  require_funds_cases :
      (c : Setup) (d : Draft S)
      → Inv D A c first d
      → ((t m : ℤ) × (require_funds D A c d ≡ err (insufficient_funds t m first)))
        ⊎ ((require_funds D A c d ≡ ok d)
            × (pos 0 ≤ℤ fee_excess D c d 0 0)
            × ((0 < length d.outputs) ⊎ (fee_excess D c d 0 0 ≡ pos 0)))
  unfolding require_funds
  require_funds_cases c d v = elim (Bool-cases (ltb_ℤ (fee_excess D c d 0 0) (pos 0))) [
    | inl short ↦ inl (
      spending c +ℤ pos (fee_target D c d 0 0),
      pos 0 -ℤ fee_excess D c d 0 0,
      rw (short, fail_underfunded, release_allocated_lem D A c first d v, ◌>>=◌),
    )
    | inr enough ↦
        elim (Bool-cases (length d.outputs == 0 && ltb_ℤ (pos 0) (fee_excess D c d 0 0))) [
          | inl bare ↦ inl (
            spending c +ℤ pos (fee_target D c (record d { storage = first; allocated = [] }) 0 0),
            pos c.params.change_first_satoshis,
            rw (enough, bare, fail_without_change, release_allocated_lem D A c first d v, ◌>>=◌),
          )
          | inr fine ↦ inr (rw (enough, fine), ground arith, ground arith)
        ]
  ]

  -- Spreading what a funded draft has in excess, over its outputs.
  spread_total :
      (c : Setup) (d : Draft S) (e : ℕ)
      → All (λ v. v < 2 ^ 32) c.params.random_vals
      → (0 < length d.outputs) ⊎ (e ≡ 0)
      → (ps : List ChangeOutput) × (distribute_excess_fees D K e c.params.change_initial_satoshis
            d.outputs e
            (record { vals = c.params.random_vals; drawn = 0 })
          ≡ some (ps, 0))
        × (satoshis_of ps ≡ satoshis_of d.outputs + e)
        × (length ps ≡ length d.outputs)
        × (IsViable c d.outputs → IsViable c ps)
  spread_total c d e f (inl h) =
      let (ps, eq, s, g) =
        distribute_excess_fees_total K D e c.params.change_initial_satoshis d.outputs e
          (record { vals = c.params.random_vals; drawn = 0 }) h (omega arith) f in
      let l = Grew-length d.outputs ps g in
      (
        ps,
        eq,
        s,
        l,
        λ v. record { floor = Grew-floor c.dust_floor d.outputs ps g v.floor; count = omega arith },
      )
  spread_total c d e f (inr h) =
      let g : Rng = record { vals = c.params.random_vals; drawn = 0 } in
      (
        d.outputs,
        rw h (distribute_excess_fees_none D K c.params.change_initial_satoshis d.outputs g),
        omega arith,
        refl,
        λ v. v,
      )

  settle_lem :
      (c : Setup) (a : Option Adjustment) (d : Draft S)
      → Inv D A c first d
      → All (λ v. v < 2 ^ 32) c.params.random_vals
      → pos 0 ≤ℤ fee_excess D c d 0 0
      → (0 < length d.outputs) ⊎ (fee_excess D c d 0 0 ≡ pos 0)
      → (r : Generated) × (settle D K c a d ≡ ok (r, d.storage))
        × IsCorrect D A c first r d.storage
        × (r.adjustment ≡ a)
  unfolding settle
  settle_lem c a d v f h k =
      let e = pos_part (fee_excess D c d 0 0) in
      let excess_eq : fee_excess D c d 0 0 ≡ pos e = nonneg_pos _ h in
      let (ps, eq, s, l, w) = spread_total c d e f (spare _ d.outputs k) in
      let v' = w v.viable in
      let d' = record d { outputs = ps } in
      let dust = remove_dust_outputs_lem (length ps) c.dust_floor ps (omega arith) v'.floor in
      let exact = fee_of_spread D c d ps e excess_eq s l in
      let balance = balance_of_result D c d' in
      let r : Generated = record {
        allocated_change_inputs = reverse d.allocated;
        change_outputs = ps;
        size = size c d' 0 0;
        fee = fee D c d';
        sats_per_kb = c.sats_per_kb;
        adjustment = a;
      } in
      let valid : result_is_valid D c.params r ≡ true =
        result_is_valid_lem D c.params r exact balance in
      (
        r,
        rw (eq, settle, dust, valid),
        record {
          exact_fee = exact;
          sized = size_of_result D c d';
          balance = balance;
          viable = v';
          stack = d.allocated;
          listed = refl;
          held = v.held;
        },
        refl,
      )

-- The setup at the end: that of the parameters, or the one in which the output that asks for the
-- most possible has `v` satoshis instead.
abbrev pub IsFinal : Doubles → Params → ℕ → Option ℕ → Setup → Option Adjustment → Type 0
IsFinal D p rate found c a =
    ((c ≡ setup D p rate) × (a ≡ none))
    ⊎ ((i : ℕ) × (v : ℤ) × (found ≡ some i)
        × (c ≡ with_satoshis (setup D p rate) i v)
        × (a ≡ some (record { fixed_output_index = i; satoshis = v })))

module _ (D : Doubles) (K : Sdk) {S : Type 0} (A : Allocator S) (first : S) where
  finish :
      (c : Setup) (a : Option Adjustment) (d : Draft S)
      → Inv D A c first d
      → All (λ v. v < 2 ^ 32) c.params.random_vals
      → ((t m : ℤ) × ((require_funds D A c d >>= settle D K c a)
            ≡ err (insufficient_funds t m first)))
        ⊎ ((r : Generated) × ((require_funds D A c d >>= settle D K c a) ≡ ok (r, d.storage))
            × IsCorrect D A c first r d.storage
            × (r.adjustment ≡ a))
  finish c a d v f = elim (require_funds_cases D K A first c d v) [
    | inl (t, m, e) ↦ inl (t, m, rw (e, ◌>>=◌))
    | inr (e, h, k) ↦
        let (r, e', w, b) = settle_lem D K A first c a d v f h k in inr (r, rw (e, ◌>>=◌) e', w, b)
  ]

  -- The draft before the first allocation, and the one after funding.
  funded :
      (c : Setup)
      → (d : Draft S) × (fund_transaction D A c (
            initial_outputs D c.max_outputs c
              (record { storage = first; allocated = []; outputs = [] }))
          ≡ ok d)
        × Inv D A c first d
  funded c =
      let d₀ : Draft S = record { storage = first; allocated = []; outputs = [] } in
      let (v, st, al) =
        initial_outputs_lem D c c.max_outputs d₀ (record { floor = tt; count = omega arith }) in
      let none_held : Held A first [] first = start in
      fund_transaction_total D A c first (initial_outputs D c.max_outputs c d₀)
        (record { held = rw (st, al) none_held; viable = v })

  -- For callbacks of which each release undoes the latest allocation and only finitely many
  -- allocations succeed, and given random values that are fractions below one: every call ends in
  -- one of three ways. The parameters are refused; or the funds do not suffice, and the storage is
  -- as it was; or the result has exactly the fee of its size, funding equal to spending, change and
  -- fee, no more change outputs than the cap and none below the dust floor, with the storage in
  -- which just the listed inputs are taken; and the fixed outputs are those given, but for the
  -- satoshis of the one that asks for the most possible.
  pub generate_change_sdk_total :
      (p : Params)
      → All (λ v. v < 2 ^ 32) p.random_vals
      → ((validate_params K p ≡ none) × (generate_change_sdk D K A p first ≡ err invalid_parameter))
        ⊎ ((t m : ℤ) × (generate_change_sdk D K A p first ≡ err (insufficient_funds t m first)))
        ⊎ ((r : Generated) × (s : S) × (rate : ℕ) × (found : Option ℕ) × (c : Setup)
            × (generate_change_sdk D K A p first ≡ ok (r, s))
            × (validate_params K p ≡ some (rate, found))
            × IsCorrect D A c first r s
            × IsFinal D p rate found c r.adjustment)
  unfolding generate_change_sdk setup
  generate_change_sdk_total p f = elim (Option-cases (validate_params K p)) [
    | inl refused ↦ inl (refused, rw (refused, generate_change_sdk))
    | inr ((rate, found), valid) ↦
        let c = setup D p rate in
        let (d, e, v) = funded c in
        elim (adjust_cases D c found d (λ j h. validate_params-HasMax K p rate j found valid h)) [
          | inl kept ↦ elim (finish c none d v f) [
            | inl (t, m, e') ↦ inr (inl (t, m, rw (valid, generate_change_sdk, e, ◌>>=◌, kept) e'))
            | inr (r, e', w, b) ↦ inr (
                inr (
                  r,
                  d.storage,
                  rate,
                  found,
                  c,
                  rw (valid, generate_change_sdk, e, ◌>>=◌, kept) e',
                  valid,
                  w,
                  inl (refl, b),
                ))
          ]
          | inr (i, x, moved, at, short, amount) ↦
              let c' = with_satoshis c i x in
              let v' : Inv D A c' first d = record {
                held = v.held;
                viable = record { floor = v.viable.floor; count = v.viable.count };
              } in
              let a : Option Adjustment = some (record { fixed_output_index = i; satoshis = x }) in
              elim (finish c' a d v' f) [
                | inl (t, m, e') ↦
                    inr (inl (t, m, rw (valid, generate_change_sdk, e, ◌>>=◌, moved) e'))
                | inr (r, e', w, b) ↦ inr (
                    inr (
                      r,
                      d.storage,
                      rate,
                      found,
                      c',
                      rw (valid, generate_change_sdk, e, ◌>>=◌, moved) e',
                      valid,
                      w,
                      inr (i, x, at, refl, b),
                    ))
              ]
        ]
  ]
