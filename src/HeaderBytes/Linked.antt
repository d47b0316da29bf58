-- ===== src/HeaderBytes/Linked.antt =====
-- What `validateBufferOfHeaders` accepts: headers that link up.
use Prim.Native.String.{String}
use text.Mathlib.Text.{◌==◌ as str_eq}
use text.Mathlib.TextEquality.{eq_iff}
use wallet_toolbox_rocksdb.Base.{
  ℕ, zero, suc, ◌+◌, ◌*◌, ◌≤◌, ◌<◌, true, false, Option, some, List, length, ltb, ◌≡◌, refl, sym,
  ap, ◌∙◌, inl, inr, arith, ltb→ge, Bool-cases, subst, ◌==◌, ==_iff, ◌≢◌,
}
use wallet_toolbox_rocksdb.ChainWork.{convert_bits_to_work, add_work}
use wallet_toolbox_rocksdb.HeaderBytes.{
  Sdk, slice, deserialize_base_block_header, is_dirty, ok, Validated, more_work, validate_loop,
  validate_buffer_of_headers,
}

same_validated :
    (v : Validated) (hash : String) (work : Option ℕ)
    → v.last_header_hash ≡ hash
    → v.last_chain_work ≡ work
    → v ≡ record { last_header_hash = hash; last_chain_work = work }
same_validated v hash work e f = cc

module _ (K : Sdk) (notn : ℕ → ℕ → ℕ) (buffer : List ℕ) (offset : ℕ) where
  -- The bytes of the `j`th header.
  abbrev pub header : ℕ → List ℕ
  header j = slice (offset + j * 80) 80 buffer

  abbrev pub bits_of : ℕ → ℕ
  bits_of j = K.read_u32 (slice 72 4 (header j))

  -- The `j`th header is whole, names the hash `previous`, and is not refused by its own.
  abbrev pub Follows : (j : ℕ) → (previous : String) → Type 0
  Follows j previous =
      (offset + j * 80 + 80 ≤ length buffer)
      × (K.hash_text (slice 4 32 (header j)) ≡ previous)
      × (is_dirty (K.double_hash (header j)) ≡ false)

  -- The hash before the `j`th header, where the first follows `previous`.
  abbrev pub hash_before : String → ℕ → String
  hash_before previous zero = previous
  hash_before previous (suc j) = K.double_hash (header j)

  -- The work of `rounds` headers from the `i`th on.
  abbrev pub work_of : (rounds i : ℕ) → ℕ
  work_of zero i = 0
  work_of (suc rounds) i = convert_bits_to_work notn (bits_of i) + work_of rounds (i + 1)

  before-suc : (previous : String) (i : ℕ) → hash_before previous (i + 1) ≡ K.double_hash (header i)
  before-suc previous i = ground arith

  abbrev advance : ℕ → Validated → Validated
  advance i v = record {
    last_header_hash = K.double_hash (header i);
    last_chain_work = more_work K notn v.last_chain_work (bits_of i);
  }

  step_on :
      (rounds i : ℕ) (v : Validated)
      → Follows i v.last_header_hash
      → validate_loop K notn (suc rounds) i buffer offset v
        ≡ validate_loop K notn rounds (i + 1) buffer offset (advance i v)
  unfolding validate_loop deserialize_base_block_header
  step_on rounds i v (whole, named, clean) =
      let inside : ltb (length buffer) (offset + i * 80 + 80) ≡ false = ground arith in
      let same : str_eq v.last_header_hash (K.hash_text (slice 4 32 (header i))) ≡ true =
        (eq_iff _ _).1 (sym named) in
      rw (validate_loop, inside, same, clean) refl

  validate_loop-Follows :
      (rounds i : ℕ) (v v' : Validated)
      → validate_loop K notn (suc rounds) i buffer offset v ≡ ok v'
      → Follows i v.last_header_hash
  unfolding validate_loop deserialize_base_block_header
  validate_loop-Follows rounds i v v' run =
      elim (Bool-cases (ltb (length buffer) (offset + i * 80 + 80))) [
        | inl short ↦ let bad = rw (validate_loop, short) at run in cc
        | inr inside ↦
            elim (Bool-cases (str_eq v.last_header_hash (K.hash_text (slice 4 32 (header i))))) [
              | inr other ↦ let bad = rw (validate_loop, inside, other) at run in cc
              | inl same ↦ elim (Bool-cases (is_dirty (K.double_hash (header i)))) [
                | inl dirty ↦ let bad = rw (validate_loop, inside, same, dirty) at run in cc
                | inr clean ↦ (ltb→ge _ _ inside, sym ((eq_iff _ _).0 same), clean)
              ]
            ]
      ]

  -- The state after `rounds` headers from the `i`th on.
  abbrev state_after : (rounds i : ℕ) → Validated → Validated
  state_after zero i v = v
  state_after (suc rounds) i v = state_after rounds (i + 1) (advance i v)

  validate_loop-ok :
      (rounds i : ℕ) (previous : String) (v : Validated)
      → v.last_header_hash ≡ hash_before previous i
      → ((j : ℕ) → i ≤ j → j < i + rounds → Follows j (hash_before previous j))
      → validate_loop K notn rounds i buffer offset v ≡ ok (state_after rounds i v)
  unfolding validate_loop
  validate_loop-ok zero i previous v at_i all = refl
  validate_loop-ok (suc rounds) i previous v at_i all =
      let here : Follows i v.last_header_hash =
        subst (Follows i) (sym at_i) (all i (omega arith) (omega arith)) in
      step_on rounds i v here
      ∙ validate_loop-ok rounds (i + 1) previous (advance i v) (sym (before-suc previous i))
          (λ j lo hi. all j (omega (arith, lo)) (omega (arith, hi)))

  ok-validate_loop :
      (rounds i : ℕ) (previous : String) (v v' : Validated)
      → v.last_header_hash ≡ hash_before previous i
      → validate_loop K notn rounds i buffer offset v ≡ ok v'
      → (j : ℕ) → i ≤ j
      → j < i + rounds
      → Follows j (hash_before previous j)
  ok-validate_loop zero i previous v v' at_i run j lo hi = absurd (omega (arith, lo, hi))
  ok-validate_loop (suc rounds) i previous v v' at_i run j lo hi =
      let here = validate_loop-Follows rounds i v v' run in
      let next = advance i v in
      elim (Bool-cases (i == j)) [
        | inl at_j ↦
            let same : i ≡ j = (==_iff _ _).0 at_j in
            subst (λ k. Follows k (hash_before previous k)) same (subst (Follows i) at_i here)
        | inr later ↦
            let above : i ≢ j = λ same. let r : ⊥ = ground arith in r in
            ok-validate_loop rounds (i + 1) previous next v' (sym (before-suc previous i))
              (sym (step_on rounds i v here) ∙ run) j (omega (arith, above, lo)) (omega (arith, hi))
      ]

  state_after-hash :
      (rounds i : ℕ) (previous : String) (v : Validated)
      → v.last_header_hash ≡ hash_before previous i
      → (state_after rounds i v).last_header_hash ≡ hash_before previous (i + rounds)
  state_after-hash zero i previous v at_i = at_i ∙ ap (hash_before previous) (omega arith)
  state_after-hash (suc rounds) i previous v at_i =
      state_after-hash rounds (i + 1) previous (advance i v) (sym (before-suc previous i))
      ∙ ap (hash_before previous) (omega arith)

  state_after-work :
      (rounds i : ℕ) (v : Validated) (w : ℕ)
      → v.last_chain_work ≡ some w
      → (state_after rounds i v).last_chain_work ≡ some (w + work_of rounds i)
  unfolding add_work
  state_after-work zero i v w at_w = at_w ∙ ap some (omega arith)
  state_after-work (suc rounds) i v w at_w =
      let more = w + convert_bits_to_work notn (bits_of i) in
      let step : more_work K notn v.last_chain_work (bits_of i) ≡ some more = rw at_w refl in
      state_after-work rounds (i + 1) (advance i v) more step ∙ ap some (omega arith)

  -- Headers that are whole, each naming the hash of the one before it and the first `previous`, none
  -- of them with a dirty hash, are accepted; the result is the hash of the last one and the work of
  -- all added to that before them.
  pub validate_buffer_of_headers-accepts :
      (previous : String) (rounds work : ℕ)
      → ((j : ℕ) → j < rounds → Follows j (hash_before previous j))
      → validate_buffer_of_headers K notn buffer previous offset (some rounds) (some work)
        ≡ ok (record {
          last_header_hash = hash_before previous rounds;
          last_chain_work = some (work + work_of rounds 0);
        })
  unfolding validate_buffer_of_headers
  validate_buffer_of_headers-accepts previous rounds work all =
      let start : Validated = record { last_header_hash = previous; last_chain_work = some work } in
      validate_loop-ok rounds 0 previous start refl (λ j lo hi. all j (omega (arith, hi)))
      ∙ ap ok (
          same_validated (state_after rounds 0 start) (hash_before previous rounds)
            (some (work + work_of rounds 0))
            (state_after-hash rounds 0 previous start refl
              ∙ ap (hash_before previous) (omega arith))
            (state_after-work rounds 0 start work refl))

  -- Headers that are accepted, with a chain work or without, are whole, each names the hash of the
  -- one before it and the first `previous`, and none of them has a dirty hash.
  pub validate_buffer_of_headers-Follows :
      (previous : String) (rounds : ℕ) (work : Option ℕ) (v : Validated)
      → validate_buffer_of_headers K notn buffer previous offset (some rounds) work ≡ ok v
      → (j : ℕ) → j < rounds
      → Follows j (hash_before previous j)
  unfolding validate_buffer_of_headers
  validate_buffer_of_headers-Follows previous rounds work v run j lt =
      let start : Validated = record { last_header_hash = previous; last_chain_work = work } in
      ok-validate_loop rounds 0 previous start v refl run j (omega arith) (omega (arith, lt))
