-- ===== src/HeaderBytes/Codec.antt =====
-- Serialised block headers in blockHeaderUtilities.ts read back as what they were.
use Prim.Native.String.{String}
use mathlib.Core.List.{append_assoc}
use wallet_toolbox_rocksdb.Base.{
  ℕ, zero, suc, ◌+◌, ◌*◌, ◌^◌, ◌≤◌, ◌<◌, true, false, none, some, List, [], ◌∷◌, ◌++◌, length, take,
  All, leb, ◌≡◌, refl, sym, ap, ◌∙◌, arith, length-append,
}
use wallet_toolbox_rocksdb.HeaderBytes.{
  Sdk, drop, BaseBlockHeader, serialize_base_block_header, deserialize_base_block_header, zeros,
  set_bytes, set_headers, serialize_base_block_headers, deserialize_loop,
  deserialize_base_block_headers,
}

take-append : (xs ys : List ℕ) → take (length xs) (xs ++ ys) ≡ xs
take-append [] ys = refl
take-append (x ∷ xs) ys = ap (λ zs. x ∷ zs) (take-append xs ys)

drop-append : (xs ys : List ℕ) → drop (length xs) (xs ++ ys) ≡ ys
drop-append [] ys = refl
drop-append (x ∷ xs) ys = drop-append xs ys

drop-nil : (n : ℕ) → drop n [] ≡ []
drop-nil zero = refl
drop-nil (suc n) = refl

drop-drop : (m n : ℕ) (bs : List ℕ) → drop (m + n) bs ≡ drop n (drop m bs)
drop-drop zero n bs = ap (λ k. drop k bs) (omega arith)
drop-drop (suc m) n [] = drop-nil (suc m + n) ∙ sym (drop-nil n)
drop-drop (suc m) n (b ∷ bs) =
    let next : suc m + n ≡ suc (m + n) = omega arith in
    ap (λ k. drop k (b ∷ bs)) next ∙ drop-drop m n bs

length-zeros : (n : ℕ) → length (zeros n) ≡ n
unfolding zeros
length-zeros zero = refl
length-zeros (suc n) = omega (arith, length-zeros n)

zeros-add : (m n : ℕ) → zeros (m + n) ≡ zeros m ++ zeros n
unfolding zeros
zeros-add zero n = ap zeros (omega arith)
zeros-add (suc m) n =
    let next : suc m + n ≡ suc (m + n) = omega arith in
    ap zeros next ∙ ap (λ bs. 0 ∷ bs) (zeros-add m n)

-- What the code relies on of the SDK: a number of 32 bits is four bytes and reads back.
pub record IsCodec (K : Sdk) : Type 0 where
  pub word_length : (n : ℕ) → length (K.write_u32 n) ≡ 4
  pub word_back : (n : ℕ) → n < 2 ^ 32 → K.read_u32 (K.write_u32 n) ≡ n

-- The text is the hexadecimal form of a hash of 32 bytes.
pub record IsHash (K : Sdk) (hash : String) : Type 0 where
  pub hash_length : length (K.hash_bytes hash) ≡ 32
  pub hash_back : K.hash_text (K.hash_bytes hash) ≡ hash

-- The header has numbers of 32 bits and hashes.
pub record IsPlain (K : Sdk) (h : BaseBlockHeader) : Type 0 where
  pub version_small : h.version < 2 ^ 32
  pub time_small : h.time < 2 ^ 32
  pub bits_small : h.bits < 2 ^ 32
  pub nonce_small : h.nonce < 2 ^ 32
  pub previous_hash_plain : IsHash K h.previous_hash
  pub merkle_root_plain : IsHash K h.merkle_root

same_header :
    (g h : BaseBlockHeader)
    → g.version ≡ h.version
    → g.previous_hash ≡ h.previous_hash
    → g.merkle_root ≡ h.merkle_root
    → g.time ≡ h.time
    → g.bits ≡ h.bits
    → g.nonce ≡ h.nonce
    → g ≡ h
same_header g h a b c d e f = cc

module _ (K : Sdk) (c : IsCodec K) where
  -- A field of `n` bytes in front of others.
  take_field : (n : ℕ) (xs ys bs : List ℕ) → length xs ≡ n → bs ≡ xs ++ ys → take n bs ≡ xs
  take_field n xs ys bs len e =
      ap (take n) e ∙ ap (λ k. take k (xs ++ ys)) (sym len) ∙ take-append xs ys

  drop_field : (n : ℕ) (xs ys bs : List ℕ) → length xs ≡ n → bs ≡ xs ++ ys → drop n bs ≡ ys
  drop_field n xs ys bs len e =
      ap (drop n) e ∙ ap (λ k. drop k (xs ++ ys)) (sym len) ∙ drop-append xs ys

  pub length-serialize :
      (h : BaseBlockHeader) → IsPlain K h → length (serialize_base_block_header K h) ≡ 80
  unfolding serialize_base_block_header
  length-serialize h p =
      let v = K.write_u32 h.version in
      let q = K.hash_bytes h.previous_hash in
      let m = K.hash_bytes h.merkle_root in
      let t = K.write_u32 h.time in
      let b = K.write_u32 h.bits in
      let n = K.write_u32 h.nonce in
      omega (
        arith,
        length-append v (q ++ (m ++ (t ++ (b ++ n)))),
        length-append q (m ++ (t ++ (b ++ n))),
        length-append m (t ++ (b ++ n)),
        length-append t (b ++ n),
        length-append b n,
        c.word_length h.version,
        p.previous_hash_plain.hash_length,
        p.merkle_root_plain.hash_length,
        c.word_length h.time,
        c.word_length h.bits,
        c.word_length h.nonce,
      )

  -- The next field, after one of `n` bytes that starts at `at`.
  next_field :
      (offset n : ℕ) (buffer xs ys : List ℕ)
      → length xs ≡ n
      → drop offset buffer ≡ xs ++ ys
      → drop (offset + n) buffer ≡ ys
  next_field offset n buffer xs ys len e =
      drop-drop offset n buffer ∙ drop_field n xs ys (drop offset buffer) len e

  pub deserialize-serialize :
      (h : BaseBlockHeader) (buffer rest : List ℕ) (offset : ℕ)
      → IsPlain K h
      → drop offset buffer ≡ serialize_base_block_header K h ++ rest
      → deserialize_base_block_header K buffer offset ≡ h
  unfolding serialize_base_block_header deserialize_base_block_header
  deserialize-serialize h buffer rest offset p e =
      let v = K.write_u32 h.version in
      let q = K.hash_bytes h.previous_hash in
      let m = K.hash_bytes h.merkle_root in
      let t = K.write_u32 h.time in
      let b = K.write_u32 h.bits in
      let n = K.write_u32 h.nonce in
      let r₄ = b ++ (n ++ rest) in
      let r₃ = t ++ r₄ in
      let r₂ = m ++ r₃ in
      let r₁ = q ++ r₂ in
      let e₀ : drop offset buffer ≡ v ++ r₁ = e ∙ simp append_assoc in
      let e₁ : drop (offset + 4) buffer ≡ r₁ =
        next_field offset 4 buffer v r₁ (c.word_length h.version) e₀ in
      let e₂ : drop (offset + 36) buffer ≡ r₂ =
        ap (λ z. drop z buffer) (omega arith)
        ∙ next_field (offset + 4) 32 buffer q r₂ p.previous_hash_plain.hash_length e₁ in
      let e₃ : drop (offset + 68) buffer ≡ r₃ =
        ap (λ z. drop z buffer) (omega arith)
        ∙ next_field (offset + 36) 32 buffer m r₃ p.merkle_root_plain.hash_length e₂ in
      let e₄ : drop (offset + 72) buffer ≡ r₄ =
        ap (λ z. drop z buffer) (omega arith)
        ∙ next_field (offset + 68) 4 buffer t r₄ (c.word_length h.time) e₃ in
      let e₅ : drop (offset + 76) buffer ≡ n ++ rest =
        ap (λ z. drop z buffer) (omega arith)
        ∙ next_field (offset + 72) 4 buffer b (n ++ rest) (c.word_length h.bits) e₄ in
      same_header (deserialize_base_block_header K buffer offset) h
        (ap K.read_u32 (take_field 4 v r₁ (drop offset buffer) (c.word_length h.version) e₀)
          ∙ c.word_back h.version p.version_small)
        (ap K.hash_text
            (take_field 32 q r₂ (drop (offset + 4) buffer) p.previous_hash_plain.hash_length e₁)
          ∙ p.previous_hash_plain.hash_back)
        (ap K.hash_text
            (take_field 32 m r₃ (drop (offset + 36) buffer) p.merkle_root_plain.hash_length e₂)
          ∙ p.merkle_root_plain.hash_back)
        (ap K.read_u32 (take_field 4 t r₄ (drop (offset + 68) buffer) (c.word_length h.time) e₃)
          ∙ c.word_back h.time p.time_small)
        (ap K.read_u32
            (take_field 4 b (n ++ rest) (drop (offset + 72) buffer) (c.word_length h.bits) e₄)
          ∙ c.word_back h.bits p.bits_small)
        (ap K.read_u32 (take_field 4 n rest (drop (offset + 76) buffer) (c.word_length h.nonce) e₅)
          ∙ c.word_back h.nonce p.nonce_small)

  -- The bytes of the headers, one behind the other.
  abbrev joined : List BaseBlockHeader → List ℕ
  joined [] = []
  joined (h ∷ hs) = serialize_base_block_header K h ++ joined hs

  length-serialize_headers :
      (hs : List BaseBlockHeader) → All (IsPlain K) hs → length (joined hs) ≡ 80 * length hs
  length-serialize_headers [] p = refl
  length-serialize_headers (h ∷ hs) p =
      let first = serialize_base_block_header K h in
      omega (
        arith,
        length-append first (joined hs),
        length-serialize h p.0,
        length-serialize_headers hs p.1,
      )

  loop-serialize :
      (hs : List BaseBlockHeader) (fuel : ℕ) (buffer : List ℕ) (offset taken : ℕ)
      → All (IsPlain K) hs
      → drop offset buffer ≡ joined hs
      → length buffer ≡ offset + 80 * length hs
      → length hs ≤ fuel
      → deserialize_loop K fuel none buffer offset taken ≡ hs
  unfolding deserialize_loop
  loop-serialize [] zero buffer offset taken p e len le = refl
  loop-serialize [] (suc fuel) buffer offset taken p e len le =
      let ends : leb (offset + 80) (length buffer) ≡ false = ground arith in
      rw (deserialize_loop, ends) refl
  loop-serialize (h ∷ hs) zero buffer offset taken p e len le = absurd (omega arith)
  loop-serialize (h ∷ hs) (suc fuel) buffer offset taken p e len le =
      let more : leb (offset + 80) (length buffer) ≡ true = ground arith in
      let first = deserialize-serialize h buffer (joined hs) offset p.0 e in
      let behind =
        next_field offset 80 buffer (serialize_base_block_header K h) (joined hs)
          (length-serialize h p.0) e in
      let rest =
        loop-serialize hs fuel buffer (offset + 80) (taken + 1) p.1 behind (omega (arith, len))
          (omega (arith, le)) in
      rw (deserialize_loop, more, first, rest) refl

  -- The bytes that are written over those of the same number behind `done`.
  set_bytes-over :
      (bytes done old rest : List ℕ) (offset : ℕ)
      → length done ≡ offset
      → length old ≡ length bytes
      → set_bytes bytes offset (done ++ (old ++ rest)) ≡ some (done ++ (bytes ++ rest))
  unfolding set_bytes
  set_bytes-over bytes done old rest offset at same =
      let fits : leb (offset + length bytes) (length (done ++ (old ++ rest))) ≡ true =
        ground (arith, length-append done (old ++ rest), length-append old rest) in
      let front = take_field offset done (old ++ rest) (done ++ (old ++ rest)) at refl in
      let behind =
        next_field offset (length bytes) (done ++ (old ++ rest)) old rest same
          (drop_field offset done (old ++ rest) (done ++ (old ++ rest)) at refl) in
      rw (fits, front, behind) refl

  set_headers-step :
      (h : BaseBlockHeader) (hs : List BaseBlockHeader) (i : ℕ) (buffer : List ℕ) {filled : List ℕ}
      → set_bytes (serialize_base_block_header K h) (i * 80) buffer ≡ some filled
      → set_headers K i (h ∷ hs) buffer ≡ set_headers K (i + 1) hs filled
  unfolding set_headers
  set_headers-step h hs i buffer written = rw (set_headers, written) refl

  -- The loop fills the buffer.
  set_headers-fills :
      (hs : List BaseBlockHeader) (i : ℕ) (done : List ℕ)
      → All (IsPlain K) hs
      → length done ≡ i * 80
      → set_headers K i hs (done ++ zeros (length hs * 80)) ≡ some (done ++ joined hs)
  unfolding set_headers zeros
  set_headers-fills [] i done p at = refl
  set_headers-fills (h ∷ hs) i done p at =
      let bytes = serialize_base_block_header K h in
      let len = length-serialize h p.0 in
      let split : zeros (length (h ∷ hs) * 80) ≡ zeros 80 ++ zeros (length hs * 80) =
        ap zeros (omega arith) ∙ zeros-add 80 (length hs * 80) in
      let written =
        set_bytes-over bytes done (zeros 80) (zeros (length hs * 80)) (i * 80) at
          (length-zeros 80 ∙ sym len) in
      let regroup : done ++ (bytes ++ zeros (length hs * 80))
          ≡ (done ++ bytes) ++ zeros (length hs * 80) =
        simp append_assoc in
      let rest =
        set_headers-fills hs (i + 1) (done ++ bytes) p.1
          (omega (arith, length-append done bytes, len, at)) in
      let back : (done ++ bytes) ++ joined hs ≡ done ++ (bytes ++ joined hs) = simp append_assoc in
      ap (λ zs. set_headers K i (h ∷ hs) (done ++ zs)) split
      ∙ set_headers-step h hs i (done ++ (zeros 80 ++ zeros (length hs * 80))) written
      ∙ ap (set_headers K (i + 1) hs) regroup
      ∙ rest
      ∙ ap some back

  -- Headers of 32-bit numbers and 32-byte hashes are written to 80 bytes each, and are read back from
  -- them, all of them and in order, where the SDK writes and reads numbers of 32 bits as four bytes.
  pub deserialize_headers-serialize_headers :
      (hs : List BaseBlockHeader)
      → All (IsPlain K) hs
      → (buffer : List ℕ) × (serialize_base_block_headers K hs ≡ some buffer)
        × (length buffer ≡ 80 * length hs)
        × (deserialize_base_block_headers K buffer 0 none ≡ hs)
  unfolding serialize_base_block_headers deserialize_base_block_headers
  deserialize_headers-serialize_headers hs p =
      let len = length-serialize_headers hs p in
      (
        joined hs,
        set_headers-fills hs 0 [] p refl,
        len,
        loop-serialize hs (length (joined hs)) (joined hs) 0 0 p refl (omega (arith, len))
            (omega (arith, len)),
      )
