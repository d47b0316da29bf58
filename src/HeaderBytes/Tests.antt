-- ===== src/HeaderBytes/Tests.antt =====
-- Runs of blockHeaderUtilities.ts, and instances of what is proved of it.
use wallet_toolbox_rocksdb.Base.{
  ℕ, zero, suc, ◌+◌, ◌-◌, ◌*◌, ◌/◌, ◌^◌, ◌<◌, true, false, none, some, Option, length, List, [],
  ◌∷◌, ◌≡◌, refl, arith,
}
use wallet_toolbox_rocksdb.Base.Int.{pos, negsuc}
use wallet_toolbox_rocksdb.ChainWork.{convert_bits_to_target, convert_bits_to_work, add_work}
use wallet_toolbox_rocksdb.ChainWork.Exact.{convert_bits_to_work-exact}
use wallet_toolbox_rocksdb.HeaderBytes.{
  Sdk, to_int32, byte_at, low_bytes, BaseBlockHeader, convert_uint32_to_buffer,
  convert_buffer_to_uint32, write_uint32_le, write_uint32_be, read_uint32_le, read_uint32_be,
  serialize_base_block_headers, deserialize_base_block_headers, validate_buffer_of_headers, ok,
  is_dirty,
}
use wallet_toolbox_rocksdb.HeaderBytes.Words.{
  convert_buffer_to_uint32-convert_uint32_to_buffer, convert_buffer_to_uint32_negative,
  read_uint32-write_uint32,
}
use wallet_toolbox_rocksdb.HeaderBytes.Codec.{
  IsCodec, IsHash, IsPlain, deserialize_headers-serialize_headers,
}
use wallet_toolbox_rocksdb.HeaderBytes.Linked.{
  Follows, hash_before, work_of, validate_buffer_of_headers-accepts,
  validate_buffer_of_headers-Follows,
}

abbrev flip_bits : ℕ → ℕ → ℕ
flip_bits n width = 2 ^ width - 1 - n

convert_bits_to_work-exact_example :
    convert_bits_to_work flip_bits 0x1d00ffff ≡ 2 ^ 256 / (convert_bits_to_target 0x1d00ffff + 1)
unfolding convert_bits_to_target
convert_bits_to_work-exact_example =
    convert_bits_to_work-exact flip_bits 0x1d00ffff (λ n width small. omega arith) (omega arith)

convert_buffer_to_uint32-convert_uint32_to_buffer_example :
    convert_buffer_to_uint32 (convert_uint32_to_buffer 0x12345678 false) false ≡ pos 0x12345678
convert_buffer_to_uint32-convert_uint32_to_buffer_example =
    convert_buffer_to_uint32-convert_uint32_to_buffer 0x12345678 false (omega arith)

convert_buffer_to_uint32_negative_example :
    convert_buffer_to_uint32 (convert_uint32_to_buffer 0xfffffffe true) true ≡ negsuc 1
convert_buffer_to_uint32_negative_example =
    convert_buffer_to_uint32_negative 0xfffffffe true (omega arith) (omega arith)

read_uint32-write_uint32_example :
    (read_uint32_le (write_uint32_le 7 (0 ∷ (0 ∷ (0 ∷ (0 ∷ (0 ∷ []))))) 1).0 1 ≡ to_int32 7)
    × (read_uint32_be (write_uint32_be 7 (0 ∷ (0 ∷ (0 ∷ (0 ∷ (0 ∷ []))))) 1).0 1 ≡ to_int32 7)
read_uint32-write_uint32_example =
    read_uint32-write_uint32 7 1 (0 ∷ (0 ∷ (0 ∷ (0 ∷ (0 ∷ []))))) (omega arith) (omega arith)

abbrev zeros : ℕ → List ℕ
zeros zero = []
zeros (suc n) = 0 ∷ zeros n

-- A toy kit with one hash.
abbrev kit : Sdk
kit = record {
  write_u32 = λ n. low_bytes n;
  read_u32 =
      λ bs. byte_at bs 0 + byte_at bs 1 * 2 ^ 8 + byte_at bs 2 * 2 ^ 16 + byte_at bs 3 * 2 ^ 24;
  hash_bytes = λ t. zeros 32;
  hash_text = λ bs. "h";
  double_hash = λ bs. "h";
}

kit-IsCodec : IsCodec kit
kit-IsCodec = record { word_length = λ n. refl; word_back = λ n small. omega arith }

h-IsHash : IsHash kit "h"
h-IsHash = record { hash_length = refl; hash_back = refl }

abbrev sample : BaseBlockHeader
sample = record {
  version = 1;
  previous_hash = "h";
  merkle_root = "h";
  time = 5;
  bits = 0x207fffff;
  nonce = 9;
}

sample-IsPlain : IsPlain kit sample
sample-IsPlain = record {
  version_small = omega arith;
  time_small = omega arith;
  bits_small = omega arith;
  nonce_small = omega arith;
  previous_hash_plain = h-IsHash;
  merkle_root_plain = h-IsHash;
}

deserialize_headers-serialize_headers_example :
    (buffer : List ℕ) × (serialize_base_block_headers kit (sample ∷ (sample ∷ [])) ≡ some buffer)
    × (length buffer ≡ 160)
    × (deserialize_base_block_headers kit buffer 0 none ≡ sample ∷ (sample ∷ []))
deserialize_headers-serialize_headers_example =
    deserialize_headers-serialize_headers kit kit-IsCodec (sample ∷ (sample ∷ []))
      (sample-IsPlain, (sample-IsPlain, tt))

abbrev or_empty : Option (List ℕ) → List ℕ
or_empty none = []
or_empty (some buffer) = buffer

abbrev two : List ℕ
unfolding serialize_base_block_headers
two = or_empty (serialize_base_block_headers kit (sample ∷ (sample ∷ [])))

two_accepted :
    validate_buffer_of_headers kit flip_bits two "h" 0 none (some 10)
    ≡ ok (record { last_header_hash = "h"; last_chain_work = some 14 })
unfolding validate_buffer_of_headers serialize_base_block_headers convert_bits_to_work add_work
two_accepted = refl

two_follow : (j : ℕ) → j < 2 → Follows kit flip_bits two 0 j (hash_before kit flip_bits two 0 "h" j)
unfolding serialize_base_block_headers is_dirty
two_follow zero lt = (omega arith, refl, refl)
two_follow (suc zero) lt = (omega arith, refl, refl)
two_follow (suc (suc j)) lt = absurd (omega arith)

validate_buffer_of_headers-accepts_example :
    validate_buffer_of_headers kit flip_bits two "h" 0 (some 2) (some 10)
    ≡ ok (record {
      last_header_hash = "h";
      last_chain_work = some (10 + work_of kit flip_bits two 0 2 0);
    })
validate_buffer_of_headers-accepts_example =
    validate_buffer_of_headers-accepts kit flip_bits two 0 "h" 2 10 two_follow

two_run :
    validate_buffer_of_headers kit flip_bits two "h" 0 (some 2) none
    ≡ ok (record { last_header_hash = "h"; last_chain_work = none })
unfolding validate_buffer_of_headers serialize_base_block_headers
two_run = refl

validate_buffer_of_headers-Follows_example : Follows kit flip_bits two 0 1 "h"
validate_buffer_of_headers-Follows_example =
    validate_buffer_of_headers-Follows kit flip_bits two 0 "h" 2 none
      (record { last_header_hash = "h"; last_chain_work = none }) two_run 1 (omega arith)
