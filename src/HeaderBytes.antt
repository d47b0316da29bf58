-- ===== src/HeaderBytes.antt =====
-- Block headers as bytes: src/services/chaintracker/chaintracks/util/blockHeaderUtilities.ts, with
-- the hashes that src/services/chaintracker/chaintracks/util/dirtyHashes.ts refuses. A buffer is a
-- list of bytes. The reader, writer, hash and texts of @bsv/sdk are parameters.
use Prim.Native.String.{String}
use text.Mathlib.Text.{◌==◌ as str_eq}
pub use wallet_toolbox_rocksdb.Base.Results.{ok, err, ◌>>=◌}
use wallet_toolbox_rocksdb.Base.Results.{Fallible}
use wallet_toolbox_rocksdb.Base.{
  ℕ, zero, suc, ◌+◌, ◌-◌, ◌*◌, ◌/◌, ◌%◌, ◌^◌, Bool, true, false, not, ◌&&◌, ◌||◌, Option, none,
  some, List, [], ◌∷◌, ◌++◌, ltb, leb, ◌==◌, if◌then◌else◌, length, take, ◌≡◌,
}
use wallet_toolbox_rocksdb.Base.Int.{ℤ, pos, negsuc}
use wallet_toolbox_rocksdb.BlockHeader.{BlockHeader}
use wallet_toolbox_rocksdb.ChainWork.{add_work, convert_bits_to_work}
pub mod Words
pub mod Codec
pub mod Linked
pub mod Tests

-- A number as the 32-bit signed integer that the bit operators of the language make of it.
abbrev pub to_int32 : ℕ → ℤ
to_int32 n = let r = n % 2 ^ 32 in if ltb r (2 ^ 31) then pos r else negsuc (2 ^ 32 - 1 - r)

-- `a[i]`, where no element reads as 0 under a bit operator.
abbrev pub byte_at : List ℕ → ℕ → ℕ
byte_at [] i = 0
byte_at (b ∷ bs) zero = b
byte_at (b ∷ bs) (suc i) = byte_at bs i

-- The four bytes of an unsigned number of 32 bits, the lowest first.
abbrev pub low_bytes : ℕ → List ℕ
low_bytes n = n % 2 ^ 8 ∷ (n / 2 ^ 8 % 2 ^ 8 ∷ (n / 2 ^ 16 % 2 ^ 8 ∷ (n / 2 ^ 24 % 2 ^ 8 ∷ [])))

abbrev pub high_bytes : ℕ → List ℕ
high_bytes n = n / 2 ^ 24 % 2 ^ 8 ∷ (n / 2 ^ 16 % 2 ^ 8 ∷ (n / 2 ^ 8 % 2 ^ 8 ∷ (n % 2 ^ 8 ∷ [])))

pub convert_uint32_to_buffer : ℕ → (little_endian : Bool) → List ℕ
convert_uint32_to_buffer n little_endian = if little_endian then low_bytes n else high_bytes n

-- A write to a typed array, which drops what falls outside.
pub write_bytes : List ℕ → (offset : ℕ) → List ℕ → List ℕ
write_bytes new offset [] = []
write_bytes [] zero (b ∷ bs) = b ∷ bs
write_bytes (v ∷ new) zero (b ∷ bs) = v ∷ write_bytes new zero bs
write_bytes new (suc offset) (b ∷ bs) = b ∷ write_bytes new offset bs

-- The new buffer and the offset after the number.
pub write_uint32_le : ℕ → List ℕ → (offset : ℕ) → List ℕ × ℕ
unfolding write_bytes
write_uint32_le n a offset = (write_bytes (low_bytes n) offset a, offset + 4)

pub write_uint32_be : ℕ → List ℕ → (offset : ℕ) → List ℕ × ℕ
unfolding write_bytes
write_uint32_be n a offset = (write_bytes (high_bytes n) offset a, offset + 4)

-- Four bytes joined by shifts and `|`: a signed integer.
pub read_uint32_le : List ℕ → (offset : ℕ) → ℤ
read_uint32_le a offset = to_int32 (
    byte_at a offset
    + byte_at a (offset + 1) * 2 ^ 8
    + byte_at a (offset + 2) * 2 ^ 16
    + byte_at a (offset + 3) * 2 ^ 24)

pub read_uint32_be : List ℕ → (offset : ℕ) → ℤ
read_uint32_be a offset = to_int32 (
    byte_at a offset * 2 ^ 24
    + byte_at a (offset + 1) * 2 ^ 16
    + byte_at a (offset + 2) * 2 ^ 8
    + byte_at a (offset + 3))

abbrev reverse_bytes : List ℕ → List ℕ → List ℕ
reverse_bytes [] out = out
reverse_bytes (b ∷ bs) out = reverse_bytes bs (b ∷ out)

pub swap_byte_order : List ℕ → List ℕ
swap_byte_order bytes = reverse_bytes bytes []

pub convert_buffer_to_uint32 : List ℕ → (little_endian : Bool) → ℤ
unfolding read_uint32_le swap_byte_order
convert_buffer_to_uint32 bytes little_endian =
    read_uint32_le (if little_endian then bytes else swap_byte_order bytes) 0

-- `BaseBlockHeader`.
pub record BaseBlockHeader : Type 0 where
  pub version : ℕ
  pub previous_hash : String
  pub merkle_root : String
  pub time : ℕ
  pub bits : ℕ
  pub nonce : ℕ

-- `new Uint8Array(n)`.
pub zeros : ℕ → List ℕ
zeros zero = []
zeros (suc n) = 0 ∷ zeros n

-- What the code takes from @bsv/sdk: the bytes of a number of 32 bits and the number of four bytes,
-- the bytes of a hexadecimal text and the text of bytes, each hash reversed, and the hash of a header
-- as a text.
pub record Sdk : Type 0 where
  pub write_u32 : ℕ → List ℕ
  pub read_u32 : List ℕ → ℕ
  pub hash_bytes : String → List ℕ
  pub hash_text : List ℕ → String
  pub double_hash : List ℕ → String

abbrev pub drop : ℕ → List ℕ → List ℕ
drop zero bs = bs
drop (suc n) [] = []
drop (suc n) (b ∷ bs) = drop n bs

-- `data.set(bytes, offset)`, which throws where the bytes would go over the end.
pub set_bytes : (bytes : List ℕ) → (offset : ℕ) → (buffer : List ℕ) → Option (List ℕ)
set_bytes bytes offset buffer =
    if leb (offset + length bytes) (length buffer)
    then some (take offset buffer ++ (bytes ++ drop (offset + length bytes) buffer))
    else none

-- `buffer.slice(offset, offset + count)`.
abbrev pub slice : (offset count : ℕ) → List ℕ → List ℕ
slice offset count bs = take count (drop offset bs)

module _ (K : Sdk) where
  pub serialize_base_block_header : BaseBlockHeader → List ℕ
  serialize_base_block_header h =
      K.write_u32 h.version
      ++ (K.hash_bytes h.previous_hash
          ++ (K.hash_bytes h.merkle_root
              ++ (K.write_u32 h.time ++ (K.write_u32 h.bits ++ K.write_u32 h.nonce))))

  -- The reader starts at `offset` and goes on by what it reads.
  pub deserialize_base_block_header : List ℕ → (offset : ℕ) → BaseBlockHeader
  deserialize_base_block_header buffer offset = record {
    version = K.read_u32 (slice offset 4 buffer);
    previous_hash = K.hash_text (slice (offset + 4) 32 buffer);
    merkle_root = K.hash_text (slice (offset + 36) 32 buffer);
    time = K.read_u32 (slice (offset + 68) 4 buffer);
    bits = K.read_u32 (slice (offset + 72) 4 buffer);
    nonce = K.read_u32 (slice (offset + 76) 4 buffer);
  }

  -- The loop, from the header at `i`.
  pub set_headers : (i : ℕ) → List BaseBlockHeader → (buffer : List ℕ) → Option (List ℕ)
  unfolding serialize_base_block_header set_bytes
  set_headers i [] buffer = some buffer
  set_headers i (h ∷ hs) buffer = elim (set_bytes (serialize_base_block_header h) (i * 80) buffer) [
    | none ↦ none
    | some filled ↦ set_headers (i + 1) hs filled
  ]

  -- None where `set` throws.
  pub serialize_base_block_headers : List BaseBlockHeader → Option (List ℕ)
  unfolding set_headers zeros
  serialize_base_block_headers hs = set_headers 0 hs (zeros (length hs * 80))

  -- The test of the loops: a count of 0, like none, is no limit.
  abbrev goes_on : (count : Option ℕ) → (taken offset : ℕ) → List ℕ → Bool
  goes_on none taken offset buffer = leb (offset + 80) (length buffer)
  goes_on (some count) taken offset buffer =
      (count == 0 || ltb taken count) && leb (offset + 80) (length buffer)

  -- `offset` grows by 80 in each round, up to the length of the buffer.
  pub deserialize_loop :
      (fuel : ℕ) → (count : Option ℕ) → List ℕ → (offset taken : ℕ) → List BaseBlockHeader
  unfolding deserialize_base_block_header
  deserialize_loop zero count buffer offset taken = []
  deserialize_loop (suc fuel) count buffer offset taken = elim (goes_on count taken offset buffer) [
    | false ↦ []
    | true ↦
        deserialize_base_block_header buffer offset
        ∷ deserialize_loop fuel count buffer (offset + 80) (taken + 1)
  ]

  pub deserialize_base_block_headers :
      List ℕ → (offset : ℕ) → (count : Option ℕ) → List BaseBlockHeader
  unfolding deserialize_loop
  deserialize_base_block_headers buffer offset count =
      deserialize_loop (length buffer) count buffer offset 0

  pub deserialize_block_header : List ℕ → (height offset : ℕ) → BlockHeader
  unfolding deserialize_base_block_header
  deserialize_block_header buffer height offset =
      let base = deserialize_base_block_header buffer offset in
      record {
        version = base.version;
        previous_hash = base.previous_hash;
        merkle_root = base.merkle_root;
        time = base.time;
        bits = base.bits;
        nonce = base.nonce;
        height = height;
        hash = K.double_hash (slice offset 80 buffer);
      }

  -- Each header is read from its own slice.
  pub deserialize_heights :
      (fuel : ℕ) → (count : Option ℕ) → List ℕ → (height offset taken : ℕ) → List BlockHeader
  unfolding deserialize_block_header
  deserialize_heights zero count buffer height offset taken = []
  deserialize_heights (suc fuel) count buffer height offset taken =
      elim (goes_on count taken offset buffer) [
        | false ↦ []
        | true ↦
            deserialize_block_header (slice offset 80 buffer) height 0
            ∷ deserialize_heights fuel count buffer (height + 1) (offset + 80) (taken + 1)
      ]

  pub deserialize_block_headers :
      (first_height : ℕ) → List ℕ → (offset : ℕ) → (count : Option ℕ) → List BlockHeader
  unfolding deserialize_heights
  deserialize_block_headers first_height buffer offset count =
      deserialize_heights (length buffer) count buffer first_height offset 0

-- What `validateBufferOfHeaders` throws.
pub data BufferError : Type 0 where
  missing_bytes : (i : ℕ) → BufferError
  invalid_previous : (i : ℕ) → BufferError
  dirty_hash : String → BufferError

abbrev pub Result : Type 0 → Type 0
Result A = Fallible BufferError A

abbrev pub dirty_hashes : List String
dirty_hashes =
    "00000000000000000019f112ec0a9982926f1258cdcc558dd7c3b7e5dc7fa148"
    ∷ ("0000000000000000004626ff6e3b936941d341c5932ece4357eeccac44e6d56c" ∷ [])

abbrev contains_text : String → List String → Bool
contains_text t [] = false
contains_text t (s ∷ ss) = str_eq s t || contains_text t ss

pub is_dirty : String → Bool
is_dirty hash = contains_text hash dirty_hashes

-- `lastHeaderHash` and `lastChainWork`.
pub record Validated : Type 0 where
  pub last_header_hash : String
  pub last_chain_work : Option ℕ

module _ (K : Sdk) (notn : ℕ → ℕ → ℕ) where
  abbrev pub more_work : Option ℕ → (bits : ℕ) → Option ℕ
  more_work none bits = none
  more_work (some w) bits = some (add_work w (convert_bits_to_work notn bits))

  -- The loop over `rounds` headers from the `i`th on.
  pub validate_loop : (rounds i : ℕ) → List ℕ → (offset : ℕ) → Validated → Result Validated
  unfolding deserialize_base_block_header is_dirty
  validate_loop zero i buffer offset v = ok v
  validate_loop (suc rounds) i buffer offset v =
      let start = offset + i * 80 in
      let header = slice start 80 buffer in
      let h = deserialize_base_block_header K header 0 in
      let hash = K.double_hash header in
      elim (ltb (length buffer) (start + 80)) [
        | true ↦ err (missing_bytes i)
        | false ↦ elim (str_eq v.last_header_hash (K.hash_text (slice 4 32 header))) [
          | false ↦ err (invalid_previous i)
          | true ↦ elim (is_dirty hash) [
            | true ↦ err (dirty_hash hash)
            | false ↦ validate_loop rounds (i + 1) buffer offset (record {
              last_header_hash = hash;
              last_chain_work = more_work v.last_chain_work h.bits;
            })
          ]
        ]
      ]

  -- No count is a negative one in the source: as many headers as the buffer holds whole.
  pub validate_buffer_of_headers :
      List ℕ
      → (previous_hash : String) → (offset : ℕ) → (count : Option ℕ)
      → (previous_chain_work : Option ℕ) → Result Validated
  unfolding validate_loop
  validate_buffer_of_headers buffer previous_hash offset count previous_chain_work =
      let rounds : ℕ = elim count [ none ↦ (length buffer - offset) / 80 | some n ↦ n ] in
      validate_loop rounds 0 buffer offset
        (record { last_header_hash = previous_hash; last_chain_work = previous_chain_work })
