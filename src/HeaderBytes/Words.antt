-- ===== src/HeaderBytes/Words.antt =====
-- Numbers of 32 bits in blockHeaderUtilities.ts, written as bytes and read back.
use wallet_toolbox_rocksdb.Base.{
  ℕ, zero, suc, ◌+◌, ◌-◌, ◌*◌, ◌/◌, ◌%◌, ◌^◌, ◌≤◌, ◌<◌, Bool, true, false, List, [], ◌∷◌, length,
  ◌≡◌, refl, ap, ◌∙◌, arith,
}
use wallet_toolbox_rocksdb.Base.Int.{pos, negsuc}
use wallet_toolbox_rocksdb.HeaderBytes.{
  to_int32, byte_at, convert_uint32_to_buffer, write_bytes, write_uint32_le, write_uint32_be,
  read_uint32_le, read_uint32_be, convert_buffer_to_uint32,
}

bytes_sum :
    (n : ℕ)
    → n < 2 ^ 32
    → n % 2 ^ 8
        + n / 2 ^ 8 % 2 ^ 8 * 2 ^ 8
        + n / 2 ^ 16 % 2 ^ 8 * 2 ^ 16
        + n / 2 ^ 24 % 2 ^ 8 * 2 ^ 24
      ≡ n
bytes_sum n h = omega arith

high_sum :
    (n : ℕ)
    → n < 2 ^ 32
    → n / 2 ^ 24 % 2 ^ 8 * 2 ^ 24
        + n / 2 ^ 16 % 2 ^ 8 * 2 ^ 16
        + n / 2 ^ 8 % 2 ^ 8 * 2 ^ 8
        + n % 2 ^ 8
      ≡ n
high_sum n h = omega arith

to_int32_small : (n : ℕ) → n < 2 ^ 31 → to_int32 n ≡ pos n
to_int32_small n h = ground arith

to_int32_large : (n : ℕ) → 2 ^ 31 ≤ n → n < 2 ^ 32 → to_int32 n ≡ negsuc (2 ^ 32 - 1 - n)
to_int32_large n h l = ground arith

buffer_back :
    (n : ℕ) (little_endian : Bool)
    → n < 2 ^ 32
    → convert_buffer_to_uint32 (convert_uint32_to_buffer n little_endian) little_endian ≡ to_int32 n
unfolding convert_buffer_to_uint32 convert_uint32_to_buffer
buffer_back n true h = ap to_int32 (bytes_sum n h)
buffer_back n false h = ap to_int32 (bytes_sum n h)

-- A number below 2 ^ 31 that is written to four bytes reads back as itself, in either byte order.
pub convert_buffer_to_uint32-convert_uint32_to_buffer :
    (n : ℕ) (little_endian : Bool)
    → n < 2 ^ 31
    → convert_buffer_to_uint32 (convert_uint32_to_buffer n little_endian) little_endian ≡ pos n
convert_buffer_to_uint32-convert_uint32_to_buffer n le small =
    buffer_back n le (omega arith) ∙ to_int32_small n small

-- A number of 32 bits from 2 ^ 31 on that is written to four bytes reads back as itself less 2 ^ 32,
-- a negative number, in either byte order.
pub convert_buffer_to_uint32_negative :
    (n : ℕ) (little_endian : Bool)
    → 2 ^ 31 ≤ n
    → n < 2 ^ 32
    → convert_buffer_to_uint32 (convert_uint32_to_buffer n little_endian) little_endian
      ≡ negsuc (2 ^ 32 - 1 - n)
convert_buffer_to_uint32_negative n le large h = buffer_back n le h ∙ to_int32_large n large h

byte_at-write_bytes :
    (w x y z : ℕ) (offset : ℕ) (bs : List ℕ)
    → offset + 4 ≤ length bs
    → (byte_at (write_bytes (w ∷ (x ∷ (y ∷ (z ∷ [])))) offset bs) offset ≡ w)
      × (byte_at (write_bytes (w ∷ (x ∷ (y ∷ (z ∷ [])))) offset bs) (offset + 1) ≡ x)
      × (byte_at (write_bytes (w ∷ (x ∷ (y ∷ (z ∷ [])))) offset bs) (offset + 2) ≡ y)
      × (byte_at (write_bytes (w ∷ (x ∷ (y ∷ (z ∷ [])))) offset bs) (offset + 3) ≡ z)
unfolding write_bytes
byte_at-write_bytes w x y z offset [] h = absurd (omega arith)
byte_at-write_bytes w x y z zero (a ∷ []) h = absurd (omega arith)
byte_at-write_bytes w x y z zero (a ∷ (b ∷ [])) h = absurd (omega arith)
byte_at-write_bytes w x y z zero (a ∷ (b ∷ (c ∷ []))) h = absurd (omega arith)
byte_at-write_bytes w x y z zero (a ∷ (b ∷ (c ∷ (d ∷ bs)))) h = (refl, refl, refl, refl)
byte_at-write_bytes w x y z (suc offset) (b ∷ bs) h =
    let (p, q, r, s) = byte_at-write_bytes w x y z offset bs (omega arith) in
    (p, ground arith, ground arith, ground arith)

-- Writing a number of 32 bits inside a typed array and reading it there, in either byte order, gives
-- the signed integer of 32 bits that has the same bits.
pub read_uint32-write_uint32 :
    (n offset : ℕ) (a : List ℕ)
    → n < 2 ^ 32
    → offset + 4 ≤ length a
    → (read_uint32_le (write_uint32_le n a offset).0 offset ≡ to_int32 n)
      × (read_uint32_be (write_uint32_be n a offset).0 offset ≡ to_int32 n)
unfolding read_uint32_le read_uint32_be write_uint32_le write_uint32_be
read_uint32-write_uint32 n offset a h room =
    let (p, q, r, s) =
      byte_at-write_bytes (n % 2 ^ 8) (n / 2 ^ 8 % 2 ^ 8) (n / 2 ^ 16 % 2 ^ 8) (n / 2 ^ 24 % 2 ^ 8)
        offset a room in
    let (p', q', r', s') =
      byte_at-write_bytes (n / 2 ^ 24 % 2 ^ 8) (n / 2 ^ 16 % 2 ^ 8) (n / 2 ^ 8 % 2 ^ 8) (n % 2 ^ 8)
        offset a room in
    (
      ap to_int32 (omega (arith, p, q, r, s, bytes_sum n h)),
      ap to_int32 (omega (arith, p', q', r', s', high_sum n h)),
    )
