-- ===== src/Sdk/Encodings.antt =====
-- The byte encodings that store keys are made of. The code is the SDK's; the laws are what it
-- documents.
use fundraising.Prelude.{List, Option, length, some, ℕ, ◌++◌, ◌<◌, ◌^◌, ◌∷◌, ◌≡◌, ◌≤◌}
use fundraising.Sdk.{Time}
use fundraising.Sdk.Outcome.{Result, ok, panic}

abbrev pub Bytes : Type 0
Bytes = List ℕ

pub record Encodings : Type 0 where
  -- `Uint64ToBigEndian` and `BigEndianToUint64`; the latter panics where a byte is missing.
  pub uint64_to_big_endian : ℕ → Bytes
  pub big_endian_to_uint64 : Bytes → Result ℕ
  -- `address.MustLengthPrefix`
  pub must_length_prefix : Bytes → Result Bytes
  -- `FormatTimeBytes` and `ParseTimeBytes`
  pub format_time_bytes : Time → Bytes
  pub parse_time_bytes : Bytes → Option Time
  pub big_endian_length : (n : ℕ) → length (uint64_to_big_endian n) ≡ 8
  -- The first eight bytes are read.
  pub big_endian_read :
      (n : ℕ) (rest : Bytes)
      → n < 2 ^ 64
      → big_endian_to_uint64 (uint64_to_big_endian n ++ rest) ≡ ok n
  pub length_prefixed : (bz : Bytes) → length bz < 256 → must_length_prefix bz ≡ ok (length bz ∷ bz)
  pub length_prefix_long : (bz : Bytes) → 256 ≤ length bz → must_length_prefix bz ≡ panic
  pub time_read : (t : Time) → parse_time_bytes (format_time_bytes t) ≡ some t
