-- ===== src/Examples/Keys.antt =====
-- Examples for the keys of the store, over concrete encodings: eight digits to the base 256.
use native.Mathlib.Numerals.{unary_clauses}
use fundraising.Prelude.{
  Option, [], ap, arith, if◌then◌else◌, length, length-append, ltb, none, refl, some, suc, zero, ℕ,
  ◌%◌, ◌*◌, ◌++◌, ◌+◌, ◌/◌, ◌<◌, ◌^◌, ◌∙◌, ◌∷◌, ◌≡◌,
}
use fundraising.Sdk.{Time}
use fundraising.Sdk.Encodings.{Bytes, Encodings}
use fundraising.Sdk.Outcome.{Result, ok, panic, ◌>>=◌}
use fundraising.Types.Keys.{
  get_bid_index_key, get_bid_key, parse_bid_index_key, split_auction_id_bid_id_key,
}
use fundraising.Types.Keys.Distinct.{bid_entry, key_bytes-injective}
use fundraising.Types.Keys.RoundTrip.{parse_bid_index_key_lem, split_auction_id_bid_id_key_lem}
use mathlib.Core.List.{append_assoc}

-- The last `k` digits of a number, the highest first.
abbrev digits : ℕ → ℕ → Bytes
digits zero n = []
digits (suc k) n = digits k (n / 256) ++ n % 256 ∷ []

abbrev read_digits : ℕ → ℕ → Bytes → Result ℕ
read_digits zero n bz = ok n
read_digits (suc k) n [] = panic
read_digits (suc k) n (b ∷ bz) = read_digits k (n * 256 + b) bz

length-digits : (k n : ℕ) → length (digits k n) ≡ k
length-digits zero n = refl
length-digits (suc k) n =
    omega (arith, length-append (digits k (n / 256)) (n % 256 ∷ []), length-digits k (n / 256))

read_digits-digits :
    (k j n : ℕ) (rest : Bytes)
    → n < 256 ^ k
    → read_digits (k + j) 0 (digits k n ++ rest) ≡ read_digits j n rest
read_digits-digits zero j n rest h =
    ap (λ x. read_digits x 0 rest) (omega arith) ∙ ap (λ x. read_digits j x rest) (omega arith)
read_digits-digits (suc k) j n rest h =
    let low = n % 256 ∷ rest in
    let h' : n < 256 ^ k * 256 = simp unary_clauses at h in
    ap (λ x. read_digits x 0 (digits (suc k) n ++ rest)) (omega arith)
    ∙ ap (read_digits (k + suc j) 0) (append_assoc (digits k (n / 256)) (n % 256 ∷ []) rest)
    ∙ read_digits-digits k (suc j) (n / 256) low (omega arith)
    ∙ ap (λ x. read_digits j x rest) (omega arith)

abbrev read_time : Bytes → Option Time
read_time [] = none
read_time (t ∷ bz) = some t

instance unfoldable base_256 : Encodings
base_256 = record {
  uint64_to_big_endian = digits 8;
  big_endian_to_uint64 = read_digits 8 0;
  must_length_prefix = λ bz. if ltb (length bz) 256 then ok (length bz ∷ bz) else panic;
  format_time_bytes = λ t. t ∷ [];
  parse_time_bytes = read_time;
  big_endian_length = length-digits 8;
  big_endian_read = λ n rest h. read_digits-digits 8 0 n rest h;
  length_prefixed = λ bz h. ground arith;
  length_prefix_long = λ bz h. ground arith;
  time_read = λ t. refl;
}

split_auction_id_bid_id_key_lem_example :
    split_auction_id_bid_id_key (digits 8 300 ++ digits 8 7) ≡ ok (300, 7)
unfolding base_256
split_auction_id_bid_id_key_lem_example =
    split_auction_id_bid_id_key_lem 300 7 (omega arith) (omega arith)

abbrev short_address : Bytes
short_address = 0x32 ∷ 0x33 ∷ 0x41 ∷ []

parse_bid_index_key_lem_example :
    (get_bid_index_key short_address 300 7 >>= parse_bid_index_key) ≡ ok (300, 7)
parse_bid_index_key_lem_example =
    parse_bid_index_key_lem 300 7 (omega arith) (omega arith) short_address (omega arith)

key_bytes-injective_example : bid_entry 1 2 ≡ bid_entry 1 2
key_bytes-injective_example =
    key_bytes-injective (bid_entry 1 2) (bid_entry 1 2) (get_bid_key 1 2) (omega arith, omega arith)
      (omega arith, omega arith) refl refl
