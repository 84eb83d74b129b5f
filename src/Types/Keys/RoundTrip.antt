-- ===== src/Types/Keys/RoundTrip.antt =====
-- Reading back the ids of a key of the bid index (x/fundraising/types/keys.go).
use fundraising.Prelude.{
  [], arith, length, length-append, refl, some, subst, suc, zero, ℕ, ◌%◌, ◌++◌, ◌+◌, ◌<◌, ◌^◌, ◌∷◌,
  ◌≡◌, ◌≤◌,
}
use fundraising.Sdk.Encodings.{Bytes, Encodings}
use fundraising.Sdk.Outcome.{ok, ◌>>=◌}
use fundraising.Types.Keys.{
  get_bid_index_key, parse_bid_index_key, slice_from, split_auction_id_bid_id_key,
}
use mathlib.Core.List.{append-nil, append_assoc}
use mathlib.Core.Path.{sym}

-- A slice behind a part of known length.
pub slice_from-append : (n : ℕ) (xs ys : Bytes) → n ≡ length xs → slice_from n (xs ++ ys) ≡ some ys
unfolding slice_from
slice_from-append zero [] ys e = refl
slice_from-append zero (x ∷ xs) ys e = absurd (omega arith)
slice_from-append (suc n) [] ys e = absurd (omega arith)
slice_from-append (suc n) (x ∷ xs) ys e = slice_from-append n xs ys (omega arith)

module _ ⦃enc : Encodings⦄ where
  open enc use {uint64_to_big_endian, big_endian_to_uint64}

  -- An id at the end of a key.
  pub read-last : (n : ℕ) → n < 2 ^ 64 → big_endian_to_uint64 (uint64_to_big_endian n) ≡ ok n
  read-last n fits =
      subst (λ (bz : Bytes). big_endian_to_uint64 bz ≡ ok n) (append-nil (uint64_to_big_endian n))
        (enc.big_endian_read n [] fits)

  module _ (auction_id bid_id : ℕ) (auction_fits : auction_id < 2 ^ 64)
      (bid_fits : bid_id < 2 ^ 64) where
    -- What is left of an index key behind the bidder's prefix reads back as its auction id and bid id.
    pub split_auction_id_bid_id_key_lem :
        split_auction_id_bid_id_key (uint64_to_big_endian auction_id ++ uint64_to_big_endian bid_id)
        ≡ ok (auction_id, bid_id)
    unfolding split_auction_id_bid_id_key
    split_auction_id_bid_id_key_lem =
        rw
          (
            enc.big_endian_read auction_id (uint64_to_big_endian bid_id) auction_fits,
            slice_from-append 8 (uint64_to_big_endian auction_id) (uint64_to_big_endian bid_id)
                (sym (enc.big_endian_length auction_id)),
            read-last bid_id bid_fits,
          )
          refl

    -- For an address of at most 245 bytes and ids of 64 bits, a key of the bid index can be made, and
    -- it reads back as its auction id and bid id.
    pub parse_bid_index_key_lem :
        (bidder : Bytes)
        → length bidder ≤ 245
        → (get_bid_index_key bidder auction_id bid_id >>= parse_bid_index_key)
          ≡ ok (auction_id, bid_id)
    unfolding get_bid_index_key parse_bid_index_key
    parse_bid_index_key_lem bidder short =
        let l = length bidder in
        let a = uint64_to_big_endian auction_id in
        let b = uint64_to_big_endian bid_id in
        let head : Bytes = 0x32 ∷ l ∷ bidder in
        let first : slice_from ((2 + l) % 256) (head ++ a ++ b) ≡ some (a ++ b) =
          subst (λ (bz : Bytes). slice_from ((2 + l) % 256) bz ≡ some (a ++ b))
            (sym (append_assoc head a b))
            (slice_from-append ((2 + l) % 256) head (a ++ b) (omega arith)) in
        let second : slice_from ((2 + l + 8) % 256) (head ++ a ++ b) ≡ some b =
          slice_from-append ((2 + l + 8) % 256) (head ++ a) b
            (omega (arith, length-append bidder a, enc.big_endian_length auction_id)) in
        rw
          (
            enc.length_prefixed bidder (omega arith),
            first,
            second,
            enc.big_endian_read auction_id b auction_fits,
            read-last bid_id bid_fits,
          )
          refl
