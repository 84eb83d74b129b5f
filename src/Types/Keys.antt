-- ===== src/Types/Keys.antt =====
-- x/fundraising/types/keys.go: the keys of the store, byte by byte.
pub mod Distinct
pub mod RoundTrip
use fundraising.Prelude.{
  Option, [], if◌then◌else◌, none, some, suc, zero, ℕ, ◌%◌, ◌++◌, ◌+◌, ◌==◌, ◌∷◌,
}
use fundraising.Sdk.{Time}
use fundraising.Sdk.Encodings.{Bytes, Encodings}
use fundraising.Sdk.Outcome.{Result, ok, panic, ◌>>=◌, ◌>>◌}

-- The prefixes of the tables.
abbrev pub last_auction_id_key : Bytes
last_auction_id_key = 0x11 ∷ []

abbrev pub last_bid_id_key_prefix : Bytes
last_bid_id_key_prefix = 0x12 ∷ []

abbrev pub auction_key_prefix : Bytes
auction_key_prefix = 0x21 ∷ []

abbrev pub allowed_bidder_key_prefix : Bytes
allowed_bidder_key_prefix = 0x22 ∷ []

abbrev pub bid_key_prefix : Bytes
bid_key_prefix = 0x31 ∷ []

abbrev pub bid_index_key_prefix : Bytes
bid_index_key_prefix = 0x32 ∷ []

abbrev pub matched_bids_len_prefix : Bytes
matched_bids_len_prefix = 0x33 ∷ []

abbrev pub vesting_queue_key_prefix : Bytes
vesting_queue_key_prefix = 0x41 ∷ []

-- `bz[n:]`; `none` is the panic of an index out of range.
unfoldable pub slice_from : ℕ → Bytes → Option Bytes
slice_from zero bz = some bz
slice_from (suc n) [] = none
slice_from (suc n) (x ∷ bz) = slice_from n bz

module _ ⦃enc : Encodings⦄ where
  open enc use {uint64_to_big_endian, big_endian_to_uint64, must_length_prefix, format_time_bytes}

  unfoldable pub get_last_bid_id_key : ℕ → Bytes
  get_last_bid_id_key auction_id = last_bid_id_key_prefix ++ uint64_to_big_endian auction_id

  unfoldable pub get_auction_key : ℕ → Bytes
  get_auction_key auction_id = auction_key_prefix ++ uint64_to_big_endian auction_id

  unfoldable pub get_allowed_bidders_by_auction_key_prefix : ℕ → Bytes
  get_allowed_bidders_by_auction_key_prefix auction_id =
      allowed_bidder_key_prefix ++ uint64_to_big_endian auction_id

  unfoldable pub get_allowed_bidder_key : ℕ → Bytes → Result Bytes
  get_allowed_bidder_key auction_id bidder = do
    addr ← must_length_prefix bidder
    ok ((allowed_bidder_key_prefix ++ uint64_to_big_endian auction_id) ++ addr)

  unfoldable pub get_bid_by_auction_id_prefix : ℕ → Bytes
  get_bid_by_auction_id_prefix auction_id = bid_key_prefix ++ uint64_to_big_endian auction_id

  unfoldable pub get_bid_key : ℕ → ℕ → Bytes
  get_bid_key auction_id bid_id =
      (bid_key_prefix ++ uint64_to_big_endian auction_id) ++ uint64_to_big_endian bid_id

  unfoldable pub get_bid_index_by_bidder_prefix : Bytes → Result Bytes
  get_bid_index_by_bidder_prefix bidder = do
    addr ← must_length_prefix bidder
    ok (bid_index_key_prefix ++ addr)

  unfoldable pub get_bid_index_key : Bytes → ℕ → ℕ → Result Bytes
  get_bid_index_key bidder auction_id bid_id = do
    addr ← must_length_prefix bidder
    ok (
        ((bid_index_key_prefix ++ addr) ++ uint64_to_big_endian auction_id)
        ++ uint64_to_big_endian bid_id)

  unfoldable pub get_vesting_queue_by_auction_id_prefix : ℕ → Bytes
  get_vesting_queue_by_auction_id_prefix auction_id =
      vesting_queue_key_prefix ++ uint64_to_big_endian auction_id

  unfoldable pub get_vesting_queue_key : ℕ → Time → Bytes
  get_vesting_queue_key auction_id release_time =
      (vesting_queue_key_prefix ++ uint64_to_big_endian auction_id)
      ++ format_time_bytes release_time

  unfoldable pub get_last_matched_bids_len_key : ℕ → Bytes
  get_last_matched_bids_len_key auction_id =
      matched_bids_len_prefix ++ uint64_to_big_endian auction_id

  -- A slice, and the id that it begins with.
  abbrev pub read_id : Option Bytes → Result ℕ
  read_id none = panic
  read_id (some bz) = big_endian_to_uint64 bz

  -- `ParseBidIndexKey`; the indices are sums of bytes, which wrap at 256.
  unfoldable pub parse_bid_index_key : Bytes → Result (ℕ × ℕ)
  parse_bid_index_key [] = panic
  parse_bid_index_key (x ∷ []) = panic
  parse_bid_index_key (x ∷ addr_len ∷ bz) =
      if x == 0x32
      then (read_id (slice_from ((2 + addr_len) % 256) (x ∷ addr_len ∷ bz)) >>= λ auction_id.
          read_id (slice_from ((2 + addr_len + 8) % 256) (x ∷ addr_len ∷ bz)) >>= λ bid_id.
          ok (auction_id, bid_id))
      else panic

  -- `SplitAuctionIdBidIdKey`
  unfoldable pub split_auction_id_bid_id_key : Bytes → Result (ℕ × ℕ)
  split_auction_id_bid_id_key key = do
    auction_id ← big_endian_to_uint64 key
    bid_id ← read_id (slice_from 8 key)
    ok (auction_id, bid_id)
