-- ===== src/Types/Keys/Distinct.antt =====
-- The keys of the store (x/fundraising/types/keys.go) are different for different entries, of one
-- table or of two.
use fundraising.Prelude.{
  Option, [], ap, if◌then◌else◌, length, none, refl, some, suc, zero, ℕ, ◌++◌, ◌<◌, ◌==◌, ◌^◌, ◌∙◌,
  ◌∷◌, ◌≡◌,
}
use fundraising.Sdk.{Time}
use fundraising.Sdk.Coins.{ok-inj}
use fundraising.Sdk.Encodings.{Bytes, Encodings}
use fundraising.Sdk.Outcome.{Result, ok, panic, ◌>>=◌}
use fundraising.Types.Keys.{
  get_allowed_bidder_key, get_auction_key, get_bid_index_key, get_bid_key, get_last_bid_id_key,
  get_last_matched_bids_len_key, get_vesting_queue_key, last_auction_id_key, slice_from,
}
use fundraising.Types.Keys.RoundTrip.{read-last, slice_from-append}
use mathlib.Core.List.{append_assoc}
use mathlib.Core.Path.{sym}

-- An entry of the store, by the table it stands in.
pub data Key : Type 0 where
  last_auction_id_entry : Key
  last_bid_id_entry auction_entry matched_bids_len_entry : ℕ → Key
  allowed_bidder_entry : ℕ → Bytes → Key
  bid_entry : ℕ → ℕ → Key
  bid_index_entry : Bytes → ℕ → ℕ → Key
  vesting_queue_entry : ℕ → Time → Key

-- Ids of 64 bits, and addresses of at most 255 bytes.
abbrev pub Fits : Key → Type 0
Fits last_auction_id_entry = Unit {0}
Fits (last_bid_id_entry a) = a < 2 ^ 64
Fits (auction_entry a) = a < 2 ^ 64
Fits (matched_bids_len_entry a) = a < 2 ^ 64
Fits (allowed_bidder_entry a addr) = (a < 2 ^ 64) × (length addr < 256)
Fits (bid_entry a i) = (a < 2 ^ 64) × (i < 2 ^ 64)
Fits (bid_index_entry addr a i) = (a < 2 ^ 64) × (i < 2 ^ 64) × (length addr < 256)
Fits (vesting_queue_entry a t) = a < 2 ^ 64

first_bytes : ℕ → Bytes → Bytes
first_bytes zero bz = []
first_bytes (suc n) [] = []
first_bytes (suc n) (x ∷ bz) = x ∷ first_bytes n bz

first_bytes-append : (xs ys : Bytes) → first_bytes (length xs) (xs ++ ys) ≡ xs
unfolding first_bytes
first_bytes-append [] ys = refl
first_bytes-append (x ∷ xs) ys = ap (λ (bz : Bytes). x ∷ bz) (first_bytes-append xs ys)

module _ ⦃enc : Encodings⦄ where
  open enc use {uint64_to_big_endian, big_endian_to_uint64}

  -- The key that the store uses for an entry.
  abbrev pub key_bytes : Key → Result Bytes
  key_bytes last_auction_id_entry = ok last_auction_id_key
  key_bytes (last_bid_id_entry a) = ok (get_last_bid_id_key a)
  key_bytes (auction_entry a) = ok (get_auction_key a)
  key_bytes (matched_bids_len_entry a) = ok (get_last_matched_bids_len_key a)
  key_bytes (allowed_bidder_entry a addr) = get_allowed_bidder_key a addr
  key_bytes (bid_entry a i) = ok (get_bid_key a i)
  key_bytes (bid_index_entry addr a i) = get_bid_index_key addr a i
  key_bytes (vesting_queue_entry a t) = ok (get_vesting_queue_key a t)

  -- The parts of a key, for a reader of all keys.
  abbrev read_behind : Option Bytes → (Bytes → Result Key) → Result Key
  read_behind none f = panic
  read_behind (some bz) f = f bz

  abbrev time_entry : ℕ → Option Time → Result Key
  time_entry a none = panic
  time_entry a (some t) = ok (vesting_queue_entry a t)

  abbrev read_addressed : ℕ → Bytes → Result Key
  read_addressed a [] = panic
  read_addressed a (l ∷ addr) = ok (allowed_bidder_entry a addr)

  abbrev read_index : Bytes → Result Key
  read_index [] = panic
  read_index (l ∷ bz) = read_behind (slice_from l bz) (λ ids. big_endian_to_uint64 ids >>= λ a.
      read_behind (slice_from 8 ids)
        (λ rest. big_endian_to_uint64 rest >>= λ i. ok (bid_index_entry (first_bytes l bz) a i)))

  read_key : Bytes → Result Key
  read_key [] = panic
  read_key (x ∷ bz) =
      if x == 0x11
      then ok last_auction_id_entry
      else if x == 0x32
      then read_index bz
      else (big_endian_to_uint64 bz >>= λ a.
          if x == 0x12
          then ok (last_bid_id_entry a)
          else if x == 0x21
          then ok (auction_entry a)
          else if x == 0x33
          then ok (matched_bids_len_entry a)
          else read_behind (slice_from 8 bz) (λ rest.
            if x == 0x22
            then read_addressed a rest
            else if x == 0x31
            then (big_endian_to_uint64 rest >>= λ i. ok (bid_entry a i))
            else time_entry a (enc.parse_time_bytes rest)))

  behind_id : (a : ℕ) (rest : Bytes) → slice_from 8 (uint64_to_big_endian a ++ rest) ≡ some rest
  behind_id a rest =
      slice_from-append 8 (uint64_to_big_endian a) rest (sym (enc.big_endian_length a))

  read_key-key_bytes : (k : Key) → Fits k → (key_bytes k >>= read_key) ≡ ok k
  unfolding read_key get_last_bid_id_key get_auction_key get_last_matched_bids_len_key
      get_allowed_bidder_key get_bid_key get_bid_index_key get_vesting_queue_key
  read_key-key_bytes last_auction_id_entry f = refl
  read_key-key_bytes (last_bid_id_entry a) f = rw (read-last a f) refl
  read_key-key_bytes (auction_entry a) f = rw (read-last a f) refl
  read_key-key_bytes (matched_bids_len_entry a) f = rw (read-last a f) refl
  read_key-key_bytes (allowed_bidder_entry a addr) (f, g) =
      rw
        (
          enc.length_prefixed addr g,
          enc.big_endian_read a (length addr ∷ addr) f,
          behind_id a (length addr ∷ addr),
        )
        refl
  read_key-key_bytes (bid_entry a i) (f, g) =
      rw
        (
          enc.big_endian_read a (uint64_to_big_endian i) f,
          behind_id a (uint64_to_big_endian i),
          read-last i g,
        )
        refl
  read_key-key_bytes (bid_index_entry addr a i) (f, g, h) =
      let ids = uint64_to_big_endian a ++ uint64_to_big_endian i in
      rw
        (
          enc.length_prefixed addr h,
          append_assoc addr (uint64_to_big_endian a) (uint64_to_big_endian i),
          slice_from-append (length addr) addr ids refl,
          first_bytes-append addr ids,
          enc.big_endian_read a (uint64_to_big_endian i) f,
          behind_id a (uint64_to_big_endian i),
          read-last i g,
        )
        refl
  read_key-key_bytes (vesting_queue_entry a t) f =
      rw
        (
          enc.big_endian_read a (enc.format_time_bytes t) f,
          behind_id a (enc.format_time_bytes t),
          enc.time_read t,
        )
        refl

  -- Two entries whose ids have 64 bits and whose addresses have at most 255 bytes have the same key
  -- only if they are the same entry, of the same table.
  pub key_bytes-injective :
      (k l : Key) (bz : Bytes) → Fits k → Fits l → key_bytes k ≡ ok bz → key_bytes l ≡ ok bz → k ≡ l
  key_bytes-injective k l bz f g p q =
      let a = read_key-key_bytes k f in
      let b = read_key-key_bytes l g in ok-inj (sym a ∙ ap (λ r. r >>= read_key) (p ∙ sym q) ∙ b)
