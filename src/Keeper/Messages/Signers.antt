-- ===== src/Keeper/Messages/Signers.antt =====
-- Who signs a message (x/fundraising/types/msgs.go).
use fundraising.Keeper.Messages.{
  Msg, add_allowed_bidder_msg, cancel_auction_msg, create_batch_auction_msg,
  create_fixed_price_auction_msg, modify_bid_msg, place_bid_msg, validate_basic,
}
use fundraising.Prelude.{List, [], arith, not, ◌∷◌, ◌≡◌}
use fundraising.Sdk.{Address}
use fundraising.Sdk.Accounts.{Accounts}
use fundraising.Sdk.Outcome.{Result, fail_if, fail_if-passed, invalid_address, ok, ◌>>◌}
use fundraising.Types.Msgs.{
  validate_add_allowed_bidder, validate_cancel_auction, validate_create_batch_auction,
  validate_create_fixed_price_auction, validate_modify_bid, validate_place_bid,
}
use fundraising.Types.Signers.{
  add_allowed_bidder_signers, cancel_auction_signers, create_batch_auction_signers,
  create_fixed_price_auction_signers, modify_bid_signers, one_signer, place_bid_signers,
}

-- The account that signs a message.
abbrev pub sender : Msg → Address
sender (create_fixed_price_auction_msg m) = m.auctioneer
sender (create_batch_auction_msg m) = m.auctioneer
sender (cancel_auction_msg m) = m.auctioneer
sender (place_bid_msg m) = m.bidder
sender (modify_bid_msg m) = m.bidder
sender (add_allowed_bidder_msg m) = m.allowed_bidder.bidder

module _ ⦃acc : Accounts⦄ where
  -- `GetSigners`
  abbrev pub get_signers : Msg → Result (List Address)
  get_signers (create_fixed_price_auction_msg m) = create_fixed_price_auction_signers m
  get_signers (create_batch_auction_msg m) = create_batch_auction_signers m
  get_signers (cancel_auction_msg m) = cancel_auction_signers m
  get_signers (place_bid_msg m) = place_bid_signers m
  get_signers (modify_bid_msg m) = modify_bid_signers m
  get_signers (add_allowed_bidder_msg m) = add_allowed_bidder_signers m

  parses :
      (x : Address) {A : Type 0} (next : Result A) {y : A}
      → (fail_if (not (acc.valid_address x)) invalid_address >> next) ≡ ok y
      → one_signer x ≡ ok (x ∷ [])
  parses x next h =
      let (valid, _) = fail_if-passed (not (acc.valid_address x)) invalid_address next h in
      ground arith

  -- A message that passes its stateless checks has exactly one signer: the auctioneer of a message that
  -- creates or cancels an auction, the bidder of one that places or modifies a bid, and the listed bidder
  -- of one that adds an allowed bidder; asking for the signers does not panic.
  pub get_signers_lem :
      (msg : Msg) → validate_basic msg ≡ ok tt → get_signers msg ≡ ok (sender msg ∷ [])
  unfolding validate_basic validate_create_fixed_price_auction validate_create_batch_auction
      validate_cancel_auction validate_place_bid validate_modify_bid validate_add_allowed_bidder
      create_fixed_price_auction_signers create_batch_auction_signers cancel_auction_signers
      place_bid_signers modify_bid_signers add_allowed_bidder_signers
  get_signers_lem (create_fixed_price_auction_msg m) h = parses m.auctioneer _ h
  get_signers_lem (create_batch_auction_msg m) h = parses m.auctioneer _ h
  get_signers_lem (cancel_auction_msg m) h = parses m.auctioneer (ok tt) (ground arith)
  get_signers_lem (place_bid_msg m) h = parses m.bidder _ h
  get_signers_lem (modify_bid_msg m) h = parses m.bidder _ h
  get_signers_lem (add_allowed_bidder_msg m) h =
      parses m.allowed_bidder.bidder (ok tt) (ground arith)
