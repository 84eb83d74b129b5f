-- ===== src/Keeper/Messages.antt =====
-- x/fundraising/handler.go and keeper/msg_server.go: the messages. `validate_basic` is run by the SDK
-- before a message reaches the handler.
pub mod Consistent
pub mod LastIds
pub mod Numbers
pub mod Refused
pub mod Signers
pub mod Growth
pub mod Runs
use fundraising.Keeper.Action.{Action, pure, raise, ◌>>=◌}
use fundraising.Keeper.Auctions.{
  add_allowed_bidders, cancel_auction, create_batch_auction, create_fixed_price_auction,
}
use fundraising.Keeper.Bids.{place_bid}
use fundraising.Keeper.Bids.Modify.{modify_bid}
use fundraising.Keeper.Env.{Env}
use fundraising.Prelude.{Bool, [], if◌then◌else◌, ◌∷◌}
use fundraising.Sdk.{Time}
use fundraising.Sdk.Accounts.{Accounts}
use fundraising.Sdk.Coins.{Coins}
use fundraising.Sdk.Decimals.{Decimals}
use fundraising.Sdk.Outcome.{Result, invalid_request}
use fundraising.Types.{
  MsgAddAllowedBidder, MsgCancelAuction, MsgCreateBatchAuction, MsgCreateFixedPriceAuction,
  MsgModifyBid, MsgPlaceBid,
}
use fundraising.Types.Msgs.{
  validate_add_allowed_bidder, validate_cancel_auction, validate_create_batch_auction,
  validate_create_fixed_price_auction, validate_modify_bid, validate_place_bid,
}

pub data Msg : Type 0 where
  create_fixed_price_auction_msg : MsgCreateFixedPriceAuction → Msg
  create_batch_auction_msg : MsgCreateBatchAuction → Msg
  cancel_auction_msg : MsgCancelAuction → Msg
  place_bid_msg : MsgPlaceBid → Msg
  modify_bid_msg : MsgModifyBid → Msg
  add_allowed_bidder_msg : MsgAddAllowedBidder → Msg

unfoldable pub validate_basic : ⦃acc : Accounts⦄ → Msg → Result (Unit {0})
validate_basic (create_fixed_price_auction_msg m) = validate_create_fixed_price_auction m
validate_basic (create_batch_auction_msg m) = validate_create_batch_auction m
validate_basic (cancel_auction_msg m) = validate_cancel_auction m
validate_basic (place_bid_msg m) = validate_place_bid m
validate_basic (modify_bid_msg m) = validate_modify_bid m
validate_basic (add_allowed_bidder_msg m) = validate_add_allowed_bidder m

module _ ⦃dec : Decimals⦄ ⦃coins : Coins⦄ ⦃acc : Accounts⦄ ⦃env : Env⦄ where
  -- `msgServer.AddAllowedBidder`; the flag is `EnableAddAllowedBidder`, set when the binary is built.
  unfoldable pub server_add_allowed_bidder : Bool → MsgAddAllowedBidder → Action (Unit {0})
  server_add_allowed_bidder enabled msg =
      if enabled
      then add_allowed_bidders msg.auction_id (msg.allowed_bidder ∷ [])
      else raise invalid_request

  -- `NewHandler`
  unfoldable pub handle : Bool → Time → Msg → Action (Unit {0})
  handle enabled now (create_fixed_price_auction_msg m) = do
    _ ← create_fixed_price_auction now m
    pure tt
  handle enabled now (create_batch_auction_msg m) = do _ ← create_batch_auction now m; pure tt
  handle enabled now (cancel_auction_msg m) = cancel_auction m
  handle enabled now (place_bid_msg m) = do _ ← place_bid m; pure tt
  handle enabled now (modify_bid_msg m) = modify_bid m
  handle enabled now (add_allowed_bidder_msg m) = server_add_allowed_bidder enabled m
