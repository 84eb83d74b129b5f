-- ===== src/Types/Names.antt =====
-- The names of enumeration values (x/fundraising/types/fundraising.pb.go), as texts.
use Prim.Native.String.{String}
use text.Mathlib.Text.{◌==◌ as ◌≈◌}
use fundraising.Prelude.{Bool}
use fundraising.Types.{AuctionStatus, AuctionType}

abbrev pub type_name : AuctionType → String
type_name AuctionType.nil = "AUCTION_TYPE_UNSPECIFIED"
type_name AuctionType.fixed_price = "AUCTION_TYPE_FIXED_PRICE"
type_name AuctionType.batch = "AUCTION_TYPE_BATCH"

abbrev pub status_name : AuctionStatus → String
status_name AuctionStatus.nil = "AUCTION_STATUS_UNSPECIFIED"
status_name AuctionStatus.stand_by = "AUCTION_STATUS_STANDBY"
status_name AuctionStatus.started = "AUCTION_STATUS_STARTED"
status_name AuctionStatus.vesting = "AUCTION_STATUS_VESTING"
status_name AuctionStatus.finished = "AUCTION_STATUS_FINISHED"
status_name AuctionStatus.cancelled = "AUCTION_STATUS_CANCELLED"

abbrev pub same_text : String → String → Bool
same_text s t = s ≈ t
