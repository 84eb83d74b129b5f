-- ===== src/Keeper.antt =====
-- x/fundraising/keeper: the module's state and its operations.
pub mod State
pub mod Env
pub mod Action
pub mod After
pub mod Tables
pub mod Fees
pub mod Bids
pub mod Auctions
pub mod Matching
pub mod Vesting
pub mod Closing
pub mod Execution
pub mod Frame
pub mod Inversion
pub mod Messages
pub mod Genesis
pub mod Queries
pub mod Invariants
pub mod Pools
