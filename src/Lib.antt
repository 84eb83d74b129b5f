-- ===== src/Lib.antt =====
-- Verification of the fundraising module, x/fundraising: auctions of coins at a fixed price or in
-- batches, with vesting of what they raise.
--
-- The program keeps auctions, bids, allowed bidders and vesting queues in a key-value store, and
-- holds coins in three reserve accounts for each auction. Messages create and cancel auctions and
-- place and modify bids; every block starts the auctions that are due, closes or extends those that
-- have ended, and releases vested coins. Closing a batch auction searches the bids for the lowest
-- price at which all that match fit into the coins sold.
--
-- The files, and the code they model:
--   Prelude, Prelude/Tests, Prelude/Store: shared names, Boolean tests, and ordered tables, which
--     stand for a key prefix of the store and for Go maps whose keys are sorted before use.
--   Sdk and its children: coins, decimals, addresses, errors and panics of the SDK. Decimals,
--     Coins, Accounts, Encodings and Pages are records of operations and laws, taken as instance arguments.
--   Types: the structs and enumerations of x/fundraising/types/*.pb.go.
--   Types/Bids (types/bid.go, allowed_bidder.go), Types/Vesting (types/vesting.go), Types/Auctions
--     (types/auction.go), Types/Matching (types/match.go, utils.go) with Bounds,
--     Limits and other children, Types/Msgs
--     and Types/Signers (types/msgs.go), Types/Genesis (types/genesis.go, params.go), Types/Keys (types/keys.go).
--   Keeper/State, Keeper/Env, Keeper/Action: the state, the keepers and hooks that are called, and a
--     method as a function from a state to a result and a state. What was written before an error
--     stays in the state that comes back; the SDK rolls it back for a message.
--   Keeper/Tables (keeper/store.go), Keeper/Fees (keeper/keeper.go), Keeper/Bids and Keeper/Bids/Modify
--     (keeper/bid.go), Keeper/Auctions, Keeper/Closing and Keeper/Closing/Release (keeper/auction.go),
--     Keeper/Matching (keeper/match.go), Keeper/Vesting (keeper/vesting.go), Keeper/Execution
--     (keeper/execution.go, abci.go), Keeper/Messages (handler.go, keeper/msg_server.go),
--     Keeper/Genesis (keeper/genesis.go), Keeper/Invariants (keeper/invariants.go), Keeper/Queries
--     (keeper/grpc_query.go), with the names of Types/Names and the pages of Sdk/Pages.
--   Keeper/Inversion, Keeper/Frame and Keeper/After: rules to read a run backwards, and to follow what a
--     run writes.
--   Keeper/Bids/Consistent: what holds between the bids, their index by bidder and the last ids; its
--     siblings and Keeper/Messages/Consistent, Keeper/Execution/Consistent follow it through the methods,
--     Keeper/Messages/Runs through runs of blocks and messages.
--   Keeper/Messages/Numbers: the ids of auctions that messages and blocks give out. Keeper/Messages/Refused:
--     what a message that returns an error may have written. Keeper/Messages/Signers: who signs a message.
--   Keeper/Execution/Lifecycle, Progress, Due: the steps of an auction's life, and when a block takes them.
--   Keeper/Pools: what the paying and selling reserves of an auction must hold, in terms of its bids and of
--     what it sells, and what else of the tables this rests on. Its children follow it through the transfers (Transfers), the writes
--     (Auctions, Stored, Marked), the messages (Placing, Bids, Raising, Creating, Messages) and the blocks
--     (Closing, Releasing, Blocks); Unbroken leads back to the check of keeper/invariants.go, and Runs
--     covers runs of blocks that do not panic and of messages from accounts that are no reserve, and
--     Start those from the default genesis state.
--   Examples: a concrete SDK, and concrete runs.
--
-- Bounds and fuel: ids are taken modulo 2 ^ 64 and rounds modulo 2 ^ 32, as in the code. Amounts and
-- decimals are natural numbers, as the SDK's are unbounded up to 256 bits; a panic below zero is
-- written out. The binary search runs on one more unit of fuel than there are prices, which is enough,
-- since every round makes its interval smaller.
--
-- Not modelled: codecs, events, logging, the query of the parameters, the command line, the
-- simulation and the wiring of the application. Decimals, operations on two coins, the bank, the
-- distribution keeper, the hooks, the encodings of keys, filtered
-- pagination and the address parser are parameters, with the laws that the SDK
-- documents.
pub mod Prelude
pub mod Sdk
pub mod Types
pub mod Keeper
pub mod Examples
