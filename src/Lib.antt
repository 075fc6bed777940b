-- ===== src/Lib.antt =====
-- gum-server takes deposits: an app asks for a payment address, a payer pays it, and the server has
-- the payment settled on chain and tells the app. This library models the part of the server that
-- decides what happens to a deposit, and what it does with its neighbours' answers.
--
-- The parts. An app's request creates a deposit (src/deposit/store.rs, `create_deposit`) with a job
-- that registers a watch for its address at gum-indexer. The indexer's webhooks
-- (src/webhooks/inbound.rs) move the deposit on as transfers are seen; when the amount is confirmed,
-- a job submits `execute` to gum-engine, whose webhooks say how the transaction ended. Every
-- transition is one guarded UPDATE with an event of the deposit's timeline, and queues what follows
-- from it in the outbox, in one Postgres transaction. Workers (src/outbox/mod.rs) claim the jobs and
-- call the neighbours; a reconciler (src/reconciler.rs) polls for what webhooks lost.
--
-- The files.
--   Prelude: the libraries' names, and tests, lists, options, JSON, texts and refusals.
--   Deposit: src/deposit/mod.rs. The row, the statuses and the event types; Lifecycle has the edges
--     between statuses and what the columns of a row say together.
--   Chain: src/chain/payment.rs (`execution_outcome`, the terms of a payment) and
--     src/chain/revert.rs (reasons, their texts, and in Revert/View the shape that apps get).
--   Store: the database and src/deposit/store.rs. Db has the tables and the forms of statement,
--     Record `record_event`, `enqueue` and `claim_inbound`, Transitions the guarded updates, Create
--     `create_deposit` and `prune`. Keeps, Allowed, Closed and Recorded carry the proofs: a
--     predicate that each form of statement keeps is kept by each transition. Evolution and
--     Numbering are such predicates. Effects, Once, Retried, Notified and Replay say what
--     operations leave behind.
--   Webhooks: src/webhooks/inbound.rs. Outcome reads an engine event or a polled job, Inbound has the
--     handlers; Redelivery and Settled say what they promise.
--   Outbox: src/outbox/mod.rs. Schedule is the retry policy, Queue the rows, Jobs what a worker does;
--     Backoff, Claims and Submitted are about them.
--   Reconciler: src/reconciler.rs, one tick.
--   Relay: src/deposit/relay.rs and src/clients/relay.rs, the checks of a quote for paying with
--     another token. Abi is the reader of calldata, Spend the wallet's tab, Selectors the calls that
--     are known, Entrypoints `check_relay_call` and Nested `check_nested_call`, Terms and Order
--     `check_order`, Quote, Steps and Checks `check_step` and `check_quote`. Chains, DirectTokens and
--     Handler are the handler `quote` that asks Relay and runs the checks (src/deposit/relay_tokens.rs
--     has its table). Wallet describes what calls do to a wallet by the rules of ERC-20, Tally and
--     Actions relate the tab to it; Multicalls, Honoured and Accepted take an accepted check apart,
--     Words, Consumed and Deposits the calls that a pull nests; Offered is about the handler.
--   Requests: src/deposit/request.rs, the validation of what an app asks for, over Chain/Registry
--     (src/chain/mod.rs) and Webhooks/Target (src/webhooks/target.rs); Valid says what it promises.
--   Pay: src/deposit/pay.rs, the payer's view and its long poll. Projected is about what a payer
--     sees, Polled about what a held request waits for: the list of what it hears within its hold,
--     with the rows that each read finds.
--   System: the service as sequences of its transactions, with what holds over all of them.
--   Examples: runs at concrete inputs.
--
-- How the code is read. A statement of the database is a function from the database to a result and
-- a database, or to an error; a handler is a do block of statements in the code's order; an error
-- rolls back. What runs concurrently is a sequence of transactions in any order and with any
-- arguments: Postgres commits them so, and a worker that reads, calls a neighbour and writes takes
-- what others commit meanwhile as a parameter. Neighbours (gum-indexer, gum-engine, apps), the ABI
-- decoders, the topics of events and the time in a UUID are parameters too. `Uuid::now_v7` is a
-- stream of ids, with no assumption on it: a deposit's repeated id is refused by the database, and
-- those of other tables are taken as they come.
--
-- Addresses, hashes, salts, ids and amounts are the numbers that their text denotes, in rows and in
-- JSON, whose objects keep the order that the code writes them in; instants are milliseconds, and
-- the process's clock and the database's are one. An error's
-- text keeps its fixed part. The casts between i64, u64 and i32 are not wrapped: the numbers are
-- counts and seconds far below their bounds. A jitter is a multiple of 2 ^ -53 and a delay is
-- rounded down. Logs, metrics and wake-ups are left out, and so are Postgres' foreign keys. A
-- webhook's body keeps the deposit's row, of which the view in the code is a function. The texts of
-- numbers in Prelude/Text use as much fuel as the number's successor, which is more than its digits.
--
-- In the checks of a quote, texts are parsed by libraries (addresses, uint256, hexadecimal bytes):
-- parameters. A uint256 is a number, whose sums are refused where they pass 2 ^ 256; a `usize` has
-- 64 bits. The checks of calls and of nested calls call each other with a fuel of two rounds, which
-- is enough because a nested call nests no calls. The members of a quote that are only shown to the
-- payer (fees, rates, times, logos) are left out.
--
-- Not modelled: the listing of tokens and the route status in src/deposit/relay.rs, the listener
-- behind the long poll (src/deposit/feed.rs), listing with cursors, the time limit of a job in
-- src/outbox/mod.rs, authentication and accounts, webhook signatures, configuration, and the process
-- around them (timers, pools, routes, telemetry).
pub mod Prelude
pub mod Deposit
pub mod Chain
pub mod Store
pub mod Webhooks
pub mod Outbox
pub mod Reconciler
pub mod Relay
pub mod Requests
pub mod Pay
pub mod System
pub mod Examples
