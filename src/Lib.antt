-- ===== src/Lib.antt =====
-- FluxTrade: a limit order book exchange, from the bytes of a client to the journal on disk.
--
-- The program. An order reaches MatchingEngine (matching/src/matching_engine.cpp), which acknowledges
-- it, matches it against the resting orders of the other side of a LimitOrderBook
-- (matching/order_book/) in price-time order, and rests, expires or drops what is left. TradeBuilder
-- (matching/src/trade_builder.cpp) writes a trade and two execution reports for each fill into an
-- ExecutionContext. The book keeps its orders and price levels in two ObjectPools
-- (common/include/common/object_pool.hpp). The values are those of domain/include/domain.
-- Ahead of the engine, the risk checks (risk/include/risk, risk/src) keep accounts, positions, seen ids
-- and message rates, and decide on each order in a pipeline of policies.
-- Around both stands the exchange. The gateway (gateway/include/gateway, gateway/src) keeps the client
-- connections, cuts their bytes into packets and puts a command for each order packet into a ring
-- (common/include/common/ring_buffer.hpp). The exchange (exchange/include/exchange, exchange/src) moves
-- the commands to the queue of their symbol's slot, where an EngineManager has each checked by the risk
-- engine, journalled and matched; its reports return through another ring to the gateway. The journal
-- (persistence/include/persistence) is written to files, which ReplayEngine reads back into a book.
--
-- The files.
-- - Prelude and its children: tests on the native numbers, integers, machine words, lists.
-- - Domain (Types, Ticks, Units, Records): domain/include/domain. A price is its signed number of
--   ticks and a quantity its unsigned number of units; sums and differences of quantities wrap at
--   2 ^ 64.
-- - Common/ObjectPool: the stack of free slots. A slot stands for an address. Common/Table: arrays as
--   functions of the index.
-- - Common/Ring: SPSCQueue, by whole calls; Common/Window and Queue: the bounded queue that it is.
--   Common/Threads and Fifo: the same code load by load and store by store, with the producer's and the
--   consumer's steps interleaved. The order of the acquire and release accesses is taken for granted.
-- - Book/Level, Book/Levels, Book/Lookup: IntrusiveOrderList and PriceLevelNode; BidBook, AskBook and
--   PriceLevelIndex; OrderLookup. A list in link order stands for the links `next` and `prev`.
-- - Book/State and Book/Ops: LimitOrderBook, with insert, cancel, modify_qty, fill_order and clear.
--   What a listener is told is the list `events`.
-- - Book/Sorted, Sums, Valid, Keep, Fill, Cancel, Modify, Link, Opens, Insert, Room: the validity invariant
--   and that the operations keep it. Book/Front: a fill takes from the front of the queue.
-- - Matching/Context, TradeBuilder, Statistics, Engine: the engine. Readings of the clock are arguments.
-- - Matching/Sweep and SweepLaws: the specification, one queue of resting orders swept from its front.
-- - Matching/Tape and Trades: what a list of fills writes beside the book.
-- - Matching/OneTrade, OneLevel, AllLevels, Ready, Finish, Submit, Outcome: the loops of submit_order
--   against that specification, and what a call comes to.
-- - Risk/Context, Credit, Margin, Duplicates, RateLimit: risk/include/risk and risk/src. Arrays are
--   functions of the index (Common/Table). Risk/Funds: where an account's money goes. Risk/Positions: the
--   position check against fills. Risk/Window: the rate check against a sliding window.
-- - Risk/Gates, Pipeline, Engine: the checks without a history, the policies in turn with their trace,
--   and RiskEngine. The comparison of the price band, which computes in double, is the parameter
--   `in_band`. Risk/Decisions: what a decision does to the order's account. Risk/Rejections: how a
--   rejection is counted.
-- - Gateway/Protocol and Commands: protocol.hpp, packet_encoder.hpp, order_command.hpp and
--   sequence_manager.hpp. Gateway/Sessions: the connection table. Gateway/Inbound: handle_packet.
--   Gateway/Framing: packet_decoder.hpp, on_read and the other callbacks. What the gateway asks of the
--   transport is the list `actions`. Gateway/Frames, Access and SessionTable: their laws.
-- - Persistence/Bytes, Checksum, CommandBytes, Journal, Disk and Replay: the bytes of the journal's
--   structures, checksum.hpp, the bytes of an OrderCommand, memory_journal.hpp, disk_journal.hpp and
--   replay_engine.hpp. A directory gives each journal file's bytes by its index, as a reader sees them;
--   what is still in the stream's buffer stands beside it, and how much of that the stream hands on of
--   its own accord is a parameter, `spill`. Persistence/Records,
--   Stream, Files, Writing, Recovery and Survival: from what is journalled to what a replay gives.
-- - Persistence/Metadata, SnapshotWriter, SnapshotReader and Recover: metadata_manager.hpp,
--   snapshot_writer.hpp, snapshot_reader.hpp and ReplayEngine::recover. Persistence/SnapshotFields
--   and Snapshots: a snapshot
--   written and read back. The writer reads a member head_order of PriceLevelNode that is declared
--   nowhere, so it does not compile as it stands; the member is a parameter, `head_order`, and the
--   theorems suppose that it leads along the level's orders.
-- - Exchange/Reports, EngineManager, Dispatcher and Venue: outbound_report.hpp, engine_manager.hpp,
--   dispatcher.hpp and exchange.cpp, a thread's loop as its rounds. Exchange/Commands, Cancels,
--   Routing and Responses: what becomes of a command, of a cancellation, of the inbound queue and of the
--   reports.
-- - Book/Samples, and Tests in Book, Matching, Risk, Common, Gateway, Persistence and Exchange: concrete
--   values and runs. So is Persistence/SnapshotTests.
--
-- Conventions. `none` is undefined behaviour of the source: an exhausted pool inside a noexcept
-- function, or a null pointer that the source takes for granted. A buy and a sell run the same text of
-- the source over the other side, and are one definition over Side. The outer loop of submit_order runs
-- on fuel, two rounds more than there are levels on the other side: every round but the last empties a
-- level. The frame parser is on fuel too, where a round for each byte and one more is enough unless a
-- frame has the length 0; the loop over the records of a file has one round for each byte and one more;
-- the loops over files and queues are on fuel that the theorems bound.
--
-- Not modelled: conversions of prices and quantities to and from double, and the comparison of the
-- price band; the setters of the risk switches; the pairing of a trace with the latencies of its stages;
-- the asserts of verify_invariants, which NDEBUG removes; sockets, and the creation and joining of
-- threads, which are the platform; the failure to open a file; MPSCQueue, which only tests use; events
-- and the kernel, for their size.
pub mod Prelude
pub mod Domain
pub mod Common
pub mod Book
pub mod Matching
pub mod Risk
pub mod Gateway
pub mod Persistence
pub mod Exchange
