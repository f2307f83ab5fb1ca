-- ===== src/Lib.antt =====
-- Order matching engine: a price-time priority exchange for several symbols.
--
-- A network thread (server.cpp, the event loop of `main`) cuts what its clients send into lines, turns
-- them into commands (`processLine`) and pushes those into a single-producer single-consumer ring
-- (spsc_queue.h). A matching thread (server.cpp, `matchingEngineThread`) pops them, calls the exchange
-- (exchange.h), which routes an order to the book of its symbol (orderbook.h), and records latencies
-- (latency_tracker.h). mutex_queue.h is the locked queue that the benchmark (benchmark.cpp) compares the
-- ring with. main.cpp is a test program.
--
-- Files:
--   Base          shared names: tests, lists, `Exec` (results of C++ code: a value, undefined behaviour,
--                 or out of fuel), machine integers, dictionaries (`std::unordered_map`)
--   Order, Report order.h, and each printed line as a value with the data it shows
--   Levels        a side of a book, `std::map` of price levels with `std::list` queues; a node's handle
--                 stands for the iterator to it. Shape and Priority: order, and the list of all orders
--   OrderBook     `class OrderBook`: removeByLocation is `remove_by_location`, insertOrder `insert_order`,
--                 addOrder `add_order`, cancelOrder `cancel_order`, modifyOrder `modify_order`,
--                 matchOrders `match_orders` (its loop is `match_loop`, a round `match_turn`), printBook
--                 `print_book`, getStats `get_stats`. Spec is the abstract book, two lists of orders in
--                 priority; Index and Invariant say when a book and its index agree; Load bounds what
--                 printBook sums up, Lines tells the lines about orders from the others, Trades says
--                 what a single trade is
--   Exchange      `class Exchange`, with the same names. Routing and Changes: one operation; Live,
--                 Quiet and Loads: what holds of all books between two commands. Market is what
--                 the exchange promises, one priority book for each symbol; Agrees and Operations
--                 compare the two
--   SpscQueue     `class SPSCQueue`: whole calls (Fifo) and both threads an access at a time
--                 (Threads; their invariant is in Safety, what follows from it in Delivery)
--   MutexQueue    `class MutexQueue`, and histories of its calls
--   Queue         what the threads that use a queue rely on, and both queues as such a queue
--   Relay         two threads joined by a queue: the loop that retries `push` and the loop around `pop`,
--                 a round of a loop being a turn, under any schedule of turns. Carry: what any schedule
--                 keeps; Fair: schedules in which both threads get their turns; Once: a last push
--   LatencyTracker `class LatencyTracker`: record is `record_command`, printOrderLatency
--                 `print_order_latency`, printStats `print_stats`. Bounds and Capacity: its sums, for
--                 stamps below a bound; Stats: printStats on a consistent tracker
--   Server        `main` of server.cpp (Startup, Main; the events of its loop are in Network and Framing, the
--                 file descriptors in Descriptors), `processLine` (Stream, Parser, Ids; Decimal, Requests
--                 and Outcomes on what it reads and reports) and the body of `matchingEngineThread` (Engine);
--                 Run, Settled, Loaded, Pipeline, Refines and Replay put them together over a run of
--                 commands, Threads over a schedule of both threads and its shutdown
--   Benchmark     makeCommand is `make_command`, runBenchmark `run_benchmark`; Joined has its
--                 join, Scales part 3, and Parts and Comparison have parts 4 and 5
--   TestProgram   `main` of main.cpp
--   Tests         concrete books, rings, trackers, lines, clients and schedules
--
-- Numbers. `uint64_t` counters wrap at 2 ^ 64; `int` and `int64_t` results outside their type are
-- undefined behaviour. A live quantity is between 1 and 2 ^ 31 - 1. A price is a type with `<` and `==`,
-- over the hypothesis that `<` is a strict weak order whose ties `==` finds (a `double` that is no NaN).
-- The fuel of `match_loop` is the number of resting orders and one, since each round takes one out.
--
-- `drain`, the loop over the lines of a buffer, has the length of the buffer and one, since each round
-- takes a newline off. A clock reading is an argument; a bound on the readings stands for the time that the
-- process runs, and the sums of latencies are bounded with it. The network thread pushes whole commands,
-- one after the other, so the list of them is the same under every schedule; a push and a pop of the ring
-- are one step of a schedule each (SpscQueue.Threads has their accesses). `on_events` and `event_loop` go
-- along the events and the calls of `epoll_wait` that happen before `running` is cleared.
--
-- Not modelled: the system calls themselves (their results are arguments, and what the theorems rely on is
-- `IsSystem` of Server.Main), their addresses, ports and options, the text layout of the reports, arithmetic
-- on `double`s (the ranks of percentiles, reading a price and throughputs), weak memory (the ring's accesses
-- are interleaved as its acquire and release orders make them appear).
pub mod Base
pub mod Order
pub mod Report
pub mod Levels
pub mod OrderBook
pub mod Exchange
pub mod Queue
pub mod Relay
pub mod Benchmark
pub mod TestProgram
pub mod SpscQueue
pub mod MutexQueue
pub mod LatencyTracker
pub mod Server
pub mod Tests
