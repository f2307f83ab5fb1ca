-- ===== src/Server.antt =====
-- server.cpp: the network thread, which turns a line into a command (Parser), and the matching thread,
-- which carries a command out (Engine). The queue between them is SpscQueue.
pub mod Stream
pub mod Framing
pub mod Network
pub mod Decimal
pub mod Parser
pub mod Requests
pub mod Outcomes
pub mod Ids
pub mod Engine
pub mod Run
pub mod Settled
pub mod Loaded
pub mod Pipeline
pub mod Refines
pub mod Replay
pub mod Threads
pub mod Descriptors
pub mod Startup
pub mod Main
