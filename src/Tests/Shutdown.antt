-- ===== src/Tests/Shutdown.antt =====
-- The theorems of the shutdown, on a full ring of three slots.
use order_matching_engine.Base.{ℕ, false, List, [], ◌∷◌}
use order_matching_engine.Order.{Command}
use order_matching_engine.LatencyTracker.{Percent}
use order_matching_engine.SpscQueue
use order_matching_engine.SpscQueue.{SpscQueue}
use order_matching_engine.Relay.{Relay}
use order_matching_engine.Benchmark.{make_command}
use order_matching_engine.Server.Threads.{Served, unserved}
use order_matching_engine.Tests.Orders.{nat_price}

abbrev order : ℕ → Command ℕ
order = make_command (λ n. n)

abbrev slots : List (Command ℕ)
slots = order 0 ∷ order 0 ∷ order 0 ∷ []

abbrev one_queued : SpscQueue (Command ℕ)
one_queued = (SpscQueue.push 3 (order 1) (SpscQueue.fresh slots)).1

abbrev full_ring : SpscQueue (Command ℕ)
full_ring = (SpscQueue.push 3 (order 2) one_queued).1

-- The signal has come while the network thread retries a push.
abbrev stopped : Relay (Command ℕ) (SpscQueue (Command ℕ)) (Served ℕ)
stopped = record {
  todo = order 3 ∷ [];
  queue = full_ring;
  finished = [];
  processed = 0;
  running = false;
  worker = unserved;
}

abbrev ranks : Percent → ℕ → ℕ
ranks p n = n
