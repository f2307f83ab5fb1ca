-- ===== src/Tests/Clients.antt =====
-- The theorems of the network thread's buffers and formats, and of the server from end to end.
use order_matching_engine.Base.{
  ℕ, zero, suc, ◌<◌, ◌≡◌, refl, ap, true, false, Bool, Option, none, some, List, [], ◌∷◌, ◌++◌,
  arith, length, Text, All, nat_key,
}
use order_matching_engine.Base.Exec.{ok, ◌>>=◌, Returns}
use order_matching_engine.Base.Int.{pos}
use order_matching_engine.Base.Dict.{lookup, insert, erase}
use order_matching_engine.Order.{Command}
use order_matching_engine.LatencyTracker.{Percent}
use order_matching_engine.MutexQueue.{MutexQueue}
use order_matching_engine.Queue.Implementations.{mutex_queue, HasItems, mutex_queue-IsFifo}
use order_matching_engine.Relay.{Turn, produce, consume, Relay, run, take_turn}
use order_matching_engine.Server.Engine.{Instants}
use order_matching_engine.Relay.Carry.{Carried, TickOk}
use order_matching_engine.Server.Stream.{read_word, read_int, copy_symbol}
use order_matching_engine.Server.Framing.{
  newline, carriage_return, split_line, strip_return, drain, take_lines,
}
use order_matching_engine.Server.Framing.Frames.{send_all, texts, take_lines-send_all}
use order_matching_engine.Server.Network.{
  connected, Readable, would_block, Event, listening, readable, Call, Buffers, accept_all,
  append_chunks, on_readable, on_event, on_events, inputs, buffer_at,
}
use order_matching_engine.Server.Network.Sessions.{lines_from, session, on_events-session}
use order_matching_engine.Server.Parser.{process_line, process_lines}
use order_matching_engine.Server.Requests.{change, write, meaning, process_line-write}
use order_matching_engine.Server.Outcomes.{Reported, process_line-Reported}
use order_matching_engine.Server.Replay.{Replays}
use order_matching_engine.Server.Threads.{
  Served, unserved, run_server, server_start, pushed_commands, shutdown_command, shut_down,
}
use order_matching_engine.Server.Threads.Shutdown.{with_last, run_server-shut_down}
use order_matching_engine.Benchmark.{make_command}
use order_matching_engine.MutexQueue
use order_matching_engine.Server.Threads.Kept.{AreInstants, IsMarket, IsServable, IsServed}
use order_matching_engine.Server.Threads.Runs.{run_server-Carried, run_server-fair}
use order_matching_engine.Tests.Orders.{nat_price, nat_laws}
use order_matching_engine.Tests.Lines.{clocks, buy_line, book_line, read_price}
use order_matching_engine.Tests.Relays.{tick, two_rounds, two_rounds-GoingOk}

abbrev two_texts : List (Bool × Text)
two_texts = (false, 65 ∷ 66 ∷ []) ∷ (true, 67 ∷ []) ∷ []

take_lines-send_all_example :
    take_lines (send_all two_texts ++ 68 ∷ []) ≡ ok (texts two_texts, 68 ∷ [])
unfolding strip_return
take_lines-send_all_example =
    take_lines-send_all two_texts (68 ∷ []) (((refl, (refl, tt)), refl), ((((refl, tt), refl)), tt))
      (refl, tt)

-- One client connects, sends an order, whose line comes in two reads, and asks for the book.
abbrev input : Readable
input = record {
  chunks =
      (66 ∷ 85 ∷ [])
      ∷ (89 ∷ 32 ∷ 65 ∷ 32 ∷ 53 ∷ 32 ∷ 57 ∷ carriage_return ∷ newline ∷ 66 ∷ 79 ∷ 79 ∷ 75 ∷ 32 ∷ 65
          ∷ newline ∷ [])
      ∷ [];
  ending = would_block;
  received = pos 1;
  now = λ i. (pos 2, pos 3);
}

abbrev one_client : List Event
one_client = listening (connected 7 ∷ []) ∷ readable 7 input ∷ []

abbrev two_calls : List Call × Buffers
two_calls = (
  record { client_fd = 7; line = buy_line; clocks = clocks }
      ∷ record { client_fd = 7; line = book_line; clocks = clocks }
      ∷ [],
  (7, []) ∷ [],
)

one_client-two_calls : on_events one_client [] ≡ ok two_calls
unfolding on_events on_event on_readable accept_all append_chunks take_lines drain split_line
    strip_return lookup insert erase
one_client-two_calls = refl

on_events-session_example :
    Returns
      (λ (r : List Call × Buffers).
        (fd : ℕ) → lines_from fd r.0 ≡ session fd one_client (buffer_at fd []))
      (on_events one_client [])
on_events-session_example = on_events-session one_client []

-- A price is written as so many ones.
abbrev ones : ℕ → Text
ones zero = []
ones (suc n) = 49 ∷ ones n

length-ones : (n : ℕ) → length (ones n) ≡ n
length-ones zero = refl
length-ones (suc n) = omega (arith, length-ones n)

abbrev read_ones : Text → Option (ℕ × Text)
read_ones [] = none
read_ones (c ∷ s) = some (length s, [])

process_line-write_example :
    process_line 0 read_ones (write 0 read_ones ones (change 17 (65 ∷ []) 250 9)) 1 clocks
    ≡ meaning 0 read_ones ones (change 17 (65 ∷ []) 250 9) 1 clocks
process_line-write_example =
    process_line-write 0 read_ones ones (change 17 (65 ∷ []) 250 9) 1 clocks
      (λ n. ap (λ k. some (k, [])) (length-ones n)) (omega arith, (refl, tt), omega arith)

process_line-Reported_example : Reported buy_line (process_line 0 read_price buy_line 1 clocks)
process_line-Reported_example =
    process_line-Reported 0 read_price 66 (85 ∷ 89 ∷ 32 ∷ 65 ∷ 32 ∷ 53 ∷ 32 ∷ 57 ∷ []) 1 clocks
      (omega arith)

abbrev two_commands : List (Command ℕ)
two_commands = process_lines 0 read_price (inputs two_calls.0) 1

two_commands-IsServable : (count : ℕ) → count < 4 → All (IsServable count 100 5) two_commands
unfolding process_lines process_line read_word read_int copy_symbol
two_commands-IsServable count few = (
  record {
    live = (omega arith, omega arith);
    up_to = omega arith;
    shown = λ e. omega arith;
    recv = (refl, omega arith);
    push = (refl, omega arith);
  },
  (
    record {
      live = tt;
      up_to = tt;
      shown = λ e. omega arith;
      recv = (refl, omega arith);
      push = (refl, omega arith);
    },
    tt,
  ),
)

abbrev ranks : Percent → ℕ → ℕ
ranks p n = n

abbrev empty_list : MutexQueue (Command ℕ)
empty_list = record { items = [] }

tick-AreInstants : AreInstants 100 tick
tick-AreInstants = ((refl, omega arith), (refl, omega arith), (refl, omega arith))

two_rounds-TickOk : All (TickOk (AreInstants 100)) two_rounds
two_rounds-TickOk = (tt, (tick-AreInstants, (tt, (tick-AreInstants, tt))))

run_server-Carried_example :
    Returns
      (Carried HasItems two_commands (IsServed 100 5))
      (server_start 0 read_price one_client empty_list >>= run_server ranks mutex_queue two_rounds)
unfolding process_lines process_line read_word read_int copy_symbol
run_server-Carried_example =
    run_server-Carried nat_laws ranks 100 5 0 read_price mutex_queue-IsFifo empty_list one_client
      two_calls two_rounds refl one_client-two_calls (omega arith)
      (two_commands-IsServable 2 (omega arith)) two_rounds-TickOk (omega arith) (omega arith)

run_server-fair_example :
    Returns
      (λ (s : Relay (Command ℕ) (MutexQueue (Command ℕ)) (Served ℕ)).
        (s.finished ≡ two_commands)
        × Replays s.finished s.worker.engine.exchange
        × IsMarket two_commands s.worker)
      (server_start 0 read_price one_client empty_list >>= run_server ranks mutex_queue two_rounds)
unfolding process_lines process_line read_word read_int copy_symbol
run_server-fair_example =
    run_server-fair nat_laws ranks 100 5 0 read_price mutex_queue-IsFifo empty_list one_client
      two_calls two_rounds refl one_client-two_calls (omega arith)
      (two_commands-IsServable 2 (omega arith)) two_rounds-GoingOk (omega arith) (omega arith)
      (omega arith)

-- Both commands are pushed, and none is carried out yet.
abbrev both_pushed : Relay (Command ℕ) (MutexQueue (Command ℕ)) (Served ℕ)
both_pushed = record {
  todo = [];
  queue = record { items = two_commands };
  finished = [];
  processed = 0;
  running = true;
  worker = unserved;
}

two_pushes-both_pushed :
    (server_start 0 read_price one_client empty_list
      >>= run_server ranks mutex_queue (produce ∷ produce ∷ []))
    ≡ ok both_pushed
unfolding server_start pushed_commands run_server run take_turn on_events on_event on_readable
    accept_all append_chunks take_lines drain split_line strip_return lookup insert erase
    process_lines process_line read_word read_int copy_symbol MutexQueue.push
two_pushes-both_pushed = refl

abbrev final_stats : Command ℕ
final_stats = shutdown_command (make_command (λ n. n) 5) (pos 4) (pos 5)

abbrev one_tick : List (Turn Instants)
one_tick = consume tick ∷ []

run_server-shut_down_example :
    Returns
      (λ (z : Relay (Command ℕ) (MutexQueue (Command ℕ)) (Served ℕ)).
        Carried HasItems
          (with_last (mutex_queue.push final_stats both_pushed.queue).0 two_commands final_stats)
          (IsServed 100 5)
          z
        × (z.todo ≡ [])
        × (z.running ≡ false))
      (shut_down ranks mutex_queue final_stats one_tick one_tick both_pushed)
unfolding process_lines process_line read_word read_int copy_symbol
run_server-shut_down_example =
    run_server-shut_down nat_laws ranks 100 5 0 read_price mutex_queue-IsFifo empty_list one_client
      two_calls (make_command (λ n. n) 5) (pos 4) (pos 5) (produce ∷ produce ∷ []) one_tick one_tick
      both_pushed refl one_client-two_calls (omega arith) (two_commands-IsServable 3 (omega arith))
      (refl, omega arith) (refl, omega arith) (tt, (tt, tt)) (tick-AreInstants, tt)
      (tick-AreInstants, tt) (omega arith) (omega arith) two_pushes-both_pushed refl
