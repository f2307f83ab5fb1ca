-- ===== src/Tests/Startup.antt =====
-- The theorems of `main` in server.cpp: one start, one client that sends a line and disconnects.
use order_matching_engine.Base.{ℕ, ◌+◌, ◌≡◌, refl, false, true, some, List, [], ◌∷◌}
use order_matching_engine.Base.Exec.{ok, ◌>>=◌, Returns}
use order_matching_engine.Base.Int.{pos}
use order_matching_engine.Server.Descriptors.{descriptors}
use order_matching_engine.Server.Startup.{StartCalls}
use order_matching_engine.Server.Network.{
  not_nonblocking, connected, Readable, would_block, end_of_file, listening, readable, on_events,
}
use order_matching_engine.Server.Main.{
  Wait, interrupted, wait_error, reported, event_loop, fds_of, Exit, server_main,
}
use order_matching_engine.Server.Main.Ended.{server_main-closes}
use order_matching_engine.Server.Main.Loop.{events_of, event_loop-on_events}
use order_matching_engine.Server.Main.Outcome.{
  start_checks, first_failure, Outcome, server_main-Outcome,
}
use order_matching_engine.Server.Framing.{newline}

abbrev os : StartCalls
os = record {
  socket = some 3;
  reuse_addr = true;
  reuse_port = true;
  fcntl = record { get_flags = some 2; set_flags = λ flags. true };
  bind = true;
  listen = true;
  epoll_create1 = some 4;
  epoll_ctl = true;
}

-- The port is taken.
abbrev port_taken : StartCalls
port_taken = record os { bind = false }

abbrev with_nonblock : ℕ → ℕ
with_nonblock flags = flags + 2048

abbrev stats_line : Readable
stats_line = record {
  chunks = (83 ∷ 84 ∷ 65 ∷ 84 ∷ 83 ∷ newline ∷ []) ∷ [];
  ending = would_block;
  received = pos 1;
  now = λ i. (pos 2, pos 3);
}

abbrev hang_up : Readable
hang_up = record stats_line { chunks = []; ending = end_of_file }

-- Of two clients one cannot be set up, so that its descriptor is used again; one disconnects, one stays.
abbrev waits : List Wait
waits =
    reported (listening (not_nonblocking 5 ∷ connected 5 ∷ []) ∷ readable 5 stats_line ∷ [])
    ∷ interrupted
    ∷ reported (listening (connected 6 ∷ []) ∷ readable 5 hang_up ∷ [])
    ∷ wait_error
    ∷ []

server_main-closes_example :
    Returns (λ (e : Exit). descriptors e.fd_calls [] ≡ some []) (server_main with_nonblock os waits)
server_main-closes_example =
    server_main-closes with_nonblock os waits
      (refl, ((((refl, (refl, tt)), (refl, tt))), ((((refl, tt), (refl, tt))), tt)))

event_loop-on_events_example :
    event_loop waits []
    ≡ (on_events (events_of waits) [] >>= λ r. ok (r.0, fds_of (events_of waits), r.1))
event_loop-on_events_example = event_loop-on_events waits []

server_main-Outcome_example :
    Returns
      (Outcome waits (first_failure (start_checks with_nonblock port_taken)))
      (server_main with_nonblock port_taken waits)
server_main-Outcome_example = server_main-Outcome with_nonblock port_taken waits
