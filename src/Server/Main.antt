-- ===== src/Server/Main.antt =====
-- `main` of server.cpp: its start, the loop around `epoll_wait` and the shutdown, with the calls that open
-- or close a descriptor. The last STATS command is in Threads.
pub mod Clients
pub mod Closed
pub mod Ended
pub mod Loop
pub mod Outcome
use order_matching_engine.Base.{ℕ, Option, none, some, List, [], ◌∷◌, ◌++◌, if◌then◌else◌, map}
use order_matching_engine.Base.Exec.{Exec, ok, ◌>>=◌}
use order_matching_engine.Base.Dict.{Dict}
use order_matching_engine.Server.Descriptors.{FdCall, opens, closes}
use order_matching_engine.Server.Startup.{StartCalls, StartError, Start, failed, watching, set_up}
use order_matching_engine.Server.Network.{
  Accepted, not_nonblocking, not_watched, connected, Event, listening, readable, closed, Call,
  Buffers, on_events,
}

-- A client that cannot be set up is closed at once.
abbrev pub accept_fds : List Accepted → List FdCall
accept_fds [] = []
accept_fds (not_nonblocking fd ∷ rest) = opens fd ∷ closes fd ∷ accept_fds rest
accept_fds (not_watched fd ∷ rest) = opens fd ∷ closes fd ∷ accept_fds rest
accept_fds (connected fd ∷ rest) = opens fd ∷ accept_fds rest

abbrev pub event_fds : Event → List FdCall
event_fds (listening accepted) = accept_fds accepted
event_fds (readable fd input) = if closed input.ending then closes fd ∷ [] else []

abbrev pub fds_of : List Event → List FdCall
fds_of [] = []
fds_of (event ∷ events) = event_fds event ++ fds_of events

-- What a call of `epoll_wait` returns: -1 with `EINTR`, -1 with another error, or events.
pub data Wait : Type 0 where
  interrupted wait_error : Wait
  reported : (events : List Event) → Wait

-- The loop, which ends where it finds `running` cleared, here after the last of the calls, or on an error.
unfoldable pub event_loop : List Wait → Buffers → Exec (List Call × List FdCall × Buffers)
event_loop [] buffers = ok ([], [], buffers)
event_loop (interrupted ∷ waits) buffers = event_loop waits buffers
event_loop (wait_error ∷ waits) buffers = ok ([], [], buffers)
event_loop (reported events ∷ waits) buffers = do
  r ← on_events events buffers
  rest ← event_loop waits r.1
  ok (r.0 ++ rest.0, fds_of events ++ rest.1, rest.2)

-- The clients that are connected.
abbrev pub keys : {V : Type 0} → Dict ℕ V → List ℕ
keys [] = []
keys ((k, v) ∷ rest) = k ∷ keys rest

-- The end of the shutdown, which closes the clients, the listening socket and the epoll instance.
abbrev pub close_all : ℕ → ℕ → Buffers → List FdCall
close_all server_fd epoll_fd buffers =
    map closes (keys buffers) ++ closes server_fd ∷ closes epoll_fd ∷ []

-- The value that `main` returns, the message if it is 1, the calls of `processLine`, and the descriptors.
pub record Exit : Type 0 where
  pub code : ℕ
  pub error : Option StartError
  pub calls : List Call
  pub fd_calls : List FdCall

abbrev pub main_from : List Wait → List FdCall → Start → Exec Exit
main_from waits fds (failed error) =
    ok (record { code = 1; error = some error; calls = []; fd_calls = fds })
main_from waits fds (watching server_fd epoll_fd) = do
  r ← event_loop waits []
  ok (record {
    code = 0;
    error = none;
    calls = r.0;
    fd_calls = fds ++ r.1 ++ close_all server_fd epoll_fd r.2;
  })

unfoldable pub server_main : (ℕ → ℕ) → StartCalls → List Wait → Exec Exit
server_main with_nonblock os waits = let s = set_up with_nonblock os in main_from waits s.0 s.1
