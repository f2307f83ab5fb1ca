-- ===== src/Server/Main/Outcome.antt =====
-- What `main` returns: the first call of its start that fails, or the events.
use order_matching_engine.Base.{
  ◌≡◌, refl, Bool, true, false, Option, none, some, List, [], ◌∷◌, ◌++◌, if◌then◌else◌, ℕ,
}
use order_matching_engine.Base.Exec.{Exec, ok, undefined, out_of_fuel, ◌>>=◌, Returns}
use order_matching_engine.Server.Descriptors.{FdCall}
use order_matching_engine.Server.Startup.{
  StartCalls, StartError, no_socket, no_epoll, no_listener_watch, no_reuse_addr, no_reuse_port,
  no_nonblocking, no_bind, no_listen, Start, failed, watching, set_non_blocking, or_close,
  watch_listener, listen_on, set_up,
}
use order_matching_engine.Server.Network.{Call, Buffers, Event, on_events}
use order_matching_engine.Server.Network.Sessions.{on_events-session}
use order_matching_engine.Server.Main.{Wait, fds_of, close_all, Exit, main_from, server_main}
use order_matching_engine.Server.Main.Loop.{events_of, event_loop-on_events}

abbrev is_some : Option ℕ → Bool
is_some none = false
is_some (some n) = true

-- The calls of the start in order, and what is printed when one fails.
abbrev pub start_checks : (ℕ → ℕ) → StartCalls → List (Bool × StartError)
start_checks with_nonblock os =
    (is_some os.socket, no_socket)
    ∷ (os.reuse_addr, no_reuse_addr)
    ∷ (os.reuse_port, no_reuse_port)
    ∷ (set_non_blocking with_nonblock os.fcntl, no_nonblocking)
    ∷ (os.bind, no_bind)
    ∷ (os.listen, no_listen)
    ∷ (is_some os.epoll_create1, no_epoll)
    ∷ (os.epoll_ctl, no_listener_watch)
    ∷ []

abbrev pub first_failure : List (Bool × StartError) → Option StartError
first_failure [] = none
first_failure ((done, error) ∷ checks) = if done then first_failure checks else some error

-- The start fails with this error, or gets through.
abbrev Ends : Option StartError → Start → Type 0
Ends none (watching server_fd epoll_fd) = Unit
Ends (some error) (failed error') = error' ≡ error
Ends _ _ = ⊥

-- A part of the start, against its checks.
record Checked (checks : List (Bool × StartError)) (r : List FdCall × Start) : Type 0 where
  pub ended : Ends (first_failure checks) r.1

or_close-Checked :
    (done : Bool) (fds : List ℕ) (error : StartError) {rest : List FdCall × Start}
    {checks : List (Bool × StartError)}
    → Checked checks rest
    → Checked ((done, error) ∷ checks) (or_close done fds error rest)
or_close-Checked true fds error h = record { ended = h.ended }
or_close-Checked false fds error h = record { ended = refl }

watch_listener-Checked :
    (server_fd : ℕ) (epoll : Option ℕ) (epoll_ctl : Bool)
    → Checked
        ((is_some epoll, no_epoll) ∷ (epoll_ctl, no_listener_watch) ∷ [])
        (watch_listener server_fd epoll epoll_ctl)
watch_listener-Checked server_fd none epoll_ctl = record { ended = refl }
watch_listener-Checked server_fd (some epoll_fd) true = record { ended = tt }
watch_listener-Checked server_fd (some epoll_fd) false = record { ended = refl }

listen_on-Ends :
    (with_nonblock : ℕ → ℕ) (os : StartCalls) (socket : Option ℕ)
    → Ends
        (first_failure (start_checks with_nonblock (record os { socket = socket })))
        (listen_on with_nonblock os socket).1
listen_on-Ends with_nonblock os none = refl
listen_on-Ends with_nonblock os (some server_fd) =
    let fds = server_fd ∷ [] in
    (or_close-Checked os.reuse_addr fds no_reuse_addr (
      or_close-Checked os.reuse_port fds no_reuse_port (
        or_close-Checked (set_non_blocking with_nonblock os.fcntl) fds no_nonblocking (
          or_close-Checked os.bind fds no_bind (
            or_close-Checked os.listen fds no_listen
              (watch_listener-Checked server_fd os.epoll_create1 os.epoll_ctl)))))).ended

-- The value of `main`, its message, and the calls of `processLine`.
abbrev pub Outcome : List Wait → Option StartError → Exit → Type 0
Outcome waits none e =
    (e.code ≡ 0)
    × (e.error ≡ none)
    × Returns (λ (r : List Call × Buffers). e.calls ≡ r.0) (on_events (events_of waits) [])
Outcome waits (some error) e = (e.code ≡ 1) × (e.error ≡ some error) × (e.calls ≡ [])

abbrev with_fds : List Event → List Call × Buffers → List Call × List FdCall × Buffers
with_fds events r = (r.0, fds_of events, r.1)

after_loop :
    (fds : List FdCall) (last : Buffers → List FdCall) (events : List Event)
    (Q : List Call × Buffers → Type 0) (m : Exec (List Call × Buffers))
    → Returns Q m
    → Returns
        (λ (e : Exit).
          (e.code ≡ 0) × (e.error ≡ none) × Returns (λ (r : List Call × Buffers). e.calls ≡ r.0) m)
        (m >>= (λ r. ok (with_fds events r)) >>= λ r.
          ok (record { code = 0; error = none; calls = r.0; fd_calls = fds ++ r.1 ++ last r.2 }))
after_loop fds last events Q (ok r) h = (refl, refl, refl)
after_loop fds last events Q undefined h = absurd h
after_loop fds last events Q out_of_fuel h = absurd h

looped-Outcome :
    (waits : List Wait) (fds : List FdCall) (server_fd epoll_fd : ℕ)
    → Returns (Outcome waits none) (main_from waits fds (watching server_fd epoll_fd))
looped-Outcome waits fds server_fd epoll_fd =
    let events = events_of waits in
    rw (event_loop-on_events waits []) (
      after_loop fds (close_all server_fd epoll_fd) events _ (on_events events [])
        (on_events-session events []))

main_from-Outcome :
    (waits : List Wait) (fds : List FdCall) (start : Start) (o : Option StartError)
    → Ends o start
    → Returns (Outcome waits o) (main_from waits fds start)
main_from-Outcome waits fds (failed error) (some e) h = (refl, rw h refl, refl)
main_from-Outcome waits fds (failed error) none h = absurd h
main_from-Outcome waits fds (watching server_fd epoll_fd) none h =
    looped-Outcome waits fds server_fd epoll_fd
main_from-Outcome waits fds (watching server_fd epoll_fd) (some e) h = absurd h

-- `main` returns 1 exactly when a call of its start fails, with the message of the first one that does and
-- without a call of `processLine`; otherwise it returns 0 once its loop has ended, and the calls of
-- `processLine` are those of the events that were reported until then.
pub server_main-Outcome :
    (with_nonblock : ℕ → ℕ) (os : StartCalls) (waits : List Wait)
    → Returns
        (Outcome waits (first_failure (start_checks with_nonblock os)))
        (server_main with_nonblock os waits)
unfolding server_main set_up
server_main-Outcome with_nonblock os waits =
    let s = listen_on with_nonblock os os.socket in
    main_from-Outcome waits s.0 s.1 (first_failure (start_checks with_nonblock os))
      (listen_on-Ends with_nonblock os os.socket)
