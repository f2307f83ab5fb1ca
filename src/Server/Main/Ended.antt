-- ===== src/Server/Main/Ended.antt =====
-- `main` from its start to its end: no descriptor stays open.
use order_matching_engine.Base.{
  ℕ, ◌≡◌, refl, Bool, true, false, Option, none, some, List, [], ◌∷◌, ◌++◌, map, eqb, arith,
}
use order_matching_engine.Base.Exec.{Returns, Returns->>=}
use order_matching_engine.Server.Descriptors.{FdCall, opens, closes, descriptors}
use order_matching_engine.Server.Startup.{
  StartCalls, StartError, no_reuse_addr, no_reuse_port, no_nonblocking, no_bind, no_listen, Start,
  failed, watching, set_non_blocking, or_close, watch_listener, listen_on, set_up,
}
use order_matching_engine.Server.Network.{Call, Buffers}
use order_matching_engine.Server.Main.{
  Wait, event_loop, keys, close_all, Exit, main_from, server_main,
}
use order_matching_engine.Server.Main.Clients.{AreWaits}
use order_matching_engine.Server.Main.Closed.{
  Leads, Leads-append, Leads-none, Leads-open, close_all-Leads, event_loop-Kept,
}

-- The system gives the epoll instance a descriptor of its own, and reports as documented afterwards.
abbrev pub IsSystem : Option ℕ → Option ℕ → List Wait → Type 0
IsSystem (some server_fd) (some epoll_fd) waits =
    (eqb server_fd epoll_fd ≡ false) × AreWaits server_fd epoll_fd waits []
IsSystem _ _ waits = Unit

abbrev after_start : Start → List ℕ
after_start (failed error) = []
after_start (watching server_fd epoll_fd) = server_fd ∷ epoll_fd ∷ []

abbrev WaitsOk : Start → List Wait → Type 0
WaitsOk (failed error) waits = Unit
WaitsOk (watching server_fd epoll_fd) waits = AreWaits server_fd epoll_fd waits []

-- The calls of a part of the start, from what is open, lead to what `main` goes on with.
abbrev Starts : List Wait → List ℕ → List FdCall × Start → Type 0
Starts waits a r = Leads r.0 a (after_start r.1) × WaitsOk r.1 waits

or_close-Starts :
    (waits : List Wait) (done : Bool) (fds : List ℕ) (error : StartError)
    (rest : List FdCall × Start) (a : List ℕ)
    → Leads (map closes fds) a []
    → Starts waits a rest
    → Starts waits a (or_close done fds error rest)
or_close-Starts waits true fds error rest a h k = k
or_close-Starts waits false fds error rest a h k = (h, tt)

eqb_refl : (x : ℕ) → eqb x x ≡ true
eqb_refl x = ground arith

close_one : (fd : ℕ) → Leads (closes fd ∷ []) (fd ∷ []) []
unfolding descriptors
close_one fd = rw (eqb_refl fd) (refl, tt)

watch_listener-Starts :
    (server_fd : ℕ) (epoll : Option ℕ) (epoll_ctl : Bool) (waits : List Wait)
    → IsSystem (some server_fd) epoll waits
    → Starts waits (server_fd ∷ []) (watch_listener server_fd epoll epoll_ctl)
unfolding descriptors
watch_listener-Starts server_fd none epoll_ctl waits h = (close_one server_fd, tt)
watch_listener-Starts server_fd (some epoll_fd) true waits h =
    (Leads-open epoll_fd (server_fd ∷ []) (rw h.0 refl) (refl, tt), h.1)
watch_listener-Starts server_fd (some epoll_fd) false waits h =
    rw (h.0, eqb_refl epoll_fd, eqb_refl server_fd) ((refl, tt), tt)

listen_on-Starts :
    (with_nonblock : ℕ → ℕ) (os : StartCalls) (socket : Option ℕ) (waits : List Wait)
    → IsSystem socket os.epoll_create1 waits
    → Starts waits [] (listen_on with_nonblock os socket)
listen_on-Starts with_nonblock os none waits h = (Leads-none [] tt, tt)
listen_on-Starts with_nonblock os (some server_fd) waits h =
    let fds = server_fd ∷ [] in
    let c = close_one server_fd in
    let rest = or_close-Starts waits os.reuse_addr fds no_reuse_addr _ fds c (
      or_close-Starts waits os.reuse_port fds no_reuse_port _ fds c (
        or_close-Starts waits (set_non_blocking with_nonblock os.fcntl) fds no_nonblocking _ fds c (
          or_close-Starts waits os.bind fds no_bind _ fds c (
            or_close-Starts waits os.listen fds no_listen _ fds c
              (watch_listener-Starts server_fd os.epoll_create1 os.epoll_ctl waits h))))) in
    (
      Leads-append (opens server_fd ∷ []) _ [] fds _ (Leads-open server_fd [] refl tt) rest.0,
      rest.1,
    )

main_from-closes :
    (waits : List Wait) (fds : List FdCall) (start : Start)
    → Leads fds [] (after_start start)
    → WaitsOk start waits
    → Returns (λ (e : Exit). descriptors e.fd_calls [] ≡ some []) (main_from waits fds start)
main_from-closes waits fds (failed error) h w = h.0
main_from-closes waits fds (watching server_fd epoll_fd) h w =
    Returns->>=
      (λ (r : List Call × List FdCall × Buffers).
        Leads r.1 (server_fd ∷ epoll_fd ∷ []) (server_fd ∷ epoll_fd ∷ keys r.2))
      _ (event_loop waits []) _ (event_loop-Kept server_fd epoll_fd waits [] w h.1)
      (λ r k.
        let last = close_all-Leads server_fd epoll_fd (keys r.2) k.1 in
        (Leads-append (fds ++ r.1) (close_all server_fd epoll_fd r.2) [] _ []
          (Leads-append fds r.1 [] _ _ h k) last).0)

-- `main` closes each descriptor that it opens exactly once, and closes nothing that is not open, whichever
-- call of its start fails, however the clients come and go, and whatever ends the loop around `epoll_wait`:
-- run from no descriptor, all its calls that open or close one leave none. The system is assumed to return
-- descriptors that are not open, and to report the clients that are connected.
pub server_main-closes :
    (with_nonblock : ℕ → ℕ) (os : StartCalls) (waits : List Wait)
    → IsSystem os.socket os.epoll_create1 waits
    → Returns
        (λ (e : Exit). descriptors e.fd_calls [] ≡ some [])
        (server_main with_nonblock os waits)
unfolding server_main set_up
server_main-closes with_nonblock os waits h =
    let s = listen_on with_nonblock os os.socket in
    let start = listen_on-Starts with_nonblock os os.socket waits h in
    main_from-closes waits s.0 s.1 start.0 start.1
