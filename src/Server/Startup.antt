-- ===== src/Server/Startup.antt =====
-- The start of `main` in server.cpp: the listening socket and the epoll instance. What the system calls
-- return is an argument; a descriptor or a success stands for a result other than -1.
use order_matching_engine.Base.{
  ℕ, Bool, false, Option, none, some, List, [], ◌∷◌, map, if◌then◌else◌,
}
use order_matching_engine.Server.Descriptors.{FdCall, opens, closes}

-- The two calls of `fcntl`: the flags that the first reads, and whether the second sets them.
pub record Fcntl : Type 0 where
  pub get_flags : Option ℕ
  pub set_flags : ℕ → Bool

-- `setNonBlocking`, where `with_nonblock` is `flags | O_NONBLOCK`.
abbrev pub set_non_blocking : (ℕ → ℕ) → Fcntl → Bool
set_non_blocking with_nonblock fcntl = elim fcntl.get_flags [
  | none ↦ false
  | some flags ↦ fcntl.set_flags (with_nonblock flags)
]

pub record StartCalls : Type 0 where
  pub socket : Option ℕ
  pub reuse_addr : Bool
  pub reuse_port : Bool
  pub fcntl : Fcntl
  pub bind : Bool
  pub listen : Bool
  pub epoll_create1 : Option ℕ
  pub epoll_ctl : Bool

-- The message of each `return 1`.
pub data StartError : Type 0 where
  no_socket no_reuse_addr no_reuse_port no_nonblocking no_bind no_listen no_epoll
        no_listener_watch :
      StartError

pub data Start : Type 0 where
  failed : (error : StartError) → Start
  watching : (server_fd epoll_fd : ℕ) → Start

-- `if (...) { std::cerr << ...; close(...); return 1; }` around what follows.
abbrev pub or_close : Bool → List ℕ → StartError → List FdCall × Start → List FdCall × Start
or_close done fds error rest = if done then rest else (map closes fds, failed error)

abbrev pub after_call : FdCall → List FdCall × Start → List FdCall × Start
after_call call r = (call ∷ r.0, r.1)

abbrev pub watch_listener : ℕ → Option ℕ → Bool → List FdCall × Start
watch_listener server_fd none epoll_ctl = (closes server_fd ∷ [], failed no_epoll)
watch_listener server_fd (some epoll_fd) epoll_ctl = after_call (opens epoll_fd) (
    or_close epoll_ctl (epoll_fd ∷ server_fd ∷ []) no_listener_watch
      ([], watching server_fd epoll_fd))

abbrev pub listen_on : (ℕ → ℕ) → StartCalls → Option ℕ → List FdCall × Start
listen_on with_nonblock os none = ([], failed no_socket)
listen_on with_nonblock os (some server_fd) =
    let fds = server_fd ∷ [] in
    after_call (opens server_fd) (
      or_close os.reuse_addr fds no_reuse_addr (
        or_close os.reuse_port fds no_reuse_port (
          or_close (set_non_blocking with_nonblock os.fcntl) fds no_nonblocking (
            or_close os.bind fds no_bind (
              or_close os.listen fds no_listen
                (watch_listener server_fd os.epoll_create1 os.epoll_ctl))))))

unfoldable pub set_up : (ℕ → ℕ) → StartCalls → List FdCall × Start
set_up with_nonblock os = listen_on with_nonblock os os.socket
