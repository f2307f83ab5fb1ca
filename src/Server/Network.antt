-- ===== src/Server/Network.antt =====
-- The event loop of `main` in server.cpp: one buffer for each client, filled by `read` and emptied line
-- by line into `processLine`. What the system calls deliver, and the clocks, are the events.
pub mod Sessions
use order_matching_engine.Base.{
  ℕ, suc, Bool, true, false, Option, none, some, List, [], ◌∷◌, ◌++◌, if◌then◌else◌, Text, nat_key,
}
use order_matching_engine.Base.Exec.{Exec, ok, ◌>>=◌}
use order_matching_engine.Base.Int.{ℤ, pos}
use order_matching_engine.Base.Dict.{Dict, lookup, insert, erase}
use order_matching_engine.Server.Framing.{take_lines}
use order_matching_engine.Server.Parser.{Clocks}

-- How one call of `accept` ended for the client.
pub data Accepted : Type 0 where
  not_nonblocking not_watched connected : (client_fd : ℕ) → Accepted

-- What ended the loop of `read`: `EAGAIN`, another error, or a closed connection.
pub data ReadEnd : Type 0 where
  would_block read_error end_of_file : ReadEnd

-- The reads of one readable socket: `received` is `now_ns` after the first, `now` the clocks that
-- `processLine` reads for a line.
pub record Readable : Type 0 where
  pub chunks : List Text
  pub ending : ReadEnd
  pub received : ℤ
  pub now : ℕ → ℤ × ℤ

pub data Event : Type 0 where
  listening : (accepted : List Accepted) → Event
  readable : (client_fd : ℕ) (input : Readable) → Event

abbrev pub Buffers : Type 0
Buffers = Dict ℕ Text

-- A call of `processLine`, and the client whose line it is.
pub record Call : Type 0 where
  pub client_fd : ℕ
  pub line : Text
  pub clocks : Clocks

-- The loop of `accept`: a client gets an empty buffer once it is watched.
unfoldable pub accept_all : List Accepted → Buffers → Buffers
accept_all [] buffers = buffers
accept_all (connected fd ∷ rest) buffers = accept_all rest (insert fd [] buffers)
accept_all (_ ∷ rest) buffers = accept_all rest buffers

-- `clientBuffers[fd]`, which makes an empty buffer where there is none.
abbrev pub buffer_or_empty : Option Text → Text
buffer_or_empty none = []
buffer_or_empty (some buffer) = buffer

abbrev pub buffer_at : ℕ → Buffers → Text
buffer_at fd buffers = buffer_or_empty (lookup fd buffers)

-- The loop of `read`, which appends each chunk.
unfoldable pub append_chunks : ℕ → List Text → Buffers → Buffers
append_chunks fd [] buffers = buffers
append_chunks fd (chunk ∷ chunks) buffers =
    append_chunks fd chunks (insert fd (buffer_at fd buffers ++ chunk) buffers)

abbrev pub closed : ReadEnd → Bool
closed would_block = false
closed read_error = true
closed end_of_file = true

-- `recvTimestamp`: 0 until something is read.
abbrev pub recv_timestamp_of : Readable → ℤ
recv_timestamp_of input = elim input.chunks [ [] ↦ pos 0 | _ ∷ _ ↦ input.received ]

-- The calls of `processLine` for the lines of an event.
abbrev pub calls_for : ℕ → Readable → ℕ → List Text → List Call
calls_for fd input i [] = []
calls_for fd input i (line ∷ lines) =
    record {
      client_fd = fd;
      line = line;
      clocks = record {
        recv_timestamp = recv_timestamp_of input;
        timestamp = (input.now i).0;
        queue_push = (input.now i).1;
      };
    }
    ∷ calls_for fd input (suc i) lines

-- `if (clientBuffers.count(client_fd))` and the loop over the complete lines.
abbrev pub process_buffer : ℕ → Readable → Option Text → Buffers → Exec (List Call × Buffers)
process_buffer fd input none buffers = ok ([], buffers)
process_buffer fd input (some buffer) buffers =
    take_lines buffer >>= λ (lines, left). ok (calls_for fd input 0 lines, insert fd left buffers)

unfoldable pub on_readable : ℕ → Readable → Buffers → Exec (List Call × Buffers)
on_readable fd input buffers = do
  let filled = append_chunks fd input.chunks buffers
  r ← process_buffer fd input (lookup fd filled) filled
  ok (r.0, if closed input.ending then erase fd r.1 else r.1)

unfoldable pub on_event : Event → Buffers → Exec (List Call × Buffers)
on_event (listening accepted) buffers = ok ([], accept_all accepted buffers)
on_event (readable fd input) buffers = on_readable fd input buffers

-- The loop over the events, in the order that `epoll_wait` reports them.
unfoldable pub on_events : List Event → Buffers → Exec (List Call × Buffers)
on_events [] buffers = ok ([], buffers)
on_events (event ∷ events) buffers = do
  r ← on_event event buffers
  rs ← on_events events r.1
  ok (r.0 ++ rs.0, rs.1)

-- The arguments that the calls give to `processLine`, beside the counter.
abbrev pub inputs : List Call → List (Text × Clocks)
inputs [] = []
inputs (call ∷ calls) = (call.line, call.clocks) ∷ inputs calls
