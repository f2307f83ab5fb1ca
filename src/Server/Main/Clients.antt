-- ===== src/Server/Main/Clients.antt =====
-- The clients that are connected, as the keys of the buffers, and what the system reports about them.
use order_matching_engine.Base.{
  ℕ, ◌≡◌, refl, ap, ◌∙◌, inl, inr, true, false, Option, none, some, List, [], ◌∷◌, ◌++◌, eqb_iff,
  if◌then◌else◌, Bool-cases, arith, nat_key, Text,
}
use order_matching_engine.Base.Exec.{Returns, Returns->>=}
use order_matching_engine.Base.Dict.{Dict, lookup, insert, erase}
use order_matching_engine.Server.Descriptors.{elem, drop}
use order_matching_engine.Server.Framing.Frames.{take_lines-lines_of}
use order_matching_engine.Server.Network.{
  Accepted, not_nonblocking, not_watched, connected, Readable, Event, listening, readable, closed,
  Call, Buffers, buffer_at, accept_all, append_chunks, process_buffer, on_readable, on_event,
}
use order_matching_engine.Server.Main.{Wait, interrupted, wait_error, reported, keys}

abbrev pub after_accept : Accepted → List ℕ → List ℕ
after_accept (connected fd) clients = clients ++ fd ∷ []
after_accept _ clients = clients

abbrev pub after_accepts : List Accepted → List ℕ → List ℕ
after_accepts [] clients = clients
after_accepts (a ∷ rest) clients = after_accepts rest (after_accept a clients)

abbrev pub after_event : Event → List ℕ → List ℕ
after_event (listening accepted) clients = after_accepts accepted clients
after_event (readable fd input) clients = if closed input.ending then drop fd clients else clients

abbrev pub after_events : List Event → List ℕ → List ℕ
after_events [] clients = clients
after_events (event ∷ events) clients = after_events events (after_event event clients)

abbrev pub accepted_fd : Accepted → ℕ
accepted_fd (not_nonblocking fd) = fd
accepted_fd (not_watched fd) = fd
accepted_fd (connected fd) = fd

module _ (server_fd epoll_fd : ℕ) where
  -- `accept` returns descriptors that are not open.
  abbrev pub AreFresh : List Accepted → List ℕ → Type 0
  AreFresh [] clients = Unit
  AreFresh (a ∷ rest) clients =
      (elem (accepted_fd a) (server_fd ∷ epoll_fd ∷ clients) ≡ false)
      × AreFresh rest (after_accept a clients)

  -- `epoll_wait` reports the listening socket and clients that are connected.
  abbrev pub IsReported : Event → List ℕ → Type 0
  IsReported (listening accepted) clients = AreFresh accepted clients
  IsReported (readable fd input) clients = elem fd clients ≡ true

  abbrev pub AreReported : List Event → List ℕ → Type 0
  AreReported [] clients = Unit
  AreReported (event ∷ events) clients =
      IsReported event clients × AreReported events (after_event event clients)

  -- The same of all calls of `epoll_wait`, from some clients on.
  abbrev pub AreWaits : List Wait → List ℕ → Type 0
  AreWaits [] clients = Unit
  AreWaits (interrupted ∷ waits) clients = AreWaits waits clients
  AreWaits (wait_error ∷ waits) clients = Unit
  AreWaits (reported events ∷ waits) clients =
      AreReported events clients × AreWaits waits (after_events events clients)

module _ {V : Type 0} where
  keys-insert_new :
      (fd : ℕ) (v : V) (d : Dict ℕ V)
      → elem fd (keys d) ≡ false
      → keys (insert fd v d) ≡ keys d ++ fd ∷ []
  unfolding insert
  keys-insert_new fd v [] e = refl
  keys-insert_new fd v ((k, w) ∷ d) e = ground (arith, keys-insert_new fd v d)

  keys-insert_known :
      (fd : ℕ) (v : V) (d : Dict ℕ V) → elem fd (keys d) ≡ true → keys (insert fd v d) ≡ keys d
  unfolding insert
  keys-insert_known fd v [] e = absurd (cc)
  keys-insert_known fd v ((k, w) ∷ d) e = ground (arith, keys-insert_known fd v d, eqb_iff k fd)

  keys-erase : (fd : ℕ) (d : Dict ℕ V) → keys (erase fd d) ≡ drop fd (keys d)
  unfolding erase
  keys-erase fd [] = refl
  keys-erase fd ((k, w) ∷ d) = ground (arith, keys-erase fd d)

keys-append_chunks :
    (fd : ℕ) (chunks : List Text) (b : Buffers)
    → elem fd (keys b) ≡ true
    → keys (append_chunks fd chunks b) ≡ keys b
unfolding append_chunks
keys-append_chunks fd [] b e = refl
keys-append_chunks fd (chunk ∷ chunks) b e =
    let same = keys-insert_known fd (buffer_at fd b ++ chunk) b e in
    keys-append_chunks fd chunks (insert fd (buffer_at fd b ++ chunk) b) (rw same e) ∙ same

keys-process_buffer :
    (fd : ℕ) (input : Readable) (o : Option Text) (b : Buffers)
    → elem fd (keys b) ≡ true
    → Returns (λ (r : List Call × Buffers). keys r.1 ≡ keys b) (process_buffer fd input o b)
keys-process_buffer fd input none b e = refl
keys-process_buffer fd input (some buffer) b e =
    rw (take_lines-lines_of buffer) (keys-insert_known fd _ b e)

keys-accept_all :
    (server_fd epoll_fd : ℕ) (accepted : List Accepted) (b : Buffers)
    → AreFresh server_fd epoll_fd accepted (keys b)
    → keys (accept_all accepted b) ≡ after_accepts accepted (keys b)
unfolding accept_all
keys-accept_all s e [] b h = refl
keys-accept_all s e (not_nonblocking fd ∷ rest) b h = keys-accept_all s e rest b h.1
keys-accept_all s e (not_watched fd ∷ rest) b h = keys-accept_all s e rest b h.1
keys-accept_all s e (connected fd ∷ rest) b h =
    let fresh : elem fd (keys b) ≡ false = ground (arith, h.0) in
    let one = keys-insert_new fd [] b fresh in
    keys-accept_all s e rest (insert fd [] b) (rw one h.1) ∙ ap (after_accepts rest) one

module _ (server_fd epoll_fd : ℕ) where
  -- An event leaves a buffer for each client that is connected then, and no other.
  pub keys-on_event :
      (event : Event) (b : Buffers)
      → IsReported server_fd epoll_fd event (keys b)
      → Returns
          (λ (r : List Call × Buffers). keys r.1 ≡ after_event event (keys b))
          (on_event event b)
  unfolding on_event on_readable
  keys-on_event (listening accepted) b h = keys-accept_all server_fd epoll_fd accepted b h
  keys-on_event (readable fd input) b h =
      let filled = append_chunks fd input.chunks b in
      let same = keys-append_chunks fd input.chunks b h in
      Returns->>= (λ (r : List Call × Buffers). keys r.1 ≡ keys filled) _
        (process_buffer fd input (lookup fd filled) filled) _
        (keys-process_buffer fd input (lookup fd filled) filled (rw same h))
        (λ r k. elim (Bool-cases (closed input.ending)) [
          | inl gone ↦ rw gone (keys-erase fd r.1 ∙ ap (drop fd) (k ∙ same))
          | inr stays ↦ rw stays (k ∙ same)
        ])
