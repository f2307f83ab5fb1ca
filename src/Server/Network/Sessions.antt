-- ===== src/Server/Network/Sessions.antt =====
-- The session of one client, read off the events, against the calls of the event loop.
use order_matching_engine.Base.{
  ℕ, suc, ◌≡◌, refl, ap, ◌∙◌, List, [], ◌∷◌, ◌++◌, append_assoc, append-nil, eqb, eqb_iff,
  if◌then◌else◌, Bool-cases, Option-cases, inl, inr, Text, nat_key,
}
use order_matching_engine.Base.Exec.{ok, ◌>>=◌, Returns, Returns->>=}
use order_matching_engine.Base.Dict.{lookup, insert, erase, lookup-insert, lookup-erase}
use order_matching_engine.Server.Framing.Frames.{lines_of, take_lines-lines_of}
use order_matching_engine.Server.Network.{
  Accepted, not_nonblocking, not_watched, connected, Readable, Event, listening, readable, Buffers,
  Call, accept_all, buffer_at, append_chunks, closed, calls_for, process_buffer, on_readable,
  on_event, on_events,
}

-- The lines of a client's calls, in order.
abbrev pub lines_from : ℕ → List Call → List Text
lines_from fd [] = []
lines_from fd (call ∷ calls) =
    if eqb call.client_fd fd then call.line ∷ lines_from fd calls else lines_from fd calls

abbrev pub concat : List Text → Text
concat [] = []
concat (s ∷ ss) = s ++ concat ss

-- The client's unfinished line after some calls of `accept`: a new connection starts afresh.
abbrev pub accepted_left : ℕ → List Accepted → Text → Text
accepted_left fd [] left = left
accepted_left fd (connected g ∷ rest) left = accepted_left fd rest (if eqb g fd then [] else left)
accepted_left fd (_ ∷ rest) left = accepted_left fd rest left

-- What one client should get processed: the lines of its own bytes, cut off where it disconnects.
abbrev pub session : ℕ → List Event → Text → List Text
session fd [] left = []
session fd (listening accepted ∷ events) left = session fd events (accepted_left fd accepted left)
session fd (readable g input ∷ events) left =
    if eqb g fd
    then (let r = lines_of (left ++ concat input.chunks) in
        r.0 ++ session fd events (if closed input.ending then [] else r.1))
    else session fd events left

buffer_at-insert :
    (g fd : ℕ) (s : Text) (b : Buffers)
    → buffer_at fd (insert g s b) ≡ (if eqb g fd then s else buffer_at fd b)
buffer_at-insert g fd s b = elim (Bool-cases (eqb g fd)) [
  | inl same ↦ rw (lookup-insert g fd s b, same) refl
  | inr other ↦ rw (lookup-insert g fd s b, other) refl
]

buffer_at-erase :
    (g fd : ℕ) (b : Buffers) → buffer_at fd (erase g b) ≡ (if eqb g fd then [] else buffer_at fd b)
buffer_at-erase g fd b = elim (Bool-cases (eqb g fd)) [
  | inl same ↦ rw (lookup-erase g fd b, same) refl
  | inr other ↦ rw (lookup-erase g fd b, other) refl
]

buffer_at-accept_all :
    (fd : ℕ) (accepted : List Accepted) (b : Buffers)
    → buffer_at fd (accept_all accepted b) ≡ accepted_left fd accepted (buffer_at fd b)
unfolding accept_all
buffer_at-accept_all fd [] b = refl
buffer_at-accept_all fd (connected g ∷ rest) b =
    buffer_at-accept_all fd rest (insert g [] b)
    ∙ ap (accepted_left fd rest) (buffer_at-insert g fd [] b)
buffer_at-accept_all fd (not_nonblocking g ∷ rest) b = buffer_at-accept_all fd rest b
buffer_at-accept_all fd (not_watched g ∷ rest) b = buffer_at-accept_all fd rest b

buffer_at-append_chunks :
    (g fd : ℕ) (chunks : List Text) (b : Buffers)
    → buffer_at fd (append_chunks g chunks b)
      ≡ (if eqb g fd then buffer_at fd b ++ concat chunks else buffer_at fd b)
unfolding append_chunks
buffer_at-append_chunks g fd [] b = elim (Bool-cases (eqb g fd)) [
  | inl same ↦ rw (same, append-nil) refl
  | inr other ↦ rw other refl
]
buffer_at-append_chunks g fd (chunk ∷ chunks) b =
    let b' = insert g (buffer_at g b ++ chunk) b in
    let step = buffer_at-append_chunks g fd chunks b' in
    let at = buffer_at-insert g fd (buffer_at g b ++ chunk) b in
    elim (Bool-cases (eqb g fd)) [
      | inl same ↦
          let e : g ≡ fd = (eqb_iff g fd).0 same in
          rw (step, same, at, same, e) (append_assoc (buffer_at fd b) chunk (concat chunks))
      | inr other ↦ rw (step, other, at, other) refl
    ]

lines_from-calls_for :
    (g fd : ℕ) (input : Readable) (i : ℕ) (ls : List Text)
    → lines_from fd (calls_for g input i ls) ≡ (if eqb g fd then ls else [])
lines_from-calls_for g fd input i [] = elim (Bool-cases (eqb g fd)) [
  | inl same ↦ rw same refl
  | inr other ↦ rw other refl
]
lines_from-calls_for g fd input i (l ∷ ls) = elim (Bool-cases (eqb g fd)) [
  | inl same ↦ rw (lines_from-calls_for g fd input (suc i) ls, same) refl
  | inr other ↦ rw (lines_from-calls_for g fd input (suc i) ls, other) refl
]

lines_from-append :
    (fd : ℕ) (xs ys : List Call) → lines_from fd (xs ++ ys) ≡ lines_from fd xs ++ lines_from fd ys
lines_from-append fd [] ys = refl
lines_from-append fd (x ∷ xs) ys = elim (Bool-cases (eqb x.client_fd fd)) [
  | inl same ↦ rw (same, lines_from-append fd xs ys) refl
  | inr other ↦ rw (other, lines_from-append fd xs ys) refl
]

-- What the loop over the lines of one buffer leaves, for every client.
abbrev Buffered : ℕ → Buffers → List Call × Buffers → Type 0
Buffered g b r =
    (fd : ℕ)
    → let ls = lines_of (buffer_at fd b) in
      (lines_from fd r.0 ≡ (if eqb g fd then ls.0 else []))
      × (buffer_at fd r.1 ≡ (if eqb g fd then ls.1 else buffer_at fd b))

process_buffer-Buffered :
    (g : ℕ) (input : Readable) (b : Buffers)
    → Returns (Buffered g b) (process_buffer g input (lookup g b) b)
process_buffer-Buffered g input b = elim (Option-cases (lookup g b)) [
  | inl missing ↦ rw missing (λ fd. elim (Bool-cases (eqb g fd)) [
    | inl same ↦
        let e : buffer_at fd b ≡ [] = rw (← (eqb_iff g fd).0 same, missing) refl in
        rw (same, e) (refl, refl)
    | inr other ↦ rw other (refl, refl)
  ])
  | inr (buffer, found) ↦
      rw (found, take_lines-lines_of buffer)
        (λ fd. elim (Bool-cases (eqb g fd)) [
          | inl same ↦
              let e : buffer_at fd b ≡ buffer = rw (← (eqb_iff g fd).0 same, found) refl in
              rw e (
                lines_from-calls_for g fd input 0 (lines_of buffer).0 ∙ rw same refl,
                buffer_at-insert g fd (lines_of buffer).1 b ∙ rw same refl,
              )
          | inr other ↦ (
            lines_from-calls_for g fd input 0 (lines_of buffer).0 ∙ rw other refl,
            buffer_at-insert g fd (lines_of buffer).1 b ∙ rw other refl,
          )
        ])
]

-- One readable event, for every client.
abbrev Handled : ℕ → Readable → Buffers → List Call × Buffers → Type 0
Handled g input b r =
    (fd : ℕ)
    → let ls = lines_of (buffer_at fd b ++ concat input.chunks) in
      (lines_from fd r.0 ≡ (if eqb g fd then ls.0 else []))
      × (buffer_at fd r.1
          ≡ (if eqb g fd then (if closed input.ending then [] else ls.1) else buffer_at fd b))

close_after :
    (g : ℕ) (input : Readable) (b : Buffers) (r : List Call × Buffers)
    → Buffered g (append_chunks g input.chunks b) r
    → Handled g input b (r.0, if closed input.ending then erase g r.1 else r.1)
close_after g input b r h fd =
    let filled = buffer_at-append_chunks g fd input.chunks b in
    let hf = h fd in
    elim (Bool-cases (eqb g fd)) [
      | inl same ↦
          let at : buffer_at fd (append_chunks g input.chunks b)
              ≡ buffer_at fd b ++ concat input.chunks =
            rw same at filled in
          let k = rw (same, at) at hf in
          elim (Bool-cases (closed input.ending)) [
            | inl gone ↦ rw (same, gone) (k.0, buffer_at-erase g fd r.1 ∙ rw same refl)
            | inr stays ↦ rw (same, stays) k
          ]
      | inr other ↦
          let at : buffer_at fd (append_chunks g input.chunks b) ≡ buffer_at fd b =
            rw other at filled in
          let k = rw (other, at) at hf in
          elim (Bool-cases (closed input.ending)) [
            | inl gone ↦ rw (other, gone) (k.0, buffer_at-erase g fd r.1 ∙ rw other k.1)
            | inr stays ↦ rw (other, stays) k
          ]
    ]

on_readable-Handled :
    (g : ℕ) (input : Readable) (b : Buffers) → Returns (Handled g input b) (on_readable g input b)
unfolding on_readable
on_readable-Handled g input b =
    let filled = append_chunks g input.chunks b in
    Returns->>= (Buffered g filled) _ (process_buffer g input (lookup g filled) filled) _
      (process_buffer-Buffered g input filled) (close_after g input b)

-- From any buffers, the event loop returns, and for every client the lines that it hands to
-- `processLine` are, in order, the lines of that client's own bytes since it connected: what other
-- clients send, how reads cut the bytes, and the order of the events of others make no difference.
pub on_events-session :
    (events : List Event) (b : Buffers)
    → Returns
        (λ r. (fd : ℕ) → lines_from fd r.0 ≡ session fd events (buffer_at fd b))
        (on_events events b)
unfolding on_events on_event
on_events-session [] b = λ fd. refl
on_events-session (listening accepted ∷ events) b =
    let b' = accept_all accepted b in
    Returns->>=
      (λ (r : List Call × Buffers).
        (fd : ℕ) → lines_from fd r.0 ≡ session fd events (buffer_at fd b'))
      _ (on_events events b') _ (on_events-session events b')
      (λ r h fd. h fd ∙ ap (session fd events) (buffer_at-accept_all fd accepted b))
on_events-session (readable g input ∷ events) b =
    Returns->>= (Handled g input b) _ (on_readable g input b) _ (on_readable-Handled g input b)
      (later_events (λ b'. on_events-session events b'))
  where
    later_events :
        ((b' : Buffers)
          → Returns
              (λ (r : List Call × Buffers).
                (fd : ℕ) → lines_from fd r.0 ≡ session fd events (buffer_at fd b'))
              (on_events events b'))
        → (r : List Call × Buffers) → Handled g input b r
        → Returns
            (λ (s : List Call × Buffers).
              (fd : ℕ)
              → lines_from fd s.0 ≡ session fd (readable g input ∷ events) (buffer_at fd b))
            (on_events events r.1 >>= λ rs. ok (r.0 ++ rs.0, rs.1))
    later_events ih r h =
        Returns->>=
          (λ (s : List Call × Buffers).
            (fd : ℕ) → lines_from fd s.0 ≡ session fd events (buffer_at fd r.1))
          _ (on_events events r.1) _ (ih r.1)
          (λ s k fd. elim (Bool-cases (eqb g fd)) [
            | inl same ↦
                rw (same, lines_from-append fd r.0 s.0, k fd, (h fd).0, (h fd).1, same) refl
            | inr other ↦
                rw (other, lines_from-append fd r.0 s.0, k fd, (h fd).0, (h fd).1, other) refl
          ])
