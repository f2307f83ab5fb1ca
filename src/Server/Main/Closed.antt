-- ===== src/Server/Main/Closed.antt =====
-- The descriptors that `main` opens and closes.
use order_matching_engine.Base.{
  ℕ, ◌≡◌, refl, ap, ◌∙◌, subst, inl, inr, true, false, some, List, [], ◌∷◌, ◌++◌, map, eqb, eqb_iff,
  Bool-cases, arith,
}
use order_matching_engine.Base.Exec.{Returns, Returns->>=}
use order_matching_engine.Server.Descriptors.{
  FdCall, opens, closes, elem, drop, descriptors, Distinct, descriptors-append, drop_absent,
  drop-snoc, elem-snoc, Distinct-snoc, Distinct-drop,
}
use order_matching_engine.Server.Network.{
  Accepted, not_nonblocking, not_watched, connected, Event, listening, readable, closed, Call,
  Buffers, on_event, on_events,
}
use order_matching_engine.Server.Main.{
  accept_fds, event_fds, fds_of, Wait, interrupted, wait_error, reported, event_loop, keys,
}
use order_matching_engine.Server.Main.Clients.{
  after_accepts, after_event, after_events, AreFresh, IsReported, AreReported, AreWaits,
  keys-on_event,
}

-- From some distinct descriptors, the calls lead to others, distinct too.
abbrev pub Leads : List FdCall → List ℕ → List ℕ → Type 0
Leads calls a b = (descriptors calls a ≡ some b) × Distinct b

pub Leads-append :
    (xs ys : List FdCall) (a b c : List ℕ) → Leads xs a b → Leads ys b c → Leads (xs ++ ys) a c
Leads-append xs ys a b c h k = (descriptors-append xs ys a h.0 ∙ k.0, k.1)

pub Leads-none : (a : List ℕ) → Distinct a → Leads [] a a
unfolding descriptors
Leads-none a h = (refl, h)

pub Leads-open :
    (fd : ℕ) (a : List ℕ) → elem fd a ≡ false → Distinct a → Leads (opens fd ∷ []) a (a ++ fd ∷ [])
unfolding descriptors
Leads-open fd a e h = rw e (refl, Distinct-snoc fd a e h)

pub Leads-close :
    (fd : ℕ) (a : List ℕ) → elem fd a ≡ true → Distinct a → Leads (closes fd ∷ []) a (drop fd a)
unfolding descriptors
Leads-close fd a e h = rw e (refl, Distinct-drop fd a h)

-- A descriptor that is opened and closed again.
Leads-brief :
    (fd : ℕ) (a : List ℕ) → elem fd a ≡ false → Distinct a → Leads (opens fd ∷ closes fd ∷ []) a a
unfolding descriptors
Leads-brief fd a e h = rw (e, elem-snoc fd a, drop-snoc fd a e) (refl, h)

told_apart : (x y : ℕ) (xs : List ℕ) → elem x xs ≡ false → elem y xs ≡ true → eqb x y ≡ false
told_apart x y xs e f = elim (Bool-cases (eqb x y)) [
  | inl same ↦
      let g : elem y xs ≡ false = subst (λ z. elem z xs ≡ false) ((eqb_iff x y).0 same) e in
      absurd (cc)
  | inr other ↦ other
]

eqb_refl : (x : ℕ) → eqb x x ≡ true
eqb_refl x = ground arith

module _ (server_fd epoll_fd : ℕ) where
  abbrev pub with_clients : List ℕ → List ℕ
  with_clients clients = server_fd ∷ epoll_fd ∷ clients

  accept_fds-Leads :
      (accepted : List Accepted) (clients : List ℕ)
      → AreFresh server_fd epoll_fd accepted clients
      → Distinct (with_clients clients)
      → Leads
          (accept_fds accepted)
          (with_clients clients)
          (with_clients (after_accepts accepted clients))
  accept_fds-Leads [] clients h d = Leads-none (with_clients clients) d
  accept_fds-Leads (not_nonblocking fd ∷ rest) clients h d =
      let a = with_clients clients in
      Leads-append (opens fd ∷ closes fd ∷ []) (accept_fds rest) a a _ (Leads-brief fd a h.0 d)
        (accept_fds-Leads rest clients h.1 d)
  accept_fds-Leads (not_watched fd ∷ rest) clients h d =
      let a = with_clients clients in
      Leads-append (opens fd ∷ closes fd ∷ []) (accept_fds rest) a a _ (Leads-brief fd a h.0 d)
        (accept_fds-Leads rest clients h.1 d)
  accept_fds-Leads (connected fd ∷ rest) clients h d =
      let a = with_clients clients in
      let one = Leads-open fd a h.0 d in
      Leads-append (opens fd ∷ []) (accept_fds rest) a (a ++ fd ∷ []) _ one
        (accept_fds-Leads rest (clients ++ fd ∷ []) h.1 one.1)

  -- A client is neither the listening socket nor the epoll instance.
  drop_client :
      (fd : ℕ) (clients : List ℕ)
      → elem fd clients ≡ true
      → Distinct (with_clients clients)
      → (elem fd (with_clients clients) ≡ true)
        × (drop fd (with_clients clients) ≡ with_clients (drop fd clients))
  drop_client fd clients e d =
      let server : elem server_fd clients ≡ false = ground (arith, d.0) in
      let a = told_apart server_fd fd clients server e in
      let b = told_apart epoll_fd fd clients d.1.0 e in rw (a, b) (e, refl)

  event_fds-Leads :
      (event : Event) (clients : List ℕ)
      → IsReported server_fd epoll_fd event clients
      → Distinct (with_clients clients)
      → Leads (event_fds event) (with_clients clients) (with_clients (after_event event clients))
  event_fds-Leads (listening accepted) clients h d = accept_fds-Leads accepted clients h d
  event_fds-Leads (readable fd input) clients h d = elim (Bool-cases (closed input.ending)) [
    | inl gone ↦
        let k = drop_client fd clients h d in
        rw gone (
          subst (Leads (closes fd ∷ []) (with_clients clients)) k.1
            (Leads-close fd (with_clients clients) k.0 d))
    | inr stays ↦ rw stays (Leads-none (with_clients clients) d)
  ]

  -- What is open, and of which client there is a buffer, after some calls on descriptors.
  abbrev Kept : List FdCall → List ℕ → List ℕ → Buffers → Type 0
  Kept calls clients clients' b =
      Leads calls (with_clients clients) (with_clients clients') × (keys b ≡ clients')

  on_events-Kept :
      (events : List Event) (b : Buffers)
      → AreReported server_fd epoll_fd events (keys b)
      → Distinct (with_clients (keys b))
      → Returns
          (λ (r : List Call × Buffers).
            Kept (fds_of events) (keys b) (after_events events (keys b)) r.1)
          (on_events events b)
  unfolding on_events
  on_events-Kept [] b h d = (Leads-none (with_clients (keys b)) d, refl)
  on_events-Kept (event ∷ events) b h d =
      let clients = after_event event (keys b) in
      let one = event_fds-Leads event (keys b) h.0 d in
      Returns->>= (λ (r : List Call × Buffers). keys r.1 ≡ clients) _ (on_event event b) _
        (keys-on_event server_fd epoll_fd event b h.0)
        (λ r k.
          Returns->>=
            (λ (s : List Call × Buffers).
              Kept (fds_of events) (keys r.1) (after_events events (keys r.1)) s.1)
            _ (on_events events r.1) _ (on_events-Kept events r.1 (rw k h.1) (rw k one.1))
            (λ s q. (
              Leads-append (event_fds event) (fds_of events) _ _ _ one (rw k at q.0),
              rw k at q.1,
            )))

  pub close_all-Leads :
      (clients : List ℕ)
      → Distinct (with_clients clients)
      → Leads
          (map closes clients ++ closes server_fd ∷ closes epoll_fd ∷ [])
          (with_clients clients)
          []
  unfolding descriptors
  close_all-Leads [] d =
      let apart : eqb epoll_fd server_fd ≡ false = ground (arith, d.0) in
      rw (eqb_refl server_fd, apart, eqb_refl epoll_fd) (refl, tt)
  close_all-Leads (k ∷ ks) d =
      let a = with_clients (k ∷ ks) in
      let known : elem k (k ∷ ks) ≡ true = rw (eqb_refl k) refl in
      let gone : drop k (k ∷ ks) ≡ ks = rw (eqb_refl k) (drop_absent k ks d.1.1.0) in
      let c = drop_client k (k ∷ ks) known d in
      let one : Leads (closes k ∷ []) a (with_clients ks) =
        subst (Leads (closes k ∷ []) a) (c.1 ∙ ap with_clients gone) (Leads-close k a c.0 d) in
      Leads-append (closes k ∷ []) _ a (with_clients ks) [] one (close_all-Leads ks one.1)

  pub event_loop-Kept :
      (waits : List Wait) (b : Buffers)
      → AreWaits server_fd epoll_fd waits (keys b)
      → Distinct (with_clients (keys b))
      → Returns
          (λ (r : List Call × List FdCall × Buffers).
            Leads r.1 (with_clients (keys b)) (with_clients (keys r.2)))
          (event_loop waits b)
  unfolding event_loop
  event_loop-Kept [] b h d = Leads-none (with_clients (keys b)) d
  event_loop-Kept (interrupted ∷ waits) b h d = event_loop-Kept waits b h d
  event_loop-Kept (wait_error ∷ waits) b h d = Leads-none (with_clients (keys b)) d
  event_loop-Kept (reported events ∷ waits) b h d =
      Returns->>=
        (λ (r : List Call × Buffers).
          Kept (fds_of events) (keys b) (after_events events (keys b)) r.1)
        _ (on_events events b) _ (on_events-Kept events b h.0 d)
        (λ r k.
          Returns->>=
            (λ (s : List Call × List FdCall × Buffers).
              Leads s.1 (with_clients (keys r.1)) (with_clients (keys s.2)))
            _ (event_loop waits r.1) _ (event_loop-Kept waits r.1 (rw k.1 h.1) (rw k.1 k.0.1))
            (λ s q.
              Leads-append (fds_of events) s.1 _ _ (with_clients (keys s.2)) k.0 (rw k.1 at q)))
