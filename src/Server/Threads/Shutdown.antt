-- ===== src/Server/Threads/Shutdown.antt =====
-- The shutdown of the server: the last STATS command, the cleared flag and the join.
use order_matching_engine.Base.{
  ℕ, suc, ◌+◌, ◌*◌, ◌^◌, ◌<◌, ◌≤◌, ◌≡◌, refl, Bool, true, false, Option, List, [], ◌∷◌, ◌++◌, arith,
  Text, All, All-append, length, length-append, if◌then◌else◌, inl, inr, Bool-cases,
}
use order_matching_engine.Base.Exec.{
  ok, ◌>>=◌, Returns, Returns->>=, Returns-map, Returns-both, Returns-ok,
}
use mathlib.Core.Bool.{false≢true}
use order_matching_engine.Base.Int.{ℤ}
use order_matching_engine.Order.{Price, IsOrdered, Command}
use order_matching_engine.LatencyTracker.{Percent}
use order_matching_engine.LatencyTracker.Bounds.{IsInstant}
use order_matching_engine.Queue.{Queue, IsFifo}
use order_matching_engine.Relay.{Turn, stop, Relay, run, take_turn, push_once, ready}
use order_matching_engine.Relay.Carry.{Keeps, Carried, TickOk, ready-Carried, run-Carried}
use order_matching_engine.Relay.Once.{Keeps-prefix, push_once-Carried, Pushed, run-Pushed}
use order_matching_engine.Server.Parser.{process_lines}
use order_matching_engine.Server.Ids.{is_new, Ascending, process_lines-Ascending}
use order_matching_engine.Server.Network.{Event, Call, Buffers, on_events, inputs}
use order_matching_engine.Server.Engine.{Instants}
use order_matching_engine.Server.Threads.{
  Served, unserved, while_running, serve_command, run_server, server_start, pushed_commands,
  shutdown_command, shut_down,
}
use order_matching_engine.Server.Threads.Kept.{AreInstants, IsServable, IsServed}
use order_matching_engine.Server.Threads.Runs.{serve_command-Keeps, start-IsServed, length-inputs}
use order_matching_engine.Server.Threads.Stopped.{run_server-Idle}

-- A command at the end that makes no order.
Ascending-snoc :
    {P : Type 0} (next : ℕ) (cmds : List (Command P)) (last : Command P)
    → is_new last.type ≡ false
    → Ascending next cmds
    → Ascending next (cmds ++ last ∷ [])
Ascending-snoc next [] last e a = rw e tt
Ascending-snoc next (cmd ∷ cmds) last e a = elim (Bool-cases (is_new cmd.type)) [
  | inl makes ↦
      let k : (next ≤ cmd.order_id) × Ascending (suc cmd.order_id) cmds = rw makes at a in
      rw makes (k.0, Ascending-snoc (suc cmd.order_id) cmds last e k.1)
  | inr none_made ↦
      let k : Ascending next cmds = rw none_made at a in
      rw none_made (Ascending-snoc next cmds last e k)
]

-- The commands that the matching thread may get: these, and the last one if the queue takes it.
abbrev pub with_last : {P : Type 0} → Bool → List (Command P) → Command P → List (Command P)
with_last taken items last = if taken then items ++ last ∷ [] else items

module _ {P : Type 0} ⦃d : Price P⦄ (laws : IsOrdered P) (rank : Percent → ℕ → ℕ)
    (bound top : ℕ) where
  with_last-Keeps :
      (taken : Bool) (items : List (Command P)) (last : Command P)
      → Keeps (items ++ last ∷ []) (AreInstants bound) (serve_command rank) (IsServed bound top)
      → Keeps
          (with_last taken items last)
          (AreInstants bound)
          (serve_command rank)
          (IsServed bound top)
  with_last-Keeps true items last k = k
  with_last-Keeps false items last k = Keeps-prefix items (last ∷ []) k

  -- From a state in which nothing is left to push.
  shut_down-Carried :
      {Q : Type 0} {queue : Queue (Command P) Q} {holds : Q → List (Command P) → Type 0}
      (fifo : IsFifo queue holds) (items : List (Command P)) (last : Command P)
      (between after : List (Turn Instants)) (r : Relay (Command P) Q (Served P))
      → Keeps (items ++ last ∷ []) (AreInstants bound) (serve_command rank) (IsServed bound top)
      → All (TickOk (AreInstants bound)) between
      → All (TickOk (AreInstants bound)) after
      → r.todo ≡ []
      → Carried holds items (IsServed bound top) r
      → Returns
          (λ (s : Relay (Command P) Q (Served P)).
            Carried holds (with_last (queue.push last r.queue).0 items last) (IsServed bound top) s
            × (s.todo ≡ [])
            × (s.running ≡ false))
          (shut_down rank queue last between after r)
  unfolding shut_down run_server run take_turn
  shut_down-Carried {queue = queue} {holds = holds} fifo items last between after r k t u e c =
      let p = push_once queue last r in
      let k' = with_last-Keeps p.0 items last k in
      let good = Pushed fifo while_running k' in
      Returns->>= good _ (run_server rank queue between p.1) _
        (run-Pushed fifo while_running k' between p.1 t
          (push_once-Carried fifo items (IsServed bound top) last r c e, e))
        (λ s g.
          Returns-map _ _ (run_server rank queue (stop ∷ after) s)
            (Returns-both good _ (run_server rank queue (stop ∷ after) s)
              (run-Pushed fifo while_running k' (stop ∷ after) s (tt, u) g)
              (Returns-map _ _ (run_server rank queue after (record s { running = false }))
                (run_server-Idle rank queue after (record s { running = false }) refl)
                (λ z i. i.2)))
            (λ z h. (h.0.0, h.0.1, h.1)))

  -- The last STATS command is as good as the others, whatever the unset fields hold.
  last-IsServable :
      (count : ℕ) (unset : Command P) (recv push : ℤ)
      → IsInstant bound recv
      → IsInstant bound push
      → IsServable count bound top (shutdown_command unset recv push)
  last-IsServable count unset recv push a b = record {
    live = tt;
    up_to = tt;
    shown = λ e. absurd (false≢true e);
    recv = a;
    push = b;
  }

  last-Keeps :
      (items : List (Command P)) (unset : Command P) (recv push : ℤ)
      → Ascending 1 items
      → All (IsServable (suc (length items)) bound top) items
      → IsInstant bound recv
      → IsInstant bound push
      → 0 < bound
      → 3 * (suc (length items) * bound) < 2 ^ 63
      → Keeps
          (items ++ shutdown_command unset recv push ∷ [])
          (AreInstants bound)
          (serve_command rank)
          (IsServed bound top)
  last-Keeps items unset recv push a k v w p h =
      let last = shutdown_command unset recv push in
      let count : length (items ++ last ∷ []) ≡ suc (length items) =
        omega (arith, length-append items (last ∷ [])) in
      serve_command-Keeps laws rank bound top (items ++ last ∷ [])
        (Ascending-snoc 1 items last refl a)
        (rw count (
          All-append (IsServable (suc (length items)) bound top) items (last ∷ []) k
            (last-IsServable (suc (length items)) unset recv push v w, tt)))
        p (rw count h)

  module _ (zero_price : P) (read_price : Text → Option (P × Text)) where
    -- The end of a run: where events, commands, clocks and queue are as for a run from end to end, counting
    -- one command more, and the network thread has pushed all commands when its loop ends, the shutdown
    -- returns with `running` cleared and nothing left to push, whatever the fields of the last command hold
    -- that the code does not set, and whatever the matching thread does before and after the flag is
    -- cleared. It has carried out a prefix of the commands, with the last STATS command behind them if the
    -- queue takes it at the start of the shutdown, in order and each once; the rest of these is what the
    -- queue still holds. The exchange and the tracker satisfy what they do in a run from end to end.
    -- The order of the prices is `IsOrdered`.
    pub run_server-shut_down :
        {Q : Type 0} {queue : Queue (Command P) Q} {holds : Q → List (Command P) → Type 0}
        (fifo : IsFifo queue holds) (q : Q) (events : List Event) (r : List Call × Buffers)
        (unset : Command P) (recv push : ℤ) (turns between after : List (Turn Instants))
        (s : Relay (Command P) Q (Served P))
        → holds q []
        → on_events events [] ≡ ok r
        → 1 + length r.0 < 2 ^ 64
        → All
            (IsServable
              (suc (length (process_lines zero_price read_price (inputs r.0) 1)))
              bound
              top)
            (process_lines zero_price read_price (inputs r.0) 1)
        → IsInstant bound recv
        → IsInstant bound push
        → All (TickOk (AreInstants bound)) turns
        → All (TickOk (AreInstants bound)) between
        → All (TickOk (AreInstants bound)) after
        → 0 < bound
        → 3 * (suc (length (process_lines zero_price read_price (inputs r.0) 1)) * bound) < 2 ^ 63
        → (server_start zero_price read_price events q >>= run_server rank queue turns) ≡ ok s
        → s.todo ≡ []
        → Returns
            (λ (z : Relay (Command P) Q (Served P)).
              Carried holds
                (with_last
                  (queue.push (shutdown_command unset recv push) s.queue).0
                  (process_lines zero_price read_price (inputs r.0) 1)
                  (shutdown_command unset recv push))
                (IsServed bound top)
                z
              × (z.todo ≡ [])
              × (z.running ≡ false))
            (shut_down rank queue (shutdown_command unset recv push) between after s)
    unfolding run_server server_start pushed_commands
    run_server-shut_down {queue = queue} fifo q events r unset recv push turns between after s empty
          e n k v w t u x p h done over =
        let items = process_lines zero_price read_price (inputs r.0) 1 in
        let last = shutdown_command unset recv push in
        let a =
          process_lines-Ascending zero_price read_price (inputs r.0) 1
            (omega (arith, length-inputs r.0)) in
        let keeps = last-Keeps items unset recv push a k v w p h in
        let before =
          run-Carried fifo while_running (Keeps-prefix items (last ∷ []) keeps) turns
            (ready items q unserved) t
            (ready-Carried items (IsServed bound top) q unserved empty
              (start-IsServed laws rank bound top)) in
        shut_down-Carried fifo items last between after s keeps u x over
          (Returns-ok _ s before (rw e at done))
