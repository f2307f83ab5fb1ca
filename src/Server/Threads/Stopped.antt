-- ===== src/Server/Threads/Stopped.antt =====
-- Schedules after the shutdown has cleared `running`.
use order_matching_engine.Base.{ℕ, suc, ◌≡◌, refl, ◌∙◌, false, List, [], ◌∷◌, length}
use order_matching_engine.Base.Exec.{Returns, Returns->>=, Returns-map}
use order_matching_engine.Order.{Price, Command}
use order_matching_engine.LatencyTracker.{Percent}
use order_matching_engine.Queue.{Queue}
use order_matching_engine.SpscQueue
use order_matching_engine.SpscQueue.{SpscQueue}
use order_matching_engine.SpscQueue.Ring.{Holds}
use order_matching_engine.Relay.{Turn, produce, consume, stop, Relay, produce_turn, take_turn, run}
use order_matching_engine.Server.Engine.{Instants}
use order_matching_engine.Server.Threads.{Served, while_running, serve_command, run_server}

module _ {P Q : Type 0} where
  -- The same commands carried out, the same worker, and the flag still cleared.
  abbrev pub Idle : Relay (Command P) Q (Served P) → Relay (Command P) Q (Served P) → Type 0
  Idle r r' = (r'.finished ≡ r.finished) × (r'.worker ≡ r.worker) × (r'.running ≡ false)

module _ {P : Type 0} (capacity : ℕ) where
  -- The flag is cleared, the ring holds `capacity - 1` commands, and another one waits.
  pub record IsStuck (r : Relay (Command P) (SpscQueue (Command P)) (Served P)) : Type 0 where
    pub stopped : r.running ≡ false
    pub items : List (Command P)
    pub held : Holds capacity r.queue items
    pub full : suc (length items) ≡ capacity
    pub waiting : Command P
    pub others : List (Command P)
    pub todo : r.todo ≡ waiting ∷ others

module _ {P : Type 0} ⦃d : Price P⦄ (rank : Percent → ℕ → ℕ) where
  module _ {Q : Type 0} (queue : Queue (Command P) Q) where
    produce_turn-Idle :
        (todo : List (Command P)) (r : Relay (Command P) Q (Served P))
        → r.running ≡ false
        → Idle r (produce_turn queue while_running (serve_command rank) todo r)
    produce_turn-Idle [] r e = (refl, refl, e)
    produce_turn-Idle (x ∷ xs) r e = (refl, refl, e)

    take_turn-Idle :
        (turn : Turn Instants) (r : Relay (Command P) Q (Served P))
        → r.running ≡ false
        → Returns (Idle r) (take_turn queue while_running (serve_command rank) turn r)
    unfolding take_turn
    take_turn-Idle produce r e = produce_turn-Idle r.todo r e
    take_turn-Idle (consume tick) r e = rw e (refl, refl, refl)
    take_turn-Idle stop r e = (refl, refl, refl)

    pub run_server-Idle :
        (turns : List (Turn Instants)) (r : Relay (Command P) Q (Served P))
        → r.running ≡ false
        → Returns (Idle r) (run_server rank queue turns r)
    unfolding run_server run
    run_server-Idle [] r e = (refl, refl, e)
    run_server-Idle (turn ∷ turns) r e =
        Returns->>= (Idle r) (Idle r) (take_turn queue while_running (serve_command rank) turn r) _
          (take_turn-Idle turn r e)
          (λ r' i.
            Returns-map (Idle r') (Idle r) (run_server rank queue turns r')
              (run_server-Idle turns r' i.2) (λ s j. (j.0 ∙ i.0, j.1 ∙ i.1, j.2)))
