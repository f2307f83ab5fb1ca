-- ===== src/Relay.antt =====
-- Two threads joined by a queue, as in server.cpp and benchmark.cpp: one retries `push` on each item of
-- its list, the other pops while its loop's test holds, and works on what it gets. A turn is one round
-- of a thread's loop; a schedule is any sequence of turns.
pub mod Carry
pub mod Fair
pub mod Once
use order_matching_engine.Base.{
  ℕ, suc, Bool, true, false, Option, none, some, List, [], ◌∷◌, ◌++◌, if◌then◌else◌,
}
use order_matching_engine.Base.Exec.{Exec, ok, ◌>>=◌}
use order_matching_engine.Queue.{Queue}

-- `tick` is what the clock shows to the working thread in a round; `stop` clears the running flag.
pub data Turn (T : Type 0) : Type 0 where
  produce : Turn T
  consume : (tick : T) → Turn T
  stop : Turn T

-- `finished` lists the items that have been worked on.
pub record Relay (A Q W : Type 0) : Type 0 where
  pub todo : List A
  pub queue : Q
  pub finished : List A
  pub processed : ℕ
  pub running : Bool
  pub worker : W

abbrev pub ready : {A Q W : Type 0} → List A → Q → W → Relay A Q W
ready items q w = record {
  todo = items;
  queue = q;
  finished = [];
  processed = 0;
  running = true;
  worker = w;
}

module _ {A Q W T : Type 0} (queue : Queue A Q) (goes_on : Bool → ℕ → Bool)
    (work : T → A → W → Exec W) where
  -- One `push` of the item at hand, which is retried in a later turn if the queue refuses it.
  abbrev pub produce_turn : List A → Relay A Q W → Relay A Q W
  produce_turn [] r = r
  produce_turn (x ∷ xs) r =
      let p = queue.push x r.queue in record r { todo = if p.0 then xs else x ∷ xs; queue = p.1 }

  -- One `pop`, and the work on its item; an empty queue only yields.
  abbrev pub consume_turn : T → Option A × Q → Relay A Q W → Exec (Relay A Q W)
  consume_turn tick (none, q) r = ok (record r { queue = q })
  consume_turn tick (some x, q) r = work tick x r.worker >>= λ w. ok (record r {
    queue = q;
    finished = r.finished ++ x ∷ [];
    processed = suc r.processed;
    worker = w;
  })

  unfoldable pub take_turn : Turn T → Relay A Q W → Exec (Relay A Q W)
  take_turn produce r = ok (produce_turn r.todo r)
  take_turn (consume tick) r =
      if goes_on r.running r.processed then consume_turn tick (queue.pop r.queue) r else ok r
  take_turn stop r = ok (record r { running = false })

  unfoldable pub run : List (Turn T) → Relay A Q W → Exec (Relay A Q W)
  run [] r = ok r
  run (turn ∷ turns) r = take_turn turn r >>= λ r'. run turns r'

-- One more push, which is not retried, by the pushing thread.
abbrev pub push_once : {A Q W : Type 0} → Queue A Q → A → Relay A Q W → Bool × Relay A Q W
push_once queue x r = let p = queue.push x r.queue in (p.0, record r { queue = p.1 })
