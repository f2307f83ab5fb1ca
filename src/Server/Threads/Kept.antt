-- ===== src/Server/Threads/Kept.antt =====
-- What the matching thread keeps while it carries out commands.
use order_matching_engine.Base.{
  if◌then◌else◌, ℕ, suc, ◌*◌, ◌^◌, ◌<◌, ◌≤◌, ◌≡◌, refl, inl, inr, Bool, true, false, Option, List,
  [], ◌∷◌, ◌++◌, Bool-cases, length,
}
use order_matching_engine.Base.Exec.{Returns}
use order_matching_engine.Base.Int.{is_zero, int_limit}
use order_matching_engine.Order.{Price, CommandType, book, Command}
use order_matching_engine.OrderBook.Load.{IsUpTo}
use order_matching_engine.Exchange.Loads.{IsLoaded}
use order_matching_engine.Report.{Report}
use order_matching_engine.OrderBook.Lines.{is_order_line}
use order_matching_engine.Exchange.Market.{empty_market, carry_out_all}
use order_matching_engine.Exchange.Agrees.{Agrees}
use order_matching_engine.Exchange.Quiet.{IsQuiet}
use order_matching_engine.LatencyTracker.{
  LatencyTracker, Percent, StatsReport, print_stats, report_stats,
}
use order_matching_engine.LatencyTracker.Totals.{IsConsistent}
use order_matching_engine.LatencyTracker.Bounds.{IsInstant, Within, sum_of_times}
use order_matching_engine.Server.Engine.{Instants, Output, line}
use order_matching_engine.Server.Ids.{is_new, Ascending}
use order_matching_engine.Server.Run.{IsReady}
use order_matching_engine.Server.Pipeline.{IsLiveCommand, OfQuantity, next_id}
use order_matching_engine.Server.Replay.{Replays}
use order_matching_engine.Server.Threads.{Served}

-- The clock readings of one command.
abbrev pub AreInstants : ℕ → Instants → Type 0
AreInstants bound t =
    IsInstant bound t.popped × IsInstant bound t.started_at × IsInstant bound t.completed

abbrev pub is_book : CommandType → Bool
is_book book = true
is_book _ = false

module _ {P : Type 0} where
  -- A command of live quantities of at most `top`, which is stamped by a clock below the bound. If it
  -- shows a book, then `count` such quantities add up to an `int`.
  pub record IsServable (count bound top : ℕ) (cmd : Command P) : Type 0 where
    pub live : IsLiveCommand cmd
    pub up_to : OfQuantity (IsUpTo top) cmd.type cmd
    pub shown : is_book cmd.type ≡ true → count * top < int_limit
    pub recv : IsInstant bound cmd.ts_network_recv
    pub push : IsInstant bound cmd.ts_queue_push

  -- The least id that a new order may have after these commands.
  abbrev pub next_after : ℕ → List (Command P) → ℕ
  next_after next [] = next
  next_after next (cmd ∷ cmds) = next_after (next_id cmd.type next cmd) cmds

  pub next_after-snoc :
      (next : ℕ) (cmds : List (Command P)) (cmd : Command P)
      → next_id cmd.type (next_after next cmds) cmd ≡ next_after next (cmds ++ cmd ∷ [])
  next_after-snoc next [] cmd = refl
  next_after-snoc next (c ∷ cmds) cmd = next_after-snoc (next_id c.type next c) cmds cmd

  pub Ascending-next_after :
      (next : ℕ) (before : List (Command P)) (x : Command P) (after : List (Command P))
      → Ascending next (before ++ x ∷ after)
      → is_new x.type ≡ true
      → next_after next before ≤ x.order_id
  Ascending-next_after next [] x after a e = (rw e at a).0
  Ascending-next_after next (c ∷ before) x after a e = elim (Bool-cases (is_new c.type)) [
    | inl n ↦
        (let k : (next ≤ c.order_id) × Ascending (suc c.order_id) (before ++ x ∷ after) =
            rw n at a in
          rw n (Ascending-next_after (suc c.order_id) before x after k.1 e))
    | inr n ↦
        (let k : Ascending next (before ++ x ∷ after) = rw n at a in
          rw n (Ascending-next_after next before x after k e))
  ]

pub print_stats-Within :
    (rank : Percent → ℕ → ℕ) (m : ℕ) (t : LatencyTracker)
    → Within m t
    → 3 * m < 2 ^ 63
    → Returns (λ (r : Option StatsReport × LatencyTracker). Within m r.1) (print_stats rank t)
unfolding print_stats report_stats
print_stats-Within rank m t w h =
    let f = sum_of_times m t w h in
    elim (Bool-cases (is_zero t.total_count)) [
      | inl none_yet ↦ rw none_yet w
      | inr some_yet ↦
          rw (some_yet, f.0, f.1)
            (record {
              count = w.count;
              e2e = w.e2e;
              network = w.network;
              queue = w.queue;
              matching = w.matching;
            })
    ]

-- The printed lines about orders, without the latencies, the statistics and the books.
abbrev pub order_lines : {P : Type 0} → List (Output P) → List (Report P)
order_lines [] = []
order_lines (line r ∷ outputs) =
    if is_order_line r then r ∷ order_lines outputs else order_lines outputs
order_lines (_ ∷ outputs) = order_lines outputs

module _ {P : Type 0} ⦃d : Price P⦄ where
  -- The exchange, and the printed lines about orders, are the market's after these commands.
  abbrev pub IsMarket : List (Command P) → Served P → Type 0
  IsMarket cmds s =
      Agrees s.engine.exchange (carry_out_all cmds empty_market).1
      × (order_lines s.printed ≡ (carry_out_all cmds empty_market).0)

  -- What the matching thread keeps, whatever the schedule.
  pub record IsServed (bound top : ℕ) (done : List (Command P)) (s : Served P) : Type 0 where
    pub ready : IsReady (next_after 1 done) s.engine.exchange
    pub quiet : IsQuiet s.engine.exchange
    pub loaded : IsLoaded (length done) top s.engine.exchange
    pub replays : Replays done s.engine.exchange
    pub agrees : Agrees s.engine.exchange (carry_out_all done empty_market).1
    pub says : order_lines s.printed ≡ (carry_out_all done empty_market).0
    pub consistent : IsConsistent s.engine.tracker
    pub within : Within (length done * bound) s.engine.tracker
