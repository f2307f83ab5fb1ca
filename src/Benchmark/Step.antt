-- ===== src/Benchmark/Step.antt =====
-- One command of the benchmark's consumer thread.
use order_matching_engine.Base.{
  ℕ, suc, ◌+◌, ◌*◌, ◌^◌, ◌<◌, ◌≡◌, refl, ap, ◌∙◌, sym, subst, List, [], ◌∷◌, ◌++◌, arith, length,
  length-append,
}
use order_matching_engine.Base.Exec.{
  Exec, ok, undefined, out_of_fuel, ◌>>=◌, Returns, Returns->>=, Returns-map, Returns-both,
}
use order_matching_engine.Base.Int.{ℤ, pos}
use order_matching_engine.Order.{Price, IsOrdered, new, Command}
use order_matching_engine.Report.{Report}
use order_matching_engine.Exchange.{Exchange, empty_exchange, add_order, match_orders}
use order_matching_engine.Exchange.Quiet.{IsQuiet}
use order_matching_engine.LatencyTracker.{record_command}
use order_matching_engine.LatencyTracker.Totals.{IsConsistent, Recorded, segments_of}
use order_matching_engine.LatencyTracker.Bounds.{
  IsStamped, Within, Within-snoc, record_command-bounded,
}
use order_matching_engine.Server.Engine.{Instants, stamped, order_of, dispatch, dispatch_new}
use order_matching_engine.Server.Run.{IsReady, dispatch_new-IsReady}
use order_matching_engine.Server.Settled.{dispatch_new-IsQuiet}
use order_matching_engine.Server.Threads.Kept.{AreInstants}
use order_matching_engine.Server.Replay.{Leaves, Replays, Leaves-self, Leaves-snoc}
use order_matching_engine.Benchmark.{
  Part, throughput, comparison, BenchState, bench_order, consume_command,
}
use order_matching_engine.Benchmark.Orders.{IsBenchCommand}

module _ {P : Type 0} ⦃d : Price P⦄ where
  bench_order-untimed :
      (part : Part) (cmd : Command P) → cmd.timestamp ≡ pos 0 → bench_order part cmd ≡ order_of cmd
  bench_order-untimed throughput cmd e = refl
  bench_order-untimed comparison cmd e = ap (λ z. record (order_of cmd) { timestamp = z }) (sym e)

  -- The end of the consumer's step.
  abbrev timed :
      Instants → Command P → BenchState P → List (Report P) × Exchange P → Exec (BenchState P)
  timed t cmd c r = record_command (stamped cmd t) c.tracker >>= λ tracker.
      ok (record { exchange = r.1; tracker = tracker })

  after_match :
      (t : Instants) (cmd : Command P) (c : BenchState P) (added : List (Report P))
      (m : Exec (List (Report P) × Exchange P))
      → (m >>= timed t cmd c) ≡ (m >>= λ r. ok (added ++ r.0, r.1)) >>= timed t cmd c
  after_match t cmd c added (ok r) = refl
  after_match t cmd c added undefined = refl
  after_match t cmd c added out_of_fuel = refl

  consume_command-dispatch :
      (part : Part) (t : Instants) (cmd : Command P) (c : BenchState P)
      → cmd.timestamp ≡ pos 0
      → consume_command part t cmd c ≡ (dispatch_new cmd c.exchange >>= timed t cmd c)
  unfolding consume_command dispatch_new
  consume_command-dispatch part t cmd c e =
      let a = add_order cmd.symbol (order_of cmd) c.exchange in
      rw (bench_order-untimed part cmd e) (after_match t cmd c a.0 (match_orders cmd.symbol a.1))

  dispatch-new :
      (cmd : Command P) (ex : Exchange P) → cmd.type ≡ new → dispatch cmd ex ≡ dispatch_new cmd ex
  unfolding dispatch dispatch_new
  dispatch-new cmd ex e = rw (e, dispatch) refl

  -- What a run of the benchmark keeps, whatever the schedule.
  pub record IsBenched (bound : ℕ) (done : List (Command P)) (c : BenchState P) : Type 0 where
    pub ready : IsReady (1 + length done) c.exchange
    pub quiet : IsQuiet c.exchange
    pub replays : Replays done c.exchange
    pub consistent : IsConsistent c.tracker
    pub within : Within (length done * bound) c.tracker
    pub samples : length c.tracker.e2e_samples ≡ length done

  module _ (laws : IsOrdered P) (bound : ℕ) where
    one_sample :
        (xs : List ℤ) (x : ℤ) (done : List (Command P)) (cmd : Command P)
        → length xs ≡ length done
        → length (xs ++ x ∷ []) ≡ length (done ++ cmd ∷ [])
    one_sample xs x done cmd e =
        omega (arith, length-append xs (x ∷ []), length-append done (cmd ∷ []), e)

    -- The exchange after one more command.
    abbrev Next : List (Command P) → List (Report P) × Exchange P → Type 0
    Next done r = IsReady (1 + length done) r.1 × IsQuiet r.1 × Replays done r.1

    dispatch_new-Next :
        (cmd : Command P) (done : List (Command P)) (c : BenchState P)
        → IsBenchCommand bound (1 + length done) cmd
        → IsBenched bound done c
        → Returns (Next (done ++ cmd ∷ [])) (dispatch_new cmd c.exchange)
    dispatch_new-Next cmd done c k b =
        let m = dispatch_new cmd c.exchange in
        let grown : suc cmd.order_id ≡ 1 + length (done ++ cmd ∷ []) =
          omega (arith, k.same_id, length-append done (cmd ∷ [])) in
        Returns-map _ (Next (done ++ cmd ∷ [])) m
          (Leaves-self m (λ ex. IsReady (suc cmd.order_id) ex × IsQuiet ex)
            (Returns-both _ _ m
              (dispatch_new-IsReady laws (1 + length done) cmd c.exchange b.ready
                (omega (arith, k.same_id)) k.lot)
              (dispatch_new-IsQuiet laws (1 + length done) cmd c.exchange b.ready b.quiet
                (omega (arith, k.same_id)) k.lot)))
          (λ r h. (
            subst (λ n. IsReady n r.1) grown h.0.0,
            h.0.1,
            Leaves-snoc done cmd empty_exchange c.exchange r.1 b.replays
                (subst (Leaves r.1) (sym (dispatch-new cmd c.exchange k.type_new)) h.1),
          ))

    pub consume_command-IsBenched :
        (part : Part) (t : Instants) (cmd : Command P) (done : List (Command P)) (c : BenchState P)
        → AreInstants bound t
        → IsBenchCommand bound (1 + length done) cmd
        → 0 < bound
        → (1 + length done) * bound < 2 ^ 63
        → IsBenched bound done c
        → Returns (IsBenched bound (done ++ cmd ∷ [])) (consume_command part t cmd c)
    consume_command-IsBenched part t cmd done c at k p l b =
        let m = length done * bound in
        let grown = length-append done (cmd ∷ []) in
        let stamps : IsStamped bound (stamped cmd t) = record {
          network_recv = k.recv;
          queue_push = k.push;
          queue_pop = at.0;
          process_start = at.1;
          match_complete = at.2;
        } in
        subst (Returns (IsBenched bound (done ++ cmd ∷ [])))
          (sym (consume_command-dispatch part t cmd c k.untimed))
          (Returns->>= (Next (done ++ cmd ∷ [])) _ (dispatch_new cmd c.exchange) _
            (dispatch_new-Next cmd done c k b)
            (λ r n.
              Returns->>=
                (λ tr. Recorded (segments_of (stamped cmd t)) c.tracker tr × Within (m + bound) tr)
                _ (record_command (stamped cmd t) c.tracker) _
                (record_command-bounded bound m (stamped cmd t) c.tracker b.consistent b.within
                  stamps p (omega arith))
                (λ tr g. record {
                  ready = n.0;
                  quiet = n.1;
                  replays = n.2;
                  consistent = g.0.consistent;
                  within = Within-snoc bound done cmd tr g.1;
                  samples =
                      ap length g.0.e2e
                      ∙ one_sample c.tracker.e2e_samples (segments_of (stamped cmd t)).e2e_lat done
                          cmd b.samples;
                })))
