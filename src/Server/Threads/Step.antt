-- ===== src/Server/Threads/Step.antt =====
-- One command of the matching thread.
use order_matching_engine.Base.{
  ℕ, ◌+◌, ◌*◌, ◌^◌, ◌<◌, ◌≤◌, ◌≡◌, refl, ◌∙◌, sym, subst, true, Option, List, [], ◌∷◌, ◌++◌, arith,
  length,
}
use order_matching_engine.Base.Exec.{ok, ◌>>=◌, Returns, Returns->>=, Returns-both}
use order_matching_engine.Order.{
  Price, IsOrdered, CommandType, new, cancel, modify, stats, book, Command,
}
use order_matching_engine.Report.{Report}
use order_matching_engine.Exchange.{Exchange, empty_exchange, print_book}
use order_matching_engine.LatencyTracker.{
  LatencyTracker, segments, record_command, print_order_latency, Percent, StatsReport, print_stats,
}
use order_matching_engine.LatencyTracker.Stats.{print_stats-IsConsistent}
use order_matching_engine.LatencyTracker.Totals.{IsConsistent, StampsFit, Recorded, segments_of}
use order_matching_engine.LatencyTracker.Bounds.{
  IsStamped, Within, Within-mono, Within-snoc, StampsFit-IsStamped, record_command-bounded,
  sum_of_times,
}
use order_matching_engine.Server.Engine.{
  Engine, Output, line, order_latency, latency_stats, Instants, stamped, finish, dispatch, handle,
}
use order_matching_engine.Server.Ids.{is_new}
use order_matching_engine.Server.Run.{IsReady}
use order_matching_engine.Server.Pipeline.{next_id}
use order_matching_engine.Server.Replay.{Leaves-snoc}
use order_matching_engine.Server.Threads.{Served, serve_command}
use order_matching_engine.Base.{ap, ap₂, map, append-nil}
use order_matching_engine.Exchange
use order_matching_engine.Exchange.Market.{
  Market, empty_market, carry_out, carry_out_all, carry_out_all-snoc,
}
use order_matching_engine.Exchange.Agrees.{Agrees}
use order_matching_engine.Exchange.Lines.{print_stats-lines}
use order_matching_engine.OrderBook.Lines.{order_only}
use order_matching_engine.Server.Threads.Printed.{order_lines-append, order_lines-map, timed_lines}
use order_matching_engine.Server.Threads.Next.{length-snoc, Next, dispatch-Next}
use native.Mathlib.Nat.{mul-le-mul_right}
use order_matching_engine.Exchange.Loads.{IsLoaded, IsLoaded-mono, print_book-Returns}
use order_matching_engine.Server.Threads.Kept.{
  AreInstants, IsServable, next_after, next_after-snoc, print_stats-Within, IsServed, order_lines,
}

module _ {P : Type 0} ⦃d : Price P⦄ where
  -- The same of what `handle` returns and prints.
  abbrev EngineOk : ℕ → ℕ → List (Command P) → Served P → List (Output P) × Engine P → Type 0
  EngineOk bound top done s r =
      IsServed bound top done (record { printed = s.printed ++ r.0; engine = r.1 })

  module _ (laws : IsOrdered P) (rank : Percent → ℕ → ℕ) (count bound top : ℕ) where
    print_order_latency-Returns :
        (cmd : Command P) → StampsFit cmd → Returns (λ o. Unit) (print_order_latency cmd)
    unfolding print_order_latency segments
    print_order_latency-Returns cmd d = rw (d.network, d.queue, d.matching, d.e2e) tt

    -- The end of the loop's body for a command that is timed.
    finish-IsServed :
        (cmd : Command P) (t : Instants) (done : List (Command P)) (s : Served P)
        (r : List (Report P) × Exchange P)
        → IsServable count bound top cmd
        → AreInstants bound t
        → 0 < bound
        → (1 + length done) * bound < 2 ^ 63
        → IsServed bound top done s
        → Next laws bound top done cmd r
        → Returns (EngineOk bound top (done ++ cmd ∷ []) s) (finish (stamped cmd t) s.engine r)
    finish-IsServed cmd t done s r k at p l b n =
        let m = length done * bound in
        let e = s.engine in
        let c = stamped cmd t in
        let stamps : IsStamped bound c = record {
          network_recv = k.recv;
          queue_push = k.push;
          queue_pop = at.0;
          process_start = at.1;
          match_complete = at.2;
        } in
        Returns->>= (λ tr. Recorded (segments_of c) e.tracker tr × Within (m + bound) tr) _
          (record_command c e.tracker) _
          (record_command-bounded bound m c e.tracker b.consistent b.within stamps p (omega arith))
          (λ tr g.
            Returns->>= (λ o. Unit) _ (print_order_latency c) _
              (print_order_latency-Returns c (StampsFit-IsStamped bound c stamps (omega arith)))
              (λ o u. record {
                ready = n.0;
                quiet = n.1;
                loaded = n.2;
                replays = n.3;
                agrees = n.4;
                says =
                    order_lines-append s.printed (map line r.0 ++ order_latency o ∷ [])
                    ∙ ap₂ (λ x y. x ++ y) b.says (timed_lines r.0 o)
                    ∙ n.5;
                consistent = g.0.consistent;
                within = Within-snoc bound done cmd tr g.1;
              }))

    timed-IsServed :
        (cmd : Command P) (t : Instants) (done : List (Command P)) (s : Served P)
        → IsServable count bound top cmd
        → AreInstants bound t
        → 0 < bound
        → (1 + length done) * bound < 2 ^ 63
        → (is_new cmd.type ≡ true → next_after 1 done ≤ cmd.order_id)
        → IsServed bound top done s
        → Returns
            (EngineOk bound top (done ++ cmd ∷ []) s)
            (dispatch cmd s.engine.exchange >>= finish (stamped cmd t) s.engine)
    timed-IsServed cmd t done s k at p l a b =
        Returns->>= (Next laws bound top done cmd) _ (dispatch cmd s.engine.exchange) _
          (dispatch-Next laws bound top cmd done s a k.live k.up_to b)
          (λ r n. finish-IsServed cmd t done s r k at p l b n)

    -- STATS and BOOK leave the exchange.
    unchanged-IsServed :
        (cmd : Command P) (done : List (Command P)) (s : Served P) (tr : LatencyTracker)
        (outputs : List (Output P))
        → order_lines outputs ≡ []
        → carry_out cmd (carry_out_all done empty_market).1
          ≡ ([], (carry_out_all done empty_market).1)
        → next_id cmd.type (next_after 1 done) cmd ≡ next_after 1 done
        → dispatch cmd s.engine.exchange ≡ ok ([], s.engine.exchange)
        → IsServed bound top done s
        → IsConsistent tr
        → Within (length done * bound) tr
        → IsServed bound top (done ++ cmd ∷ []) (record {
          printed = s.printed ++ outputs;
          engine = record { exchange = s.engine.exchange; tracker = tr };
        })
    unchanged-IsServed cmd done s tr outputs none_said still n d b c w =
        let ex = s.engine.exchange in
        let before = carry_out_all done empty_market in
        let same : carry_out_all (done ++ cmd ∷ []) empty_market ≡ before =
          carry_out_all-snoc done cmd empty_market
          ∙ ap (λ (t : List (Report P) × Market P). (before.0 ++ t.0, t.1)) still
          ∙ ap (λ l. (l, before.1)) (append-nil before.0) in
        record {
          ready = subst (λ n. IsReady n ex) (sym n ∙ next_after-snoc 1 done cmd) b.ready;
          quiet = b.quiet;
          loaded =
              subst (λ n. IsLoaded n top ex) (sym (length-snoc done cmd))
                (IsLoaded-mono (length done) top ex b.loaded);
          replays = Leaves-snoc done cmd empty_exchange ex ex b.replays (rw d refl);
          agrees = subst (λ (o : List (Report P) × Market P). Agrees ex o.1) (sym same) b.agrees;
          says =
              order_lines-append s.printed outputs
              ∙ ap₂ (λ x y. x ++ y) b.says none_said
              ∙ append-nil before.0
              ∙ sym (ap (λ (o : List (Report P) × Market P). o.0) same);
          consistent = c;
          within = Within-snoc bound done cmd tr (Within-mono (length done * bound) bound tr w);
        }

    handle-IsServed :
        (type : CommandType) (cmd : Command P) (t : Instants) (done : List (Command P))
        (s : Served P)
        → IsServable count bound top (record cmd { type = type })
        → AreInstants bound t
        → length done ≤ count
        → 0 < bound
        → 3 * ((1 + length done) * bound) < 2 ^ 63
        → (is_new type ≡ true → next_after 1 done ≤ cmd.order_id)
        → IsServed bound top done s
        → Returns
            (EngineOk bound top (done ++ record cmd { type = type } ∷ []) s)
            (handle rank (record cmd { type = type }) t s.engine)
    unfolding handle dispatch
    handle-IsServed new cmd t done s k at few p l a b =
        timed-IsServed (record cmd { type = new }) t done s k at p (omega arith) a b
    handle-IsServed cancel cmd t done s k at few p l a b =
        timed-IsServed (record cmd { type = cancel }) t done s k at p (omega arith) a b
    handle-IsServed modify cmd t done s k at few p l a b =
        timed-IsServed (record cmd { type = modify }) t done s k at p (omega arith) a b
    handle-IsServed stats cmd t done s k at few p l a b =
        let m = length done * bound in
        let small : 3 * m < 2 ^ 63 = omega arith in
        let tr = s.engine.tracker in
        let f = sum_of_times m tr b.within small in
        Returns->>= (λ (r : Option StatsReport × LatencyTracker). IsConsistent r.1 × Within m r.1) _
          (print_stats rank tr) _
          (Returns-both _ _ (print_stats rank tr)
            (print_stats-IsConsistent rank tr b.consistent f.0 f.1)
            (print_stats-Within rank m tr b.within small))
          (λ r h.
            unchanged-IsServed (record cmd { type = stats }) done s r.1
              (latency_stats r.0 ∷ map line (Exchange.print_stats s.engine.exchange))
              (order_lines-map (Exchange.print_stats s.engine.exchange)
                ∙ print_stats-lines s.engine.exchange)
              refl refl refl b h.0 h.1)
    handle-IsServed book cmd t done s k at few p l a b =
        let n = length done in
        let most : n * top ≤ count * top = mul-le-mul_right top few in
        let fits = k.shown refl in
        Returns->>= (λ lines. order_only lines ≡ []) _ (print_book cmd.symbol s.engine.exchange) _
          (print_book-Returns n top cmd.symbol s.engine.exchange b.ready.live b.loaded
            (omega arith))
          (λ lines u.
            unchanged-IsServed (record cmd { type = book }) done s s.engine.tracker (map line lines)
              (order_lines-map lines ∙ u) refl refl refl b b.consistent b.within)

    pub serve_command-IsServed :
        (cmd : Command P) (t : Instants) (done : List (Command P)) (s : Served P)
        → IsServable count bound top cmd
        → AreInstants bound t
        → length done ≤ count
        → 0 < bound
        → 3 * ((1 + length done) * bound) < 2 ^ 63
        → (is_new cmd.type ≡ true → next_after 1 done ≤ cmd.order_id)
        → IsServed bound top done s
        → Returns (IsServed bound top (done ++ cmd ∷ [])) (serve_command rank t cmd s)
    unfolding serve_command
    serve_command-IsServed cmd t done s k at few p l a b =
        Returns->>= (EngineOk bound top (done ++ cmd ∷ []) s) _ (handle rank cmd t s.engine) _
          (handle-IsServed cmd.type cmd t done s k at few p l a b) (λ r h. h)
