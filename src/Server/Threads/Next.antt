-- ===== src/Server/Threads/Next.antt =====
-- The exchange after one more command of the matching thread.
use order_matching_engine.Base.{
  ℕ, ◌≤◌, ◌≡◌, ◌∙◌, sym, subst, true, List, [], ◌∷◌, ◌++◌, arith, length, length-append, suc,
}
use order_matching_engine.Base.Exec.{Returns, Returns-map, Returns-both}
use order_matching_engine.Order.{Price, IsOrdered, Command}
use order_matching_engine.Report.{Report}
use order_matching_engine.Exchange.{Exchange, empty_exchange}
use order_matching_engine.Exchange.Quiet.{IsQuiet}
use order_matching_engine.Server.Engine.{dispatch}
use order_matching_engine.Server.Ids.{is_new}
use order_matching_engine.Server.Run.{IsReady}
use order_matching_engine.Server.Pipeline.{
  IsLiveCommand, OfQuantity, next_id, dispatch_type-IsReady, dispatch_type-IsQuiet,
}
use order_matching_engine.Server.Replay.{Replays, Leaves-self, Leaves-snoc}
use order_matching_engine.Server.Threads.{Served}
use order_matching_engine.Exchange.Market.{Market, empty_market, carry_out_all, carry_out_all-snoc}
use order_matching_engine.Exchange.Agrees.{Agrees}
use order_matching_engine.Exchange.Lines.{carry_out-lines}
use order_matching_engine.OrderBook.Lines.{order_only}
use order_matching_engine.Server.Refines.{dispatch_type-Does}
use order_matching_engine.Base.{ap}
use order_matching_engine.OrderBook.Load.{IsUpTo}
use order_matching_engine.Exchange.Loads.{IsLoaded}
use order_matching_engine.Server.Loaded.{dispatch_type-IsLoaded}
use order_matching_engine.Server.Threads.Kept.{next_after, next_after-snoc, IsServed}

pub length-snoc : {A : Type 0} (xs : List A) (x : A) → length (xs ++ x ∷ []) ≡ suc (length xs)
length-snoc xs x = omega (arith, length-append xs (x ∷ []))

module _ {P : Type 0} ⦃d : Price P⦄ where
  module _ (laws : IsOrdered P) (bound top : ℕ) where
    -- What holds after it, and what it has printed about orders.
    abbrev pub Next : List (Command P) → Command P → List (Report P) × Exchange P → Type 0
    Next done cmd r =
        IsReady (next_after 1 (done ++ cmd ∷ [])) r.1
        × IsQuiet r.1
        × IsLoaded (length (done ++ cmd ∷ [])) top r.1
        × Replays (done ++ cmd ∷ []) r.1
        × Agrees r.1 (carry_out_all (done ++ cmd ∷ []) empty_market).1
        × ((carry_out_all done empty_market).0 ++ order_only r.0
            ≡ (carry_out_all (done ++ cmd ∷ []) empty_market).0)

    pub dispatch-Next :
        (cmd : Command P) (done : List (Command P)) (s : Served P)
        → (is_new cmd.type ≡ true → next_after 1 done ≤ cmd.order_id)
        → IsLiveCommand cmd
        → OfQuantity (IsUpTo top) cmd.type cmd
        → IsServed bound top done s
        → Returns (Next done cmd) (dispatch cmd s.engine.exchange)
    dispatch-Next cmd done s p l u b =
        let ex = s.engine.exchange in
        let m = dispatch cmd ex in
        let next = next_after 1 done in
        let n = length done in
        let market = (carry_out_all done empty_market).1 in
        let snoc = carry_out_all-snoc done cmd empty_market in
        Returns-map _ (Next done cmd) m
          (Returns-both _ _ m
            (Leaves-self m
              (λ e. (IsReady (next_id cmd.type next cmd) e × IsQuiet e) × IsLoaded (suc n) top e)
              (Returns-both _ _ m
                (Returns-both _ _ m (dispatch_type-IsReady laws cmd.type next cmd ex b.ready p l)
                  (dispatch_type-IsQuiet laws cmd.type next cmd ex b.ready b.quiet p l))
                (dispatch_type-IsLoaded laws n top cmd.type next cmd ex b.ready b.loaded p l u)))
            (dispatch_type-Does laws cmd.type next cmd ex market b.ready p l b.agrees))
          (λ r h. (
            subst (λ n. IsReady n r.1) (next_after-snoc 1 done cmd) h.0.0.0.0,
            h.0.0.0.1,
            subst (λ n. IsLoaded n top r.1) (sym (length-snoc done cmd)) h.0.0.1,
            Leaves-snoc done cmd empty_exchange ex r.1 b.replays h.0.1,
            subst (λ (o : List (Report P) × Market P). Agrees r.1 o.1) (sym snoc) h.1.1,
            ap (λ l. (carry_out_all done empty_market).0 ++ l)
                  (ap order_only h.1.0 ∙ carry_out-lines cmd market)
                ∙ sym (ap (λ (o : List (Report P) × Market P). o.0) snoc),
          ))
