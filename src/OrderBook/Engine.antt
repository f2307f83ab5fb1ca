-- ===== src/OrderBook/Engine.antt =====
-- `matchOrders` against the repeated crossing of the abstract book.
use order_matching_engine.Base.{
  ℕ, zero, suc, ◌<◌, ◌≡◌, refl, ap, ◌∙◌, none, some, List, [], ◌∷◌, arith, length,
}
use order_matching_engine.Base.Exec.{
  Exec, ok, undefined, out_of_fuel, ◌>>=◌, Returns, Returns->>=, Ends,
}
use order_matching_engine.Order.{Price, IsOrdered}
use order_matching_engine.Report.{Report}
use order_matching_engine.OrderBook.{
  OrderBook, SymbolStats, resting, match_turn, match_loop, match_orders,
}
use order_matching_engine.OrderBook.Invariant.{IsValid}
use order_matching_engine.OrderBook.Lots.{Lots}
use order_matching_engine.OrderBook.Turn.{Turned, count_report, match_turn-Turned}
use order_matching_engine.OrderBook.Terminates.{Fewer, match_turn-Fewer}
use order_matching_engine.OrderBook.Spec
use order_matching_engine.OrderBook.Spec.{PriorityBook, view}

both->>= {ℓ κ} :
    {A : Type ℓ} {B : Type κ} (Q R : A → Type 0) (S : B → Type 0) (m : Exec A) (f : A → Exec B)
    → Returns Q m
    → Ends R m
    → ((a : A) → Q a → R a → Returns S (f a))
    → Returns S (m >>= f)
both->>= Q R S (ok a) f h k g = g a h k
both->>= Q R S undefined f h k g = absurd h
both->>= Q R S out_of_fuel f h k g = absurd h

abbrev pub count_reports : {P : Type 0} → List (Report P) → SymbolStats → SymbolStats
count_reports [] s = s
count_reports (r ∷ rs) s = count_reports rs (count_report r s)

module _ {P : Type 0} ⦃d : Price P⦄ where
  -- The best orders trade until they no longer cross.
  pub data Crossings : PriorityBook P → List (Report P) → PriorityBook P → Type 0 where
    settled : {s : PriorityBook P} → Spec.cross s ≡ none → Crossings s [] s
    crossing :
        {s t u : PriorityBook P} {r : Report P} {rs : List (Report P)}
        → Spec.cross s ≡ some (r, t)
        → Crossings t rs u
        → Crossings s (r ∷ rs) u

  abbrev pub Matched : OrderBook P → List (Report P) × OrderBook P → Type 0
  Matched b r =
      Crossings (view b) r.0 (view r.1)
      × IsValid r.1
      × Lots (resting r.1)
      × (r.1.stats ≡ count_reports r.0 b.stats)

  module _ (laws : IsOrdered P) where
    match_loop-Matched :
        (fuel : ℕ) (b : OrderBook P)
        → length (resting b) < fuel
        → IsValid b
        → Lots (resting b)
        → Returns (Matched b) (match_loop fuel b)
    unfolding match_loop
    match_loop-Matched zero b h v lots = absurd (omega arith)
    match_loop-Matched (suc fuel) b h v lots =
        both->>= (Turned b) (Fewer (length (resting b))) (Matched b) (match_turn b) _
          (match_turn-Turned laws b v lots) (match_turn-Fewer b)
          (elim [
            | none ↦ λ stop _. (settled stop, v, lots, refl)
            | some (r, b') ↦ λ t less.
                Returns->>= (Matched b') (Matched b) (match_loop fuel b') _
                  (match_loop-Matched fuel b' (omega arith) t.valid t.lots)
                  (λ out m.
                    (crossing t.crossed m.0, m.1, m.2, m.3 ∙ ap (count_reports out.0) t.counted))
          ])

    -- `matchOrders` on a valid book of live orders returns, with no undefined behaviour: it prints
    -- the trades of the abstract crossing in order and leaves its book, valid and with
    -- live orders; the statistics count those trades.
    -- The order of the prices is `IsOrdered`.
    pub match_orders-Matched :
        (b : OrderBook P) → IsValid b → Lots (resting b) → Returns (Matched b) (match_orders b)
    unfolding match_orders
    match_orders-Matched b v lots =
        match_loop-Matched (suc (length (resting b))) b (omega arith) v lots
