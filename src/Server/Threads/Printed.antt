-- ===== src/Server/Threads/Printed.antt =====
-- The lines on the orders in what the matching thread prints.
use order_matching_engine.Base.{◌≡◌, refl, ◌∙◌, List, [], ◌∷◌, ◌++◌}
use order_matching_engine.Report.{Report}
use order_matching_engine.Server.Engine.{Output, line, order_latency, latency_stats}
use order_matching_engine.Base.{ap, map, append-nil, inl, inr, Bool-cases}
use order_matching_engine.OrderBook.Lines.{is_order_line, order_only}
use order_matching_engine.LatencyTracker.{OrderLatency}
use order_matching_engine.Server.Threads.Kept.{order_lines}

pub order_lines-append :
    {P : Type 0} (xs ys : List (Output P))
    → order_lines (xs ++ ys) ≡ order_lines xs ++ order_lines ys
order_lines-append [] ys = refl
order_lines-append (line r ∷ xs) ys = elim (Bool-cases (is_order_line r)) [
  | inl e ↦ rw e (ap (◌∷◌ r) (order_lines-append xs ys))
  | inr e ↦ rw e (order_lines-append xs ys)
]
order_lines-append (order_latency l ∷ xs) ys = order_lines-append xs ys
order_lines-append (latency_stats r ∷ xs) ys = order_lines-append xs ys

pub order_lines-map :
    {P : Type 0} (rs : List (Report P)) → order_lines (map line rs) ≡ order_only rs
order_lines-map [] = refl
order_lines-map (r ∷ rs) = elim (Bool-cases (is_order_line r)) [
  | inl e ↦ rw e (ap (◌∷◌ r) (order_lines-map rs))
  | inr e ↦ rw e (order_lines-map rs)
]

-- A timed command prints its reports and its latency.
pub timed_lines :
    {P : Type 0} (rs : List (Report P)) (o : OrderLatency)
    → order_lines (map line rs ++ order_latency o ∷ []) ≡ order_only rs
timed_lines rs o =
    order_lines-append (map line rs) (order_latency o ∷ [])
    ∙ append-nil (order_lines (map line rs))
    ∙ order_lines-map rs
