-- ===== src/OrderBook/Terminates.antt =====
-- The loop of `matchOrders` ends on every book, whatever its quantities and shape.
use order_matching_engine.Base.{
  ℕ, zero, suc, ◌+◌, ◌≤◌, ◌<◌, ◌≡◌, refl, ap, ◌∙◌, ◌⊎◌, inl, inr, true, Option, none, some, List,
  [], ◌∷◌, ◌++◌, arith, Bool-cases, length, length-append,
}
use order_matching_engine.Base.Exec.{Ends, Ends->>=}
use order_matching_engine.Base.Int.{ℤ, pos, negsuc, ◌-ℤ◌, min_ℤ, is_zero, checked, int_limit, fits}
use order_matching_engine.Order.{Price}
use order_matching_engine.Report.{Report}
use order_matching_engine.Levels.{Node, Level, Levels, nodes, settle}
use order_matching_engine.Levels.Priority.{settle-nodes}
use order_matching_engine.OrderBook.{
  OrderBook, resting, filled, trade_fronts, turn_at, match_turn, match_loop, match_orders,
}

-- The smaller of two quantities is used up, for negative ones too.
pub one_used_up : (a b : ℤ) → (is_zero (a -ℤ min_ℤ a b) ≡ true) ⊎ (is_zero (b -ℤ min_ℤ a b) ≡ true)
one_used_up (pos m) (pos n) = ground arith
one_used_up (pos m) (negsuc n) = ground arith
one_used_up (negsuc m) (pos n) = ground arith
one_used_up (negsuc m) (negsuc n) = ground arith

module _ {P : Type 0} where
  length-filled-le :
      (n : Node P) (left : ℤ) (q : List (Node P)) → length (filled n left q) ≤ suc (length q)
  length-filled-le n left q = ground arith

  length-filled :
      (n : Node P) (left : ℤ) (q : List (Node P))
      → is_zero left ≡ true
      → length (filled n left q) ≡ length q
  length-filled n left q h = rw h

  length-settle :
      (l : Level P) (q : List (Node P)) (ls : Levels P)
      → length (nodes (settle l q ls)) ≡ length q + length (nodes ls)
  length-settle l q ls = ap length (settle-nodes l q ls) ∙ length-append q (nodes ls)

checked-Ends : (m : ℕ) (z : ℤ) → Ends (λ w. w ≡ z) (checked m z)
checked-Ends m z = elim (Bool-cases (fits m z)) [ inl e ↦ rw e refl | inr e ↦ rw e tt ]

module _ {P : Type 0} ⦃d : Price P⦄ where
  fewer :
      (l m : Level P) (ls ms : Levels P) (bid ask : Node P) (q r : List (Node P)) (x y : ℤ)
      → (is_zero x ≡ true) ⊎ (is_zero y ≡ true)
      → length (nodes (settle l (filled bid x q) ls) ++ nodes (settle m (filled ask y r) ms))
        < (suc (length q) + length (nodes ls)) + (suc (length r) + length (nodes ms))
  fewer l m ls ms bid ask q r x y (inl h) = omega (
    arith,
    length-append (nodes (settle l (filled bid x q) ls)) (nodes (settle m (filled ask y r) ms)),
    length-settle l (filled bid x q) ls,
    length-settle m (filled ask y r) ms,
    length-filled bid x q h,
    length-filled-le ask y r,
  )
  fewer l m ls ms bid ask q r x y (inr h) = omega (
    arith,
    length-append (nodes (settle l (filled bid x q) ls)) (nodes (settle m (filled ask y r) ms)),
    length-settle l (filled bid x q) ls,
    length-settle m (filled ask y r) ms,
    length-filled ask y r h,
    length-filled-le bid x q,
  )

  abbrev Smaller : ℕ → Report P × OrderBook P → Type 0
  Smaller n t = length (resting t.1) < n

  trade_fronts-fewer :
      (b : OrderBook P) (l m : Level P) (ls ms : Levels P) (bids asks : List (Node P))
      → Ends
          (Smaller ((length bids + length (nodes ls)) + (length asks + length (nodes ms))))
          (trade_fronts b l ls m ms bids asks)
  unfolding trade_fronts
  trade_fronts-fewer b l m ls ms [] asks = tt
  trade_fronts-fewer b l m ls ms (bid ∷ q) [] = tt
  trade_fronts-fewer b l m ls ms (bid ∷ q) (ask ∷ r) =
      let x = bid.order.quantity -ℤ min_ℤ bid.order.quantity ask.order.quantity in
      let y = ask.order.quantity -ℤ min_ℤ bid.order.quantity ask.order.quantity in
      Ends->>= (λ w. w ≡ x) _ _ _ (checked-Ends int_limit x)
        λ v e.
          Ends->>= (λ w. w ≡ y) _ _ _ (checked-Ends int_limit y)
            λ w f.
              fewer l m ls ms bid ask q r v w
                (rw (e, f) (one_used_up bid.order.quantity ask.order.quantity))

  abbrev pub Fewer : ℕ → Option (Report P × OrderBook P) → Type 0
  Fewer n none = Unit
  Fewer n (some (r, b')) = length (resting b') < n

  turn_at-Fewer :
      (b : OrderBook P) (bids asks : Levels P)
      → Ends (Fewer (length (nodes bids ++ nodes asks))) (turn_at b bids asks)
  unfolding turn_at
  turn_at-Fewer b [] asks = tt
  turn_at-Fewer b (l ∷ ls) [] = tt
  turn_at-Fewer b (l ∷ ls) (m ∷ ms) = elim (Bool-cases (d.lt l.price m.price)) [
    | inl apart ↦ rw apart tt
    | inr crossing ↦ rw crossing (
        Ends->>=
          (Smaller ((length l.queue + length (nodes ls)) + (length m.queue + length (nodes ms))))
          (Fewer (length (nodes (l ∷ ls) ++ nodes (m ∷ ms)))) _ _
          (trade_fronts-fewer b l m ls ms l.queue m.queue)
          (λ t h. omega (
            arith,
            length-append (nodes (l ∷ ls)) (nodes (m ∷ ms)),
            length-append l.queue (nodes ls),
            length-append m.queue (nodes ms),
            h,
          )))
  ]

  -- A round takes at least one order out of the book.
  pub match_turn-Fewer : (b : OrderBook P) → Ends (Fewer (length (resting b))) (match_turn b)
  unfolding match_turn
  match_turn-Fewer b = turn_at-Fewer b b.bids b.asks

  pub match_loop-Ends :
      (fuel : ℕ) (b : OrderBook P)
      → length (resting b) < fuel
      → Ends (λ r. length (resting r.1) ≤ length (resting b)) (match_loop fuel b)
  unfolding match_loop
  match_loop-Ends zero b h = absurd (omega arith)
  match_loop-Ends (suc fuel) b h =
      Ends->>= (Fewer (length (resting b))) _ (match_turn b) _ (match_turn-Fewer b) (elim [
        | none ↦ λ _. omega arith
        | some (r, b') ↦ λ less.
            Ends->>= _ _ (match_loop fuel b') _ (match_loop-Ends fuel b' (omega arith))
              (λ t k. omega arith)
      ])

  -- `matchOrders` always ends, on any book whatever: each round takes an order out. The fuel of the
  -- model, the number of resting orders and one, never runs out.
  pub match_orders-Ends :
      (b : OrderBook P) → Ends (λ r. length (resting r.1) ≤ length (resting b)) (match_orders b)
  unfolding match_orders
  match_orders-Ends b = match_loop-Ends (suc (length (resting b))) b (omega arith)
