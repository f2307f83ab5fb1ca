-- ===== src/OrderBook/Turn.antt =====
-- `match_turn` against the abstract crossing of the two best orders, and its effect on the invariant.
use order_matching_engine.Base.{
  ◌≡◌, refl, ap, ◌∙◌, sym, true, false, Option, none, some, List, [], ◌∷◌, ◌++◌, All-append,
  All-split, Bool-cases, inl, inr,
}
use order_matching_engine.Base.Exec.{Returns, Returns->>=}
use order_matching_engine.Base.Int.{◌-ℤ◌, min_ℤ, ltb_ℤ}
use order_matching_engine.Order.{buy, sell, Price, Order, IsOrdered, flip-IsStrictWeak}
use order_matching_engine.Report.{Report, trade}
use order_matching_engine.Levels.{Node, Level, Levels, nodes}
use order_matching_engine.Levels.Priority.{orders, settle-nodes}
use order_matching_engine.OrderBook.{
  OrderBook, SymbolStats, greater, less, resting, filled, trade_price, count_trade, trade_fronts,
  turn_at, match_turn,
}
use order_matching_engine.OrderBook.Invariant.{IsValid}
use order_matching_engine.OrderBook.Lots.{IsLot, Lots, fill, Lots-filled}
use order_matching_engine.OrderBook.Spec
use order_matching_engine.OrderBook.Spec.{PriorityBook, view}
use order_matching_engine.OrderBook.Match.{
  lt_same, filled-append, orders-filled, filled-Coherent, filled-WellFormed,
}

-- What a printed trade adds to the statistics.
abbrev pub count_report : {P : Type 0} → Report P → SymbolStats → SymbolStats
count_report (trade p q buyer seller) s = count_trade q s
count_report r s = s

module _ {P : Type 0} ⦃d : Price P⦄ where
  -- A round that trades: the two best orders of the abstract book cross, and the book stays valid.
  pub record Traded (b : OrderBook P) (r : Report P) (b' : OrderBook P) : Type 0 where
    pub valid : IsValid b'
    pub lots : Lots (resting b')
    pub crossed : Spec.cross (view b) ≡ some (r, view b')
    pub counted : b'.stats ≡ count_report r b.stats

  abbrev pub Turned : OrderBook P → Option (Report P × OrderBook P) → Type 0
  Turned b none = Spec.cross (view b) ≡ none
  Turned b (some (r, b')) = Traded b r b'

  abbrev with_sides : OrderBook P → Levels P → Levels P → OrderBook P
  with_sides b bids asks = record b { bids = bids; asks = asks }

  abbrev level : P → List (Node P) → Level P
  level p q = record { price = p; queue = q }

  module _ (laws : IsOrdered P) where
    trade_price-earlier : (b a : Order P) → trade_price b a ≡ (Spec.earlier b a).price
    trade_price-earlier b a = elim (Bool-cases (ltb_ℤ a.timestamp b.timestamp)) [
      | inl yes_ask ↦ rw yes_ask refl
      | inr no_ask ↦ rw no_ask refl
    ]

    -- The test of the loop compares the level prices; the best orders compare alike.
    fronts_cross :
        (b : OrderBook P) (p p' : P) (bid ask : Node P) (q r : List (Node P)) (ls ms : Levels P)
        → IsValid (with_sides b (level p (bid ∷ q) ∷ ls) (level p' (ask ∷ r) ∷ ms))
        → d.lt bid.order.price ask.order.price ≡ d.lt p p'
    fronts_cross b p p' bid ask q r ls ms v =
        let s = v.bids_shape.1.0.1 in
        lt_same laws.weak bid.order.price p ask.order.price p' (s.1, s.0) v.asks_shape.1.0.1

    trade_fronts-Traded :
        (b : OrderBook P) (p p' : P) (bids asks : List (Node P)) (ls ms : Levels P)
        → let c = with_sides b (level p bids ∷ ls) (level p' asks ∷ ms) in
          IsValid c
          → Lots (resting c)
          → d.lt p p' ≡ false
          → Returns
              (λ t. Traded c t.0 t.1)
              (trade_fronts c (level p bids) ls (level p' asks) ms bids asks)
    unfolding trade_fronts
    trade_fronts-Traded b p p' [] asks ls ms v lots h = absurd v.bids_shape.0
    trade_fronts-Traded b p p' (bid ∷ q) [] ls ms v lots h = absurd v.asks_shape.0
    trade_fronts-Traded b p p' (bid ∷ q) (ask ∷ r) ls ms v lots h =
        let split =
          All-split (λ (n : Node P). IsLot n.order.quantity) (bid ∷ q ++ nodes ls)
            (ask ∷ r ++ nodes ms) lots in
        let f = fill bid.order.quantity ask.order.quantity split.0.0 split.1.0 in
        let traded = min_ℤ bid.order.quantity ask.order.quantity in
        let bid_left = bid.order.quantity -ℤ traded in
        let ask_left = ask.order.quantity -ℤ traded in
        let x = q ++ nodes ls in
        let y = r ++ nodes ms in
        let bids_after =
          settle-nodes (level p (bid ∷ q)) (filled bid bid_left q) ls
          ∙ filled-append bid bid_left q (nodes ls) in
        let asks_after =
          settle-nodes (level p' (ask ∷ r)) (filled ask ask_left r) ms
          ∙ filled-append ask ask_left r (nodes ms) in
        rw (f.fits_left, f.fits_right)
          (record {
            counted = refl;
            valid = record {
              bids_shape =
                  filled-WellFormed greater (flip-IsStrictWeak laws.weak) buy p bid bid_left q ls
                    v.bids_shape;
              asks_shape = filled-WellFormed less laws.weak sell p' ask ask_left r ms v.asks_shape;
              coherent =
                  rw (bids_after, asks_after)
                    (filled-Coherent (filled bid bid_left x) ask ask_left y (
                      rw (filled-append bid bid_left x (ask ∷ y))
                        (filled-Coherent [] bid bid_left (x ++ ask ∷ y) v.coherent)));
            };
            lots =
                rw (bids_after, asks_after)
                  (All-append (λ (n : Node P). IsLot n.order.quantity) (filled bid bid_left x)
                    (filled ask ask_left y) (Lots-filled bid bid_left x f.rest_left split.0.1)
                    (Lots-filled ask ask_left y f.rest_right split.1.1));
            crossed =
                rw (fronts_cross b p p' bid ask q r ls ms v, h)
                  (λ i. some (
                    trade (sym (trade_price-earlier bid.order ask.order) i) traded
                        bid.order.order_id ask.order.order_id,
                    record {
                      bids = (sym (ap orders bids_after ∙ orders-filled bid bid_left x)) i;
                      asks = (sym (ap orders asks_after ∙ orders-filled ask ask_left y)) i;
                    },
                  ));
          })

    cross-level-none :
        (b : OrderBook P) (p p' : P) (bids asks : List (Node P)) (ls ms : Levels P)
        → let c = with_sides b (level p bids ∷ ls) (level p' asks ∷ ms) in
          IsValid c → d.lt p p' ≡ true → Spec.cross (view c) ≡ none
    cross-level-none b p p' [] asks ls ms v h = absurd v.bids_shape.0
    cross-level-none b p p' (bid ∷ q) [] ls ms v h = absurd v.asks_shape.0
    cross-level-none b p p' (bid ∷ q) (ask ∷ r) ls ms v h =
        rw (fronts_cross b p p' bid ask q r ls ms v, h)

    cross_no_asks : (os : List (Order P)) → Spec.cross_fronts os [] ≡ none
    cross_no_asks [] = refl
    cross_no_asks (o ∷ os) = refl

    turn_at-Turned :
        (b : OrderBook P) (bids asks : Levels P)
        → let c = with_sides b bids asks in
          IsValid c → Lots (resting c) → Returns (Turned c) (turn_at c bids asks)
    unfolding turn_at
    turn_at-Turned b [] asks v lots = refl
    turn_at-Turned b (l ∷ ls) [] v lots = cross_no_asks (orders (l.queue ++ nodes ls))
    turn_at-Turned b (l ∷ ls) (m ∷ ms) v lots = elim (Bool-cases (d.lt l.price m.price)) [
      | inl apart ↦ rw apart (cross-level-none b l.price m.price l.queue m.queue ls ms v apart)
      | inr crossing ↦
          let c = with_sides b (l ∷ ls) (m ∷ ms) in
          rw crossing (
            Returns->>= (λ t. Traded c t.0 t.1) (Turned c) _ _
              (trade_fronts-Traded b l.price m.price l.queue m.queue ls ms v lots crossing)
              (λ t h. h))
    ]

    -- A round of the loop of `matchOrders` does what the abstract crossing does, without overflow.
    pub match_turn-Turned :
        (b : OrderBook P) → IsValid b → Lots (resting b) → Returns (Turned b) (match_turn b)
    unfolding match_turn
    match_turn-Turned b v lots = turn_at-Turned b b.bids b.asks v lots
