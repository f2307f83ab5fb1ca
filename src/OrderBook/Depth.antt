-- ===== src/OrderBook/Depth.antt =====
-- `printBook` shows the best five levels of each side, with their quantities.
use order_matching_engine.Base.{
  ℕ, zero, suc, ◌+◌, ◌<◌, ◌≡◌, refl, ◌∙◌, ap, List, [], ◌∷◌, ◌++◌, map, arith, leb, length, take,
  All, Text, true, false,
}
use order_matching_engine.Base.Exec.{ok}
use order_matching_engine.Base.Int.{ℤ, pos, negsuc, ◌+ℤ◌, pos_part, int_limit, checked}
use order_matching_engine.Order.{Price}
use order_matching_engine.Report.{Report, level_line, bids_title, asks_title}
use order_matching_engine.Levels.{Node, Level, Levels}
use order_matching_engine.OrderBook.{
  OrderBook, level_total, show_levels, print_book, title, or_empty,
}
use order_matching_engine.OrderBook.Lots.{Lots, IsLot}

add_fits :
    (t : ℕ) (z : ℤ)
    → IsLot z
    → t + pos_part z < int_limit
    → checked int_limit (pos t +ℤ z) ≡ ok (pos (t + pos_part z))
add_fits t (pos n) l b = ground arith
add_fits t (negsuc n) l b = absurd l

module _ {P : Type 0} where
  -- The quantity of a level.
  abbrev pub depth : List (Node P) → ℕ
  depth [] = 0
  depth (n ∷ q) = pos_part n.order.quantity + depth q

  -- The orders of the level are live, and their sum is an `int`.
  abbrev pub IsShowable : Level P → Type 0
  IsShowable l = Lots l.queue × (depth l.queue < int_limit)

  abbrev pub depth_line : Level P → Report P
  depth_line l = level_line l.price (pos (depth l.queue)) (length l.queue)

module _ {P : Type 0} ⦃d : Price P⦄ where
  level_total-depth :
      (t : ℕ) (q : List (Node P))
      → Lots q
      → t + depth q < int_limit
      → level_total (pos t) q ≡ ok (pos (t + depth q))
  unfolding level_total
  level_total-depth t [] l b = ap (λ n. ok (pos n)) (omega arith)
  level_total-depth t (n ∷ q) l b =
      let k = pos_part n.order.quantity in
      rw (add_fits t n.order.quantity l.0 (omega arith))
        (level_total-depth (t + k) q l.1 (omega arith) ∙ ap (λ m. ok (pos m)) (omega arith))

  total-depth :
      (q : List (Node P))
      → Lots q
      → depth q < int_limit
      → level_total (pos 0) q ≡ ok (pos (depth q))
  total-depth q l b = level_total-depth 0 q l (omega arith) ∙ ap (λ n. ok (pos n)) (omega arith)

  show_levels-take :
      (count room : ℕ) (ls : Levels P)
      → count + room ≡ 5
      → All IsShowable ls
      → show_levels count ls ≡ ok (map depth_line (take room ls))
  unfolding show_levels
  show_levels-take count zero [] e h = refl
  show_levels-take count (suc room) [] e h = refl
  show_levels-take count zero (l ∷ ls) e h =
      let full : leb 5 count ≡ true = ground arith in rw full refl
  show_levels-take count (suc room) (l ∷ ls) e h =
      let more : leb 5 count ≡ false = ground arith in
      rw
        (
          more,
          total-depth l.queue h.0.0 h.0.1,
          show_levels-take (count + 1) room ls (omega arith) h.1,
        )
        refl

  -- Where every order is live and the quantity of each level is an `int`, `printBook` returns, and
  -- shows the best five levels of each side, best first: for each its price, the sum of its quantities
  -- and the number of its orders, or one line for a side with no level.
  pub print_book-depth :
      (symbol : Text) (b : OrderBook P)
      → All IsShowable b.bids
      → All IsShowable b.asks
      → print_book symbol b
        ≡ ok (
            title symbol
            ++ bids_title ∷ or_empty (map depth_line (take 5 b.bids))
            ++ asks_title ∷ or_empty (map depth_line (take 5 b.asks)))
  unfolding print_book
  print_book-depth symbol b h k =
      rw (show_levels-take 0 5 b.bids refl h, show_levels-take 0 5 b.asks refl k) refl
