-- ===== src/OrderBook/Lots.antt =====
-- Quantities of live orders: positive `int`s, and the arithmetic of one fill.
use order_matching_engine.Base.{◌+◌, ◌<◌, ◌≡◌, List, arith, All}
use order_matching_engine.Base.Exec.{ok}
use order_matching_engine.Base.Int.{ℤ, pos, negsuc, ◌-ℤ◌, min_ℤ, checked, int_limit, pos_part}
use order_matching_engine.Levels.{Node}
use order_matching_engine.OrderBook.{filled}

abbrev pub IsLot : ℤ → Type 0
IsLot (pos n) = (0 < n) × (n < int_limit)
IsLot (negsuc n) = ⊥

-- What a fill leaves of an order: nothing, or a live quantity.
abbrev pub IsRest : ℤ → Type 0
IsRest (pos n) = n < int_limit
IsRest (negsuc n) = ⊥

abbrev pub Lots : {P : Type 0} → List (Node P) → Type 0
Lots = All (λ n. IsLot n.order.quantity)

-- One fill of two live quantities: no overflow, one of them is used up, both shrink by the trade.
pub record Fill (a b : ℤ) : Type 0 where
  pub fits_left : checked int_limit (a -ℤ min_ℤ a b) ≡ ok (a -ℤ min_ℤ a b)
  pub fits_right : checked int_limit (b -ℤ min_ℤ a b) ≡ ok (b -ℤ min_ℤ a b)
  pub rest_left : IsRest (a -ℤ min_ℤ a b)
  pub rest_right : IsRest (b -ℤ min_ℤ a b)
  pub sum_left : pos_part a ≡ pos_part (a -ℤ min_ℤ a b) + pos_part (min_ℤ a b)
  pub sum_right : pos_part b ≡ pos_part (b -ℤ min_ℤ a b) + pos_part (min_ℤ a b)
  pub lot : IsLot (min_ℤ a b)

pub fill : (a b : ℤ) → IsLot a → IsLot b → Fill a b
fill (pos m) (pos n) p q = ground arith
fill (pos m) (negsuc n) p q = absurd q
fill (negsuc m) b p q = absurd p

pub Lots-filled :
    {P : Type 0} (n : Node P) (left : ℤ) (ns : List (Node P))
    → IsRest left
    → Lots ns
    → Lots (filled n left ns)
Lots-filled n (pos k) ns r a = ground arith
Lots-filled n (negsuc k) ns r a = absurd r
