-- ===== src/OrderBook/Load.antt =====
-- How many orders a side of the book has, and how large they are: what `printBook` may sum up.
use order_matching_engine.Base.{
  ℕ, suc, ◌+◌, ◌*◌, ◌<◌, ◌≤◌, ◌≡◌, refl, inl, inr, Option, none, some, List, [], ◌∷◌, arith,
  Bool-cases, All, All-split, length, length-append, subst, Text,
}
use order_matching_engine.Base.{take}
use native.Mathlib.Nat.{mul-le-mul_right}
use order_matching_engine.Base.Exec.{Returns}
use order_matching_engine.Base.Int.{ℤ, pos, negsuc, ◌-ℤ◌, min_ℤ, pos_part, int_limit}
use order_matching_engine.Order.{Price, IsOrdered, Order}
use order_matching_engine.Report.{Report}
use order_matching_engine.Levels.{Node, Levels, nodes}
use order_matching_engine.Levels.Priority.{orders}
use order_matching_engine.OrderBook.{OrderBook, resting, print_book}
use order_matching_engine.OrderBook.Lots.{IsLot, IsRest, Lots, fill}
use order_matching_engine.OrderBook.Quantities.{
  Each, EachOf, EachOf-add, EachOf-cancel, EachOf-modify, SidesFit, SidesFit-add, SidesFit-cancel,
  SidesFit-modify,
}
use order_matching_engine.OrderBook.Trades.{OrderLots, cross-FairTrade}
use order_matching_engine.OrderBook.Depth.{depth, IsShowable, print_book-depth}
use order_matching_engine.OrderBook.Engine.{Crossings, settled, crossing}
use order_matching_engine.OrderBook.Lines.{order_only, book_lines_only}
use order_matching_engine.OrderBook.Spec
use order_matching_engine.OrderBook.Spec.{PriorityBook, view}

-- A quantity of at most `top`.
abbrev pub IsUpTo : ℕ → ℤ → Type 0
IsUpTo top q = pos_part q ≤ top

module _ {P : Type 0} where
  -- At most `n` orders on each side, each of at most `top`.
  abbrev pub Load : ℕ → ℕ → PriorityBook P → Type 0
  Load n top s = SidesFit n s × EachOf (IsUpTo top) s

  pub Load-mono : (n top : ℕ) (s : PriorityBook P) → Load n top s → Load (suc n) top s
  Load-mono n top s h = ((omega (arith, h.0.0), omega (arith, h.0.1)), h.1)

  pub Load-cancel :
      (n top id : ℕ) (s : PriorityBook P) → Load n top s → Load (suc n) top (Spec.cancel id s).1
  Load-cancel n top id s h =
      Load-mono n top (Spec.cancel id s).1
        (SidesFit-cancel n id s h.0, EachOf-cancel (IsUpTo top) id s h.1)

  -- What a fill leaves of a side.
  keep-Load :
      (n top : ℕ) (o : Order P) (left : ℤ) (os : List (Order P))
      → IsRest left
      → pos_part left ≤ pos_part o.quantity
      → length (o ∷ os) ≤ n
      → Each (IsUpTo top) (o ∷ os)
      → (length (Spec.keep o left os) ≤ n) × Each (IsUpTo top) (Spec.keep o left os)
  keep-Load n top o (pos k) os r p l e = ground arith
  keep-Load n top o (negsuc k) os r p l e = absurd r

module _ {P : Type 0} ⦃d : Price P⦄ where
  pub Load-add :
      (n top : ℕ) (o : Order P) (s : PriorityBook P)
      → IsUpTo top o.quantity
      → Load n top s
      → Load (suc n) top (Spec.add o s)
  Load-add n top o s q h = (SidesFit-add n o s h.0, EachOf-add (IsUpTo top) o s q h.1)

  pub Load-modify :
      (n top id : ℕ) (q : ℤ) (p : P) (timestamp : ℤ) (s : PriorityBook P)
      → IsUpTo top q
      → Load n top s
      → Load (suc n) top (Spec.modify id q p timestamp s).1
  Load-modify n top id q p timestamp s k h = (
    SidesFit-modify n id q p timestamp s h.0,
    EachOf-modify (IsUpTo top) id q p timestamp s k h.1,
  )

  abbrev StepLoad : ℕ → ℕ → Option (Report P × PriorityBook P) → Type 0
  StepLoad n top none = Unit
  StepLoad n top (some (r, t)) = Load n top t

  fronts-StepLoad :
      (n top : ℕ) (bids asks : List (Order P))
      → OrderLots bids
      → OrderLots asks
      → Load n top (record { bids = bids; asks = asks })
      → StepLoad n top (Spec.cross_fronts bids asks)
  fronts-StepLoad n top [] asks u v h = tt
  fronts-StepLoad n top (b ∷ bids) [] u v h = tt
  fronts-StepLoad n top (b ∷ bids) (a ∷ asks) u v h = elim (Bool-cases (d.lt b.price a.price)) [
    | inl apart ↦ rw apart tt
    | inr crosses ↦
        let f = fill b.quantity a.quantity u.0 v.0 in
        let q = min_ℤ b.quantity a.quantity in
        let x =
          keep-Load n top b (b.quantity -ℤ q) bids f.rest_left (omega (arith, f.sum_left)) h.0.0
            h.1.0 in
        let y =
          keep-Load n top a (a.quantity -ℤ q) asks f.rest_right (omega (arith, f.sum_right)) h.0.1
            h.1.1 in
        rw crosses ((x.0, y.0), (x.1, y.1))
  ]

  module _ (laws : IsOrdered P) where
    pub Load-Crossings :
        (n top : ℕ) {s t : PriorityBook P} {rs : List (Report P)}
        → Crossings s rs t
        → OrderLots s.bids
        → OrderLots s.asks
        → Load n top s
        → Load n top t
    Load-Crossings n top (settled e) u v h = h
    Load-Crossings n top {s} (crossing e c) u v h =
        let f = cross-FairTrade laws u v e in
        Load-Crossings n top c f.bid_lots f.ask_lots
          (subst (StepLoad n top) e (fronts-StepLoad n top s.bids s.asks u v h))

module _ {P : Type 0} where
  -- The quantity of each node is at most `top`.
  abbrev NodesUpTo : ℕ → List (Node P) → Type 0
  NodesUpTo top = All (λ m. IsUpTo top m.order.quantity)

  orders-NodesUpTo :
      (top : ℕ) (ns : List (Node P)) → Each (IsUpTo top) (orders ns) → NodesUpTo top ns
  orders-NodesUpTo top [] h = tt
  orders-NodesUpTo top (n ∷ ns) h = (h.0, orders-NodesUpTo top ns h.1)

  length-orders : (ns : List (Node P)) → length (orders ns) ≡ length ns
  length-orders [] = refl
  length-orders (n ∷ ns) = omega (arith, length-orders ns)

  depth_fits : (top : ℕ) (q : List (Node P)) → NodesUpTo top q → depth q ≤ length q * top
  depth_fits top [] h = omega arith
  depth_fits top (n ∷ q) h = omega (arith, h.0, depth_fits top q h.1)

  levels-IsShowable :
      (n top : ℕ) (ls : Levels P)
      → length (nodes ls) ≤ n
      → NodesUpTo top (nodes ls)
      → Lots (nodes ls)
      → n * top < int_limit
      → All IsShowable ls
  levels-IsShowable n top [] l e k f = tt
  levels-IsShowable n top (level ∷ ls) l e k f =
      let q = level.queue in
      let few : length q + length (nodes ls) ≤ n = omega (arith, length-append q (nodes ls), l) in
      let e = All-split (λ (m : Node P). IsUpTo top m.order.quantity) q (nodes ls) e in
      let k = All-split (λ (m : Node P). IsLot m.order.quantity) q (nodes ls) k in
      let most : length q * top ≤ n * top = mul-le-mul_right top (omega arith) in
      (
        (k.0, omega (arith, depth_fits top q e.0)),
        levels-IsShowable n top ls (omega arith) e.1 k.1 f,
      )

module _ {P : Type 0} ⦃d : Price P⦄ where
  -- A book of that many live orders can be printed: the sum of each level is an `int`. No line of it is
  -- about an order.
  pub print_book-Load :
      (n top : ℕ) (symbol : Text) (b : OrderBook P)
      → Lots (resting b)
      → Load n top (view b)
      → n * top < int_limit
      → Returns (λ lines. order_only lines ≡ []) (print_book symbol b)
  print_book-Load n top symbol b lots h f =
      let lots =
        All-split (λ (m : Node P). IsLot m.order.quantity) (nodes b.bids) (nodes b.asks) lots in
      let bids_fit =
        levels-IsShowable n top b.bids (omega (arith, length-orders (nodes b.bids), h.0.0))
          (orders-NodesUpTo top (nodes b.bids) h.1.0) lots.0 f in
      let asks_fit =
        levels-IsShowable n top b.asks (omega (arith, length-orders (nodes b.asks), h.0.1))
          (orders-NodesUpTo top (nodes b.asks) h.1.1) lots.1 f in
      rw (print_book-depth symbol b bids_fit asks_fit)
        (book_lines_only symbol (take 5 b.bids) (take 5 b.asks))
