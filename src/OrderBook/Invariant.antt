-- ===== src/OrderBook/Invariant.antt =====
-- The invariant of `OrderBook`, and where an indexed order stands.
use mathlib.Core.Option.{some-injective}
use order_matching_engine.Base.{
  ℕ, ◌+◌, ◌≤◌, ◌≡◌, refl, inl, inr, none, some, List, [], ◌∷◌, ◌++◌, arith, eqb, eqb_iff,
  Bool-cases, nat_key,
}
use order_matching_engine.Base.Dict.{lookup}
use order_matching_engine.Order.{buy, sell, Price}
use order_matching_engine.Levels.{Node, find_node}
use order_matching_engine.Levels.Shape.{WellFormed}
use order_matching_engine.Levels.Priority.{orders}
use order_matching_engine.OrderBook.{OrderBook, OrderLocation, greater, less, resting, empty_book}
use order_matching_engine.OrderBook.Index.{
  Inserted, here, there, Entry, entry, entries, count_id, count_handle, Coherent,
}
use order_matching_engine.OrderBook.Spec.{find_order, drop_order}

module _ {P : Type 0} ⦃d : Price P⦄ where
  pub record IsValid (b : OrderBook P) : Type 0 where
    pub bids_shape : WellFormed greater buy b.bids
    pub asks_shape : WellFormed less sell b.asks
    pub coherent : Coherent b.order_map b.next_handle (entries (resting b))

  pub empty_book-IsValid : IsValid empty_book
  unfolding lookup
  empty_book-IsValid = record {
    bids_shape = tt;
    asks_shape = tt;
    coherent = record {
      ids = λ i. omega arith;
      handles = λ h. omega arith;
      fresh = λ h k. refl;
      index = λ i. refl;
    };
  }

module _ {P : Type 0} where
  pub count_id-append :
      (i : ℕ) (es fs : List (Entry P)) → count_id i (es ++ fs) ≡ count_id i es + count_id i fs
  count_id-append i [] fs = omega arith
  count_id-append i (e ∷ es) fs = omega (arith, count_id-append i es fs)

  pub count_handle-append :
      (h : ℕ) (es fs : List (Entry P))
      → count_handle h (es ++ fs) ≡ count_handle h es + count_handle h fs
  count_handle-append h [] fs = omega arith
  count_handle-append h (e ∷ es) fs = omega (arith, count_handle-append h es fs)

  pub count_handle_pos :
      (h : ℕ) (ns : List (Node P)) {n : Node P}
      → find_node h ns ≡ some n
      → 1 ≤ count_handle h (entries ns)
  count_handle_pos h [] e = absurd (cc)
  count_handle_pos h (m ∷ ns) {n} e = ground (arith, count_handle_pos h ns {n = n})

  -- The entry `loc` of `id` leads to a node of the list, with that id.
  pub record Located (id : ℕ) (loc : OrderLocation P) (ns : List (Node P)) : Type 0 where
    pub node : Node P
    pub found : find_node loc.it ns ≡ some node
    pub names : entry node ≡ (id, loc)
    pub order : find_order id (orders ns) ≡ some node.order

  pub locate :
      (id : ℕ) {loc : OrderLocation P} (ns : List (Node P))
      → ((h : ℕ) → count_handle h (entries ns) ≤ 1)
      → lookup id (entries ns) ≡ some loc
      → Located id loc ns
  unfolding lookup
  locate id [] u e = absurd (cc)
  locate id {loc} (n ∷ ns) u e = elim (Bool-cases (eqb n.order.order_id id)) [
    | inl hit ↦
        let same : (entry n).1 ≡ loc = some-injective _ _ (rw hit at e) in
        record {
          node = n;
          found = rw (← same) (ground arith);
          names = λ i. ((eqb_iff n.order.order_id id).0 hit i, same i);
          order = rw hit;
        }
    | inr miss ↦
        let r = locate id ns (λ h. ground (arith, u h)) (rw miss at e) in
        record {
          node = r.node;
          found = ground (arith, u loc.it, count_handle_pos loc.it ns r.found, r.found);
          names = r.names;
          order = rw miss r.order;
        }
  ]

  pub locate_none :
      (id : ℕ) (ns : List (Node P))
      → lookup id (entries ns) ≡ none
      → find_order id (orders ns) ≡ none
  unfolding lookup
  locate_none id [] e = refl
  locate_none id (n ∷ ns) e = ground (arith, locate_none id ns)

  -- The abstract removal of an id, on a list without it and on one with it.
  pub drop_order_absent :
      (id : ℕ) (ns : List (Node P))
      → count_id id (entries ns) ≡ 0
      → drop_order id (orders ns) ≡ orders ns
  drop_order_absent id [] h = refl
  drop_order_absent id (n ∷ ns) h = ground (arith, drop_order_absent id ns)

  pub drop_order-Inserted :
      (id : ℕ) {n : Node P} {ns ms : List (Node P)}
      → Inserted n ns ms
      → n.order.order_id ≡ id
      → count_id id (entries ns) ≡ 0
      → drop_order id (orders ms) ≡ orders ns
  drop_order-Inserted id (here {xs = xs}) e h = ground (arith, drop_order_absent id xs)
  drop_order-Inserted id (there i) e h = ground (arith, drop_order-Inserted id i e)
