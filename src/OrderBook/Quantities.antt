-- ===== src/OrderBook/Quantities.antt =====
-- Predicates on every quantity of a priority book, and how many orders it has.
use order_matching_engine.Base.{
  ℕ, suc, ◌≤◌, ◌≡◌, refl, inl, inr, Bool, ◌&&◌, List, [], ◌∷◌, arith, eqb, Bool-cases, Option-cases,
  All, length,
}
use order_matching_engine.Base.Int.{ℤ, ltb_ℤ}
use order_matching_engine.Order.{Side, buy, sell, Price, Order}
use order_matching_engine.Levels.Priority.{place}
use order_matching_engine.OrderBook.{greater, less}
use order_matching_engine.OrderBook.Spec
use order_matching_engine.OrderBook.Spec.{PriorityBook, drop_order, resize}

module _ {P : Type 0} where
  pub All-drop_order :
      (Q : Order P → Type 0) (id : ℕ) (os : List (Order P)) → All Q os → All Q (drop_order id os)
  All-drop_order Q id [] h = tt
  All-drop_order Q id (o ∷ os) h = elim (Bool-cases (eqb o.order_id id)) [
    | inl e ↦ rw e (All-drop_order Q id os h.1)
    | inr e ↦ rw e (h.0, All-drop_order Q id os h.1)
  ]

  length-place :
      (before : P → P → Bool) (o : Order P) (os : List (Order P))
      → length (place before o os) ≡ suc (length os)
  length-place before o [] = refl
  length-place before o (x ∷ os) = ground (arith, length-place before o os)

  length-drop_order : (id : ℕ) (os : List (Order P)) → length (drop_order id os) ≤ length os
  length-drop_order id [] = omega arith
  length-drop_order id (o ∷ os) = ground (arith, length-drop_order id os)

  length-resize : (id : ℕ) (q : ℤ) (os : List (Order P)) → length (resize id q os) ≡ length os
  length-resize id q [] = refl
  length-resize id q (o ∷ os) = omega (arith, length-resize id q os)

  -- Each side has at most so many orders.
  abbrev pub SidesFit : ℕ → PriorityBook P → Type 0
  SidesFit n s = (length s.bids ≤ n) × (length s.asks ≤ n)

  pub SidesFit-cancel :
      (n id : ℕ) (s : PriorityBook P) → SidesFit n s → SidesFit n (Spec.cancel id s).1
  SidesFit-cancel n id s h = elim (Option-cases (Spec.find id s)) [
    | inl e ↦ rw e h
    | inr (o, e) ↦
        let b = length-drop_order id s.bids in
        let a = length-drop_order id s.asks in rw e (omega arith, omega arith)
  ]

module _ {P : Type 0} ⦃d : Price P⦄ where
  pub SidesFit-add :
      (n : ℕ) (o : Order P) (s : PriorityBook P) → SidesFit n s → SidesFit (suc n) (Spec.add o s)
  SidesFit-add n o s h = on o.side
    where
      on : (side : Side) → SidesFit (suc n) (Spec.add (record o { side = side }) s)
      on buy =
          let l = length-place greater (record o { side = buy }) s.bids in
          (omega arith, omega arith)
      on sell =
          let l = length-place less (record o { side = sell }) s.asks in (omega arith, omega arith)

  pub SidesFit-modify :
      (n id : ℕ) (q : ℤ) (p : P) (timestamp : ℤ) (s : PriorityBook P)
      → SidesFit n s
      → SidesFit (suc n) (Spec.modify id q p timestamp s).1
  SidesFit-modify n id q p timestamp s h = elim (Option-cases (Spec.find id s)) [
    | inl e ↦ rw e (omega arith, omega arith)
    | inr (o, e) ↦ elim (Bool-cases (d.eq p o.price && ltb_ℤ q o.quantity)) [
      | inl smaller ↦
          let b = length-resize id q s.bids in
          let a = length-resize id q s.asks in rw (e, smaller) (omega arith, omega arith)
      | inr other ↦
          let b = length-drop_order id s.bids in
          let a = length-drop_order id s.asks in
          rw (e, other)
            (SidesFit-add n (Spec.replacement o q p timestamp) (Spec.remove id s)
              (omega arith, omega arith))
    ]
  ]

module _ {P : Type 0} (Q : ℤ → Type 0) where
  -- Every quantity of the list, and of the book.
  abbrev pub Each : List (Order P) → Type 0
  Each = All (λ o. Q o.quantity)

  abbrev pub EachOf : PriorityBook P → Type 0
  EachOf s = Each s.bids × Each s.asks

  Each-place :
      (before : P → P → Bool) (o : Order P) (os : List (Order P))
      → Q o.quantity
      → Each os
      → Each (place before o os)
  Each-place before o [] q h = (q, tt)
  Each-place before o (x ∷ os) q h = elim (Bool-cases (before o.price x.price)) [
    | inl e ↦ rw e (q, h)
    | inr e ↦ rw e (h.0, Each-place before o os q h.1)
  ]

  Each-resize : (id : ℕ) (q : ℤ) (os : List (Order P)) → Q q → Each os → Each (resize id q os)
  Each-resize id q [] l h = tt
  Each-resize id q (o ∷ os) l h = elim (Bool-cases (eqb o.order_id id)) [
    | inl e ↦ rw e (l, Each-resize id q os l h.1)
    | inr e ↦ rw e (h.0, Each-resize id q os l h.1)
  ]

  EachOf-remove : (id : ℕ) (s : PriorityBook P) → EachOf s → EachOf (Spec.remove id s)
  EachOf-remove id s h = (
    All-drop_order (λ o. Q o.quantity) id s.bids h.0,
    All-drop_order (λ o. Q o.quantity) id s.asks h.1,
  )

  pub EachOf-cancel : (id : ℕ) (s : PriorityBook P) → EachOf s → EachOf (Spec.cancel id s).1
  EachOf-cancel id s h = elim (Option-cases (Spec.find id s)) [
    | inl e ↦ rw e h
    | inr (o, e) ↦ rw e (EachOf-remove id s h)
  ]

  module _ ⦃d : Price P⦄ where
    EachOf-add_on :
        (side : Side) (o : Order P) (s : PriorityBook P)
        → Q o.quantity
        → EachOf s
        → EachOf (Spec.add (record o { side = side }) s)
    EachOf-add_on buy o s q h = (Each-place greater (record o { side = buy }) s.bids q h.0, h.1)
    EachOf-add_on sell o s q h = (h.0, Each-place less (record o { side = sell }) s.asks q h.1)

    pub EachOf-add :
        (o : Order P) (s : PriorityBook P) → Q o.quantity → EachOf s → EachOf (Spec.add o s)
    EachOf-add o s q h = EachOf-add_on o.side o s q h

    pub EachOf-modify :
        (id : ℕ) (q : ℤ) (p : P) (timestamp : ℤ) (s : PriorityBook P)
        → Q q
        → EachOf s
        → EachOf (Spec.modify id q p timestamp s).1
    EachOf-modify id q p timestamp s l h = elim (Option-cases (Spec.find id s)) [
      | inl e ↦ rw e h
      | inr (o, e) ↦ elim (Bool-cases (d.eq p o.price && ltb_ℤ q o.quantity)) [
        | inl smaller ↦
            rw (e, smaller) (Each-resize id q s.bids l h.0, Each-resize id q s.asks l h.1)
        | inr other ↦
            rw (e, other)
              (EachOf-add (Spec.replacement o q p timestamp) (Spec.remove id s) l
                (EachOf-remove id s h))
      ]
    ]
