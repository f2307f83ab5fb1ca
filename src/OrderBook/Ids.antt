-- ===== src/OrderBook/Ids.antt =====
-- Which ids a book holds after an operation, read off the abstract book.
use order_matching_engine.Base.{
  ℕ, ◌≡◌, ◌≢◌, subst, ◌⊎◌, inl, inr, Bool, Option, none, some, List, [], ◌∷◌, ◌++◌, arith,
  Bool-cases, Option-cases, ◌&&◌, true, false,
}
use order_matching_engine.Base.Int.{ℤ, ltb_ℤ, ◌-ℤ◌, min_ℤ}
use order_matching_engine.Order.{Price, Order}
use order_matching_engine.Report.{Report}
use order_matching_engine.Levels.Priority.{place}
use order_matching_engine.OrderBook.{greater, less}
use order_matching_engine.OrderBook.Engine.{Crossings, settled, crossing}
use order_matching_engine.OrderBook.Spec
use order_matching_engine.OrderBook.Spec.{PriorityBook, find_order, drop_order, resize, keep}

module _ {P : Type 0} where
  abbrev pub HasId : ℕ → List (Order P) → Type 0
  HasId i [] = ⊥
  HasId i (o ∷ os) = (o.order_id ≡ i) ⊎ HasId i os

  -- The book holds an order of the id.
  abbrev pub Has : ℕ → PriorityBook P → Type 0
  Has i s = HasId i s.bids ⊎ HasId i s.asks

  HasId-drop : (i id : ℕ) (os : List (Order P)) → HasId i (drop_order id os) → HasId i os
  HasId-drop i id [] h = h
  HasId-drop i id (o ∷ os) h = ground (arith, HasId-drop i id os)

  HasId-resize : (i id : ℕ) (q : ℤ) (os : List (Order P)) → HasId i (resize id q os) → HasId i os
  HasId-resize i id q [] h = h
  HasId-resize i id q (o ∷ os) h = ground (arith, HasId-resize i id q os)

  HasId-place :
      (i : ℕ) (before : P → P → Bool) (o : Order P) (os : List (Order P))
      → HasId i (place before o os)
      → (o.order_id ≡ i) ⊎ HasId i os
  HasId-place i before o [] h = h
  HasId-place i before o (x ∷ os) h = ground (arith, HasId-place i before o os)

  HasId-keep :
      (i : ℕ) (o : Order P) (q : ℤ) (os : List (Order P)) → HasId i (keep o q os) → HasId i (o ∷ os)
  HasId-keep i o q os h = ground arith

  find_order-HasId :
      (i : ℕ) (os rest : List (Order P)) {o : Order P}
      → find_order i (os ++ rest) ≡ some o
      → HasId i os ⊎ HasId i rest
  find_order-HasId i [] [] e = absurd (cc)
  find_order-HasId i [] (x ∷ rest) {o} e = ground (arith, find_order-HasId i [] rest {o = o})
  find_order-HasId i (x ∷ os) rest {o} e = ground (arith, find_order-HasId i os rest {o = o})

  pub find-Has : (i : ℕ) (s : PriorityBook P) {o : Order P} → Spec.find i s ≡ some o → Has i s
  find-Has i s e = find_order-HasId i s.bids s.asks e

  find_order-id :
      (i : ℕ) (os : List (Order P)) {o : Order P} → find_order i os ≡ some o → o.order_id ≡ i
  find_order-id i [] e = absurd (cc)
  find_order-id i (x ∷ os) {o} e = ground (arith, find_order-id i os {o = o})

  not-HasId-drop : (id : ℕ) (os : List (Order P)) → HasId id (drop_order id os) → ⊥
  not-HasId-drop id [] h = h
  not-HasId-drop id (o ∷ os) h = ground (arith, not-HasId-drop id os)

  not-HasId-none :
      (id : ℕ) (os rest : List (Order P))
      → find_order id (os ++ rest) ≡ none
      → HasId id os ⊎ HasId id rest
      → ⊥
  not-HasId-none id [] [] e h = ground arith
  not-HasId-none id [] (x ∷ rest) e h = ground (arith, not-HasId-none id [] rest)
  not-HasId-none id (x ∷ os) rest e h = ground (arith, not-HasId-none id os rest)

  pub not-Has-none : (id : ℕ) (s : PriorityBook P) → Spec.find id s ≡ none → ¬ Has id s
  not-Has-none id s e h = not-HasId-none id s.bids s.asks e h

  pub find-none : (id : ℕ) (s : PriorityBook P) → ¬ Has id s → Spec.find id s ≡ none
  find-none id s n = elim (Option-cases (Spec.find id s)) [
    | inl e ↦ e
    | inr (o, e) ↦ absurd (n (find-Has id s e))
  ]

  -- A cancelled id is gone, and no other id is new.
  pub Has-cancel : (i id : ℕ) (s : PriorityBook P) → Has i (Spec.cancel id s).1 → Has i s × (i ≢ id)
  Has-cancel i id s h = elim (Option-cases (Spec.find id s)) [
    | inl missing ↦
        let k : Has i s = rw missing at h in
        (k, λ e. not-Has-none id s missing (subst (λ j. Has j s) e k))
    | inr (o, found) ↦
        let k : Has i (Spec.remove id s) = rw found at h in
        (
          ground (arith, HasId-drop i id s.bids, HasId-drop i id s.asks),
          λ e. gone (subst (λ j. Has j (Spec.remove id s)) e k),
        )
  ]
    where
      gone : Has id (Spec.remove id s) → ⊥
      gone (inl a) = not-HasId-drop id s.bids a
      gone (inr a) = not-HasId-drop id s.asks a

module _ {P : Type 0} ⦃d : Price P⦄ where
  pub Has-add :
      (i : ℕ) (o : Order P) (s : PriorityBook P) → Has i (Spec.add o s) → (o.order_id ≡ i) ⊎ Has i s
  Has-add i o s h = ground (arith, HasId-place i greater o s.bids, HasId-place i less o s.asks)

  abbrev Kept : ℕ → PriorityBook P → Option (Report P × PriorityBook P) → Type 0
  Kept i s none = Unit
  Kept i s (some (r, t)) = Has i t → Has i s

  fronts-Kept :
      (i : ℕ) (bids asks : List (Order P))
      → Kept i (record { bids = bids; asks = asks }) (Spec.cross_fronts bids asks)
  fronts-Kept i [] asks = tt
  fronts-Kept i (b ∷ bids) [] = tt
  fronts-Kept i (b ∷ bids) (a ∷ asks) = elim (Bool-cases (d.lt b.price a.price)) [
    | inl apart ↦ rw apart tt
    | inr crosses ↦
        let q = min_ℤ b.quantity a.quantity in
        rw crosses (elim [
          | inl h ↦ inl (HasId-keep i b (b.quantity -ℤ q) bids h)
          | inr h ↦ inr (HasId-keep i a (a.quantity -ℤ q) asks h)
        ])
  ]

  pub Has-modify :
      (i id : ℕ) (q : ℤ) (p : P) (timestamp : ℤ) (s : PriorityBook P)
      → Has i (Spec.modify id q p timestamp s).1
      → Has i s
  Has-modify i id q p timestamp s h = elim (Option-cases (Spec.find id s)) [
    | inl missing ↦ (rw missing at h)
    | inr (o, found) ↦ modified_Has o found (Bool-cases (d.eq p o.price && ltb_ℤ q o.quantity)) h
  ]
    where
      modified_Has :
          (o : Order P)
          → Spec.find id s ≡ some o
          → ((d.eq p o.price && ltb_ℤ q o.quantity) ≡ true)
            ⊎ ((d.eq p o.price && ltb_ℤ q o.quantity) ≡ false)
          → Has i (Spec.modify id q p timestamp s).1
          → Has i s
      modified_Has o found (inl smaller) h =
          let k : Has i (Spec.reduce id q s) = rw (found, smaller) at h in
          ground (arith, HasId-resize i id q s.bids, HasId-resize i id q s.asks)
      modified_Has o found (inr other) h =
          let new = Spec.replacement o q p timestamp in
          let k : Has i (Spec.add new (Spec.remove id s)) = rw (found, other) at h in
          ground (
            arith,
            Has-add i new (Spec.remove id s) k,
            HasId-drop i id s.bids,
            HasId-drop i id s.asks,
            find-Has id s found,
            find_order-id id (s.bids ++ s.asks) found,
          )

  pub Has-Crossings :
      (i : ℕ) {s t : PriorityBook P} {rs : List (Report P)} → Crossings s rs t → Has i t → Has i s
  Has-Crossings i (settled e) h = h
  Has-Crossings i (crossing {s = s} e c) h =
      let keep' : Has i _ → Has i s = subst (Kept i s) e (fronts-Kept i s.bids s.asks) in
      keep' (Has-Crossings i c h)
