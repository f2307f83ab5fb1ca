-- ===== src/OrderBook/Match.antt =====
-- One round of the loop of `matchOrders` on a valid book of live orders.
use order_matching_engine.Base.{
  ℕ, ◌≡◌, ◌∙◌, sym, subst, Bool, List, ◌∷◌, ◌++◌, arith, Bool-cases, inl, inr, map-append,
}
use order_matching_engine.Base.Int.{ℤ, is_zero}
use order_matching_engine.Base.Dict.{Dict}
use order_matching_engine.Order.{Side, IsStrictWeak}
use order_matching_engine.Levels.{Node, Levels, settle, set_quantity}
use order_matching_engine.Levels.Shape.{
  IsSame, WellFormed, settle-WellFormed, before_same_left, before_same_right,
}
use order_matching_engine.Levels.Priority.{orders}
use order_matching_engine.OrderBook.{OrderLocation, filled, unindex}
use order_matching_engine.OrderBook.Index.{
  here, entry, entries, Inserted-append_right, Inserted-map, Coherent, Coherent-erase,
}
use order_matching_engine.OrderBook.Spec
use order_matching_engine.OrderBook.Spec.{PriorityBook, view}

-- The order of two prices is that of any prices of their levels.
pub lt_same :
    {P : Type 0} {lt : P → P → Bool} (weak : IsStrictWeak lt) (a a' b b' : P)
    → IsSame lt a a'
    → IsSame lt b b'
    → lt a b ≡ lt a' b'
lt_same {lt = lt} weak a a' b b' s t = elim (Bool-cases (lt a b)) [
  | inl yes' ↦
      yes'
      ∙ sym
          (before_same_right weak b' b a' (t.1, t.0) (before_same_left weak a' a b (s.1, s.0) yes'))
  | inr no' ↦ elim (Bool-cases (lt a' b')) [
    | inl bad ↦
        let back = before_same_right weak b b' a t (before_same_left weak a a' b' s bad) in
        absurd (cc)
    | inr same ↦ no' ∙ sym same
  ]
]

module _ {P : Type 0} where
  pub filled-append :
      (n : Node P) (left : ℤ) (q rest : List (Node P))
      → filled n left q ++ rest ≡ filled n left (q ++ rest)
  filled-append n left q rest = ground arith

  pub orders-filled :
      (n : Node P) (left : ℤ) (ns : List (Node P))
      → orders (filled n left ns) ≡ Spec.keep n.order left (orders ns)
  orders-filled n left ns = ground arith

  -- Filling the node at any place of the list, in the list and in the index.
  pub filled-Coherent :
      (pre : List (Node P)) (n : Node P) (left : ℤ) (ns : List (Node P))
      {m : Dict ℕ (OrderLocation P)} {next : ℕ}
      → Coherent m next (entries (pre ++ n ∷ ns))
      → Coherent (unindex n left m) next (entries (pre ++ filled n left ns))
  filled-Coherent pre n left ns {m} {next} c = elim (Bool-cases (is_zero left)) [
    | inl gone ↦
        rw gone (Coherent-erase (entry n) (Inserted-map entry (Inserted-append_right pre here)) c)
    | inr stays ↦ rw stays (
        subst (Coherent m next)
          (map-append entry pre (n ∷ ns) ∙ sym (map-append entry pre (set_quantity n left ∷ ns))) c)
  ]

  -- A side whose front node is filled.
  pub filled-WellFormed :
      (before : P → P → Bool) (weak : IsStrictWeak before) (side : Side) (p : P) (n : Node P)
      (left : ℤ) (q : List (Node P)) (ls : Levels P)
      → WellFormed before side (record { price = p; queue = n ∷ q } ∷ ls)
      → WellFormed before side (settle (record { price = p; queue = n ∷ q }) (filled n left q) ls)
  filled-WellFormed before weak side p n left q ls w =
      settle-WellFormed weak side (record { price = p; queue = n ∷ q }) (filled n left q) ls
        (elim (Bool-cases (is_zero left)) [ inl gone ↦ rw gone w.1.1 | inr stays ↦ rw stays w.1 ])
        w.2 w.3
