-- ===== src/Levels/Shape.antt =====
-- The shape of a side of the book: sorted levels, none of them empty, each order at its own level.
use order_matching_engine.Base.{
  ◌≡◌, inl, inr, Bool, true, false, List, [], ◌∷◌, ◌++◌, arith, All, All-append, All-map,
  Bool-cases,
}
use order_matching_engine.Order.{Side, IsStrictWeak}
use order_matching_engine.Levels.{Node, Level, Levels, settle, push_back}

module _ {ℓ} {A : Type ℓ} where
  abbrev pub NonEmpty : List A → Type 0
  NonEmpty [] = ⊥
  NonEmpty (_ ∷ _) = Unit

  pub NonEmpty-append : (xs : List A) (x : A) → NonEmpty (xs ++ x ∷ [])
  NonEmpty-append [] x = tt
  NonEmpty-append (y ∷ xs) x = tt

module _ {P : Type 0} (before : P → P → Bool) where
  -- Neither price comes before the other: one key of the map.
  abbrev pub IsSame : P → P → Type 0
  IsSame a b = (before a b ≡ false) × (before b a ≡ false)

  abbrev pub AtLevel : Side → P → Node P → Type 0
  AtLevel side p n = (n.order.side ≡ side) × IsSame n.order.price p

  abbrev pub Above : P → Level P → Type 0
  Above p l = before p l.price ≡ true

  abbrev pub WellFormed : Side → Levels P → Type 0
  WellFormed side [] = Unit
  WellFormed side (l ∷ ls) =
      NonEmpty l.queue
      × All (AtLevel side l.price) l.queue
      × All (Above l.price) ls
      × WellFormed side ls

module _ {P : Type 0} {before : P → P → Bool} (weak : IsStrictWeak before) where
  -- Level prices may be exchanged on either side of the comparator.
  pub before_same_left : (a b c : P) → IsSame before a b → before b c ≡ true → before a c ≡ true
  before_same_left a b c s h = ground (arith, weak.split b c a h)

  pub before_same_right : (a b c : P) → IsSame before a b → before c b ≡ true → before c a ≡ true
  before_same_right a b c s h = ground (arith, weak.split c b a h)

  pub before_asym : (a b : P) → before a b ≡ true → before b a ≡ false
  before_asym a b h = ground (arith, weak.trans a b a h, weak.irrefl a)

  pub Above-push_back :
      (p : P) (n : Node P) (ls : Levels P)
      → before p n.order.price ≡ true
      → All (Above before p) ls
      → All (Above before p) (push_back before n ls)
  unfolding push_back
  Above-push_back p n [] h a = (h, tt)
  Above-push_back p n (l ∷ ls) h a = ground (arith, Above-push_back p n ls h a.1)

  pub Above-trans :
      (p q : P) (ls : Levels P)
      → before p q ≡ true
      → All (Above before q) ls
      → All (Above before p) ls
  Above-trans p q ls h a =
      All-map (Above before q) (Above before p) ls (λ l k. weak.trans p q l.price h k) a

  pub push_back-WellFormed :
      (side : Side) (n : Node P) (ls : Levels P)
      → n.order.side ≡ side
      → WellFormed before side ls
      → WellFormed before side (push_back before n ls)
  unfolding push_back
  push_back-WellFormed side n [] e w =
      let i = weak.irrefl n.order.price in (tt, ((e, (i, i)), tt), tt, tt)
  push_back-WellFormed side n (l ∷ ls) e w = elim (Bool-cases (before n.order.price l.price)) [
    | inl first ↦
        let i = weak.irrefl n.order.price in
        rw first (tt, ((e, (i, i)), tt), (first, Above-trans n.order.price l.price ls first w.2), w)
    | inr no_first ↦ elim (Bool-cases (before l.price n.order.price)) [
      | inl later ↦
          rw (no_first, later)
            (w.0, w.1, Above-push_back l.price n ls later w.2, push_back-WellFormed side n ls e w.3)
      | inr same ↦
          rw (no_first, same)
            (
              NonEmpty-append l.queue n,
              All-append (AtLevel before side l.price) l.queue (n ∷ []) w.1
                  ((e, (no_first, same)), tt),
              w.2,
              w.3,
            )
    ]
  ]

  pub settle-WellFormed :
      (side : Side) (l : Level P) (q : List (Node P)) (ls : Levels P)
      → All (AtLevel before side l.price) q
      → All (Above before l.price) ls
      → WellFormed before side ls
      → WellFormed before side (settle l q ls)
  settle-WellFormed side l [] ls a b w = w
  settle-WellFormed side l (n ∷ q) ls a b w = (tt, a, b, w)
