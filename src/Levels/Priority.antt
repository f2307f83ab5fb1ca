-- ===== src/Levels/Priority.antt =====
-- A side of the book as one list in price-time priority: where `push_back` and `remove_at` act on it.
use mathlib.Core.Option.{some-injective}
use order_matching_engine.Base.{
  ℕ, ◌≡◌, refl, ap, ◌∙◌, sym, inl, inr, Bool, true, false, none, some, List, [], ◌∷◌, ◌++◌, map,
  arith, eqb, subst, if◌then◌else◌, All, All-append, All-map, Bool-cases, Option-cases,
  append_assoc,
}
use order_matching_engine.Base.Exec.{Returns, Returns->>=}
use order_matching_engine.Order.{Side, Order, IsStrictWeak}
use order_matching_engine.Levels.{
  Node, Level, Levels, nodes, find_node, settle, push_back, remove_at, erase_at,
}
use order_matching_engine.Levels.Shape.{
  AtLevel, Above, WellFormed, before_same_left, before_same_right, settle-WellFormed, NonEmpty,
  Above-trans,
}

module _ {P : Type 0} (before : P → P → Bool) where
  -- Behind everything that it does not come before.
  abbrev pub place : Order P → List (Order P) → List (Order P)
  place o [] = o ∷ []
  place o (x ∷ xs) = if before o.price x.price then o ∷ x ∷ xs else x ∷ place o xs

  abbrev pub place_node : Node P → List (Node P) → List (Node P)
  place_node n [] = n ∷ []
  place_node n (m ∷ ms) =
      if before n.order.price m.order.price then n ∷ m ∷ ms else m ∷ place_node n ms

abbrev pub orders : {P : Type 0} → List (Node P) → List (Order P)
orders = map (λ n. n.order)

-- The list without its first node of the handle.
abbrev pub drop_node : {P : Type 0} → ℕ → List (Node P) → List (Node P)
drop_node h [] = []
drop_node h (n ∷ ns) = if eqb n.handle h then ns else n ∷ drop_node h ns

pub orders-place_node :
    {P : Type 0} (before : P → P → Bool) (n : Node P) (ns : List (Node P))
    → orders (place_node before n ns) ≡ place before n.order (orders ns)
orders-place_node before n [] = refl
orders-place_node before n (m ∷ ms) = ground (arith, orders-place_node before n ms)

pub settle-nodes :
    {P : Type 0} (l : Level P) (q : List (Node P)) (ls : Levels P)
    → nodes (settle l q ls) ≡ q ++ nodes ls
settle-nodes l [] ls = refl
settle-nodes l (n ∷ q) ls = refl

-- `erase` of an iterator of the list.
erase_at-eq :
    {P : Type 0} (h : ℕ) (q rest : List (Node P)) {n : Node P}
    → find_node h q ≡ some n
    → (erase_at h q ≡ some (drop_node h q)) × (drop_node h (q ++ rest) ≡ drop_node h q ++ rest)
erase_at-eq h [] rest e = absurd (cc)
erase_at-eq h (m ∷ q) rest {n} e = elim (Bool-cases (eqb m.handle h)) [
  | inl hit ↦ rw hit (refl, refl)
  | inr miss ↦
      let (a, b) = erase_at-eq h q rest {n = n} (rw miss at e) in rw (miss, a, b) (refl, refl)
]

pub find_node-append :
    {P : Type 0} (h : ℕ) (q rest : List (Node P))
    → find_node h q ≡ none
    → (find_node h (q ++ rest) ≡ find_node h rest)
      × (drop_node h (q ++ rest) ≡ q ++ drop_node h rest)
find_node-append h [] rest e = (refl, refl)
find_node-append h (m ∷ q) rest e = elim (Bool-cases (eqb m.handle h)) [
  | inl hit ↦ absurd (let f : some m ≡ none = rw hit at e in cc)
  | inr miss ↦ let (a, b) = find_node-append h q rest (rw miss at e) in rw (miss, a, b) (refl, refl)
]

pub find_node-append_some :
    {P : Type 0} (h : ℕ) (q rest : List (Node P)) {n : Node P}
    → find_node h q ≡ some n
    → find_node h (q ++ rest) ≡ some n
find_node-append_some h [] rest e = absurd (cc)
find_node-append_some h (m ∷ q) rest {n} e = ground (arith, find_node-append_some h q rest {n = n})

pub All-find_node :
    {P : Type 0} (Q : Node P → Type 0) (h : ℕ) (q : List (Node P)) {n : Node P}
    → All Q q
    → find_node h q ≡ some n
    → Q n
All-find_node Q h [] a e = absurd (cc)
All-find_node Q h (m ∷ q) {n} a e = elim (Bool-cases (eqb m.handle h)) [
  | inl hit ↦ subst Q (some-injective m n (rw hit at e)) a.0
  | inr miss ↦ All-find_node Q h q {n = n} a.1 (rw miss at e)
]

All-drop_node :
    {P : Type 0} (Q : Node P → Type 0) (h : ℕ) (q : List (Node P)) → All Q q → All Q (drop_node h q)
All-drop_node Q h [] a = tt
All-drop_node Q h (m ∷ q) a = ground (arith, All-drop_node Q h q a.1)

-- What taking out the node of a handle does to a side.
pub record Removed {P : Type 0} (before : P → P → Bool) (side : Side) (h : ℕ) (ls : Levels P)
    (out : Levels P) : Type 0 where
  pub exact : nodes out ≡ drop_node h (nodes ls)
  pub shape : WellFormed before side out
  pub above : (p : P) → All (Above before p) ls → All (Above before p) out

module _ {P : Type 0} {before : P → P → Bool} (weak : IsStrictWeak before) where
  -- A new order passes the orders of its own level.
  place_node-passes :
      (side : Side) (p : P) (n : Node P) (q rest : List (Node P))
      → All (AtLevel before side p) q
      → before n.order.price p ≡ false
      → place_node before n (q ++ rest) ≡ q ++ place_node before n rest
  place_node-passes side p n [] rest a h = refl
  place_node-passes side p n (m ∷ q) rest a h =
      elim (Bool-cases (before n.order.price m.order.price)) [
        | inl bad ↦
            let s = a.0.1 in
            let back = before_same_right weak p m.order.price n.order.price (s.1, s.0) bad in
            absurd (cc)
        | inr behind ↦ rw behind (ap (◌∷◌ m) (place_node-passes side p n q rest a.1 h))
      ]

  place_node-front :
      (side : Side) (p : P) (n : Node P) (q rest : List (Node P))
      → NonEmpty q
      → All (AtLevel before side p) q
      → before n.order.price p ≡ true
      → place_node before n (q ++ rest) ≡ n ∷ q ++ rest
  place_node-front side p n [] rest ne a h = absurd ne
  place_node-front side p n (m ∷ q) rest ne a h =
      rw (before_same_right weak m.order.price p n.order.price a.0.1 h)

  place_node-first :
      (side : Side) (n : Node P) (ls : Levels P)
      → WellFormed before side ls
      → All (Above before n.order.price) ls
      → place_node before n (nodes ls) ≡ n ∷ nodes ls
  place_node-first side n [] w a = refl
  place_node-first side n (l ∷ ls) w a =
      place_node-front side l.price n l.queue (nodes ls) w.0 w.1 a.0

  -- `map[o.price].push_back(o)` puts the order behind all that it does not come before.
  pub nodes-push_back :
      (side : Side) (n : Node P) (ls : Levels P)
      → WellFormed before side ls
      → nodes (push_back before n ls) ≡ place_node before n (nodes ls)
  unfolding push_back
  nodes-push_back side n [] w = refl
  nodes-push_back side n (l ∷ ls) w = elim (Bool-cases (before n.order.price l.price)) [
    | inl first ↦ rw first (
        sym (
          place_node-first side n (l ∷ ls) w
            (first, Above-trans weak n.order.price l.price ls first w.2)))
    | inr no_first ↦
        let passes = place_node-passes side l.price n l.queue (nodes ls) w.1 no_first in
        elim (Bool-cases (before l.price n.order.price)) [
          | inl later ↦ rw (no_first, later, passes, nodes-push_back side n ls w.3)
          | inr same ↦
              let above = λ (k : Level P) (a : Above before l.price k).
                before_same_left weak n.order.price l.price k.price (no_first, same) a in
              rw (no_first, same, passes, append_assoc)
                (ap (◌++◌ l.queue) (
                  sym (
                    place_node-first side n ls w.3
                      (All-map (Above before l.price) _ ls above w.2))))
        ]
  ]

  pub nodes-Above :
      (side : Side) (p : P) (ls : Levels P)
      → WellFormed before side ls
      → All (Above before p) ls
      → All (λ n. before p n.order.price ≡ true) (nodes ls)
  nodes-Above side p [] w a = tt
  nodes-Above side p (l ∷ ls) w a =
      All-append (λ (n : Node P). before p n.order.price ≡ true) l.queue (nodes ls)
        (All-map (AtLevel before side l.price) _ l.queue
          (λ n k. before_same_right weak n.order.price l.price p k.1 a.0) w.1)
        (nodes-Above side p ls w.3 a.1)

  settle-Above :
      (p : P) (l : Level P) (q : List (Node P)) (ls : Levels P)
      → All (Above before p) (l ∷ ls)
      → All (Above before p) (settle l q ls)
  settle-Above p l [] ls a = a.1
  settle-Above p l (n ∷ q) ls a = a

  -- `removeByLocation` of a live order takes exactly that order out.
  pub remove_at-Removed :
      (side : Side) (h : ℕ) (n : Node P) (ls : Levels P)
      → WellFormed before side ls
      → find_node h (nodes ls) ≡ some n
      → Returns (Removed before side h ls) (remove_at before n.order.price h ls)
  unfolding remove_at
  remove_at-Removed side h n [] w e = absurd (cc)
  remove_at-Removed side h n (l ∷ ls) w e = elim (Option-cases (find_node h l.queue)) [
    | inl off ↦
        let (found, dropped) = find_node-append h l.queue (nodes ls) off in
        let e' : find_node h (nodes ls) ≡ some n = sym found ∙ e in
        let ahead : before l.price n.order.price ≡ true =
          All-find_node (λ m. before l.price m.order.price ≡ true) h (nodes ls)
            (nodes-Above side l.price ls w.3 w.2) e' in
        rw ahead (
          Returns->>= (Removed before side h ls) (Removed before side h (l ∷ ls)) _ _
            (remove_at-Removed side h n ls w.3 e')
            (λ out r. record {
              exact = rw (dropped, r.exact);
              shape = (w.0, w.1, r.above l.price w.2, r.shape);
              above = λ p a. (a.0, r.above p a.1);
            }))
    | inr (m, here) ↦
        let here' : find_node h l.queue ≡ some n =
          here ∙ sym (find_node-append_some h l.queue (nodes ls) here) ∙ e in
        let same = (All-find_node (AtLevel before side l.price) h l.queue w.1 here').1 in
        let (erased, dropped) = erase_at-eq h l.queue (nodes ls) here' in
        rw (same.1, same.0, erased)
          (record {
            exact = settle-nodes l (drop_node h l.queue) ls ∙ sym dropped;
            shape =
                settle-WellFormed weak side l (drop_node h l.queue) ls
                  (All-drop_node (AtLevel before side l.price) h l.queue w.1) w.2 w.3;
            above = λ p a. settle-Above p l (drop_node h l.queue) ls a;
          })
  ]
