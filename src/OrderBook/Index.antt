-- ===== src/OrderBook/Index.antt =====
-- The index `orderMap` against the nodes of the two sides: each resting order is found under its id,
-- with its own side, price and list node.
use mathlib.Core.Option.{some-injective}
use order_matching_engine.Base.{
  ℕ, suc, ◌+◌, ◌≤◌, ◌≡◌, refl, ap, ◌∙◌, sym, inl, inr, Bool, none, some, List, [], ◌∷◌, ◌++◌, map,
  arith, eqb, if◌then◌else◌, All, Bool-cases, nat_key, eqb_iff,
}
use order_matching_engine.Base.Dict.{Dict, lookup, insert, erase, lookup-insert, lookup-erase}
use order_matching_engine.Levels.{Node, find_node}
use order_matching_engine.Levels.Priority.{place_node, drop_node}
use order_matching_engine.OrderBook.{OrderLocation}

-- `zs` is `xs` with `x` put in somewhere.
pub data Inserted {A : Type 0} (x : A) : List A → List A → Type 0 where
  here : {xs : List A} → Inserted x xs (x ∷ xs)
  there : {y : A} {xs zs : List A} → Inserted x xs zs → Inserted x (y ∷ xs) (y ∷ zs)

pub Inserted-append_left :
    {A : Type 0} {x : A} {xs zs : List A} (ys : List A)
    → Inserted x xs zs
    → Inserted x (xs ++ ys) (zs ++ ys)
Inserted-append_left ys here = here
Inserted-append_left ys (there i) = there (Inserted-append_left ys i)

pub Inserted-append_right :
    {A : Type 0} {x : A} {xs zs : List A} (ys : List A)
    → Inserted x xs zs
    → Inserted x (ys ++ xs) (ys ++ zs)
Inserted-append_right [] i = i
Inserted-append_right (y ∷ ys) i = there (Inserted-append_right ys i)

pub Inserted-map :
    {A B : Type 0} (f : A → B) {x : A} {xs zs : List A}
    → Inserted x xs zs
    → Inserted (f x) (map f xs) (map f zs)
Inserted-map f here = here
Inserted-map f (there i) = there (Inserted-map f i)

pub All-Inserted :
    {A : Type 0} (Q : A → Type 0) {x : A} {xs zs : List A}
    → Inserted x xs zs
    → Q x
    → All Q xs
    → All Q zs
All-Inserted Q here q a = (q, a)
All-Inserted Q (there i) q a = (a.0, All-Inserted Q i q a.1)

pub All-Inserted_iff :
    {A : Type 0} (Q : A → Type 0) {x : A} {xs zs : List A}
    → Inserted x xs zs
    → All Q zs
    → Q x × All Q xs
All-Inserted_iff Q here a = a
All-Inserted_iff Q (there i) a = let r = All-Inserted_iff Q i a.1 in (r.0, (a.0, r.1))

abbrev pub Entry : Type 0 → Type 0
Entry P = ℕ × OrderLocation P

module _ {P : Type 0} where
  pub place_node-Inserted :
      (before : P → P → Bool) (n : Node P) (ns : List (Node P))
      → Inserted n ns (place_node before n ns)
  place_node-Inserted before n [] = here
  place_node-Inserted before n (m ∷ ms) = elim (Bool-cases (before n.order.price m.order.price)) [
    | inl front ↦ rw front here
    | inr behind ↦ rw behind (there (place_node-Inserted before n ms))
  ]

  pub drop_node-Inserted :
      (h : ℕ) (ns : List (Node P)) {n : Node P}
      → find_node h ns ≡ some n
      → Inserted n (drop_node h ns) ns
  drop_node-Inserted h [] e = absurd (cc)
  drop_node-Inserted h (m ∷ ms) {n} e = elim (Bool-cases (eqb m.handle h)) [
    | inl hit ↦ let same : m ≡ n = some-injective m n (rw hit at e) in rw (hit, same) here
    | inr miss ↦ rw miss (there (drop_node-Inserted h ms (rw miss at e)))
  ]

  -- What the index says of a node.
  abbrev pub entry : Node P → Entry P
  entry n = (n.order.order_id, record { side = n.order.side; price = n.order.price; it = n.handle })

  abbrev pub entries : List (Node P) → List (Entry P)
  entries = map entry

  abbrev pub count_id : ℕ → List (Entry P) → ℕ
  count_id i [] = 0
  count_id i (e ∷ es) = (if eqb e.0 i then 1 else 0) + count_id i es

  abbrev pub count_handle : ℕ → List (Entry P) → ℕ
  count_handle h [] = 0
  count_handle h (e ∷ es) = (if eqb e.1.it h then 1 else 0) + count_handle h es

  pub count_id-Inserted :
      (i : ℕ) {e : Entry P} {es fs : List (Entry P)}
      → Inserted e es fs
      → count_id i fs ≡ (if eqb e.0 i then 1 else 0) + count_id i es
  count_id-Inserted i here = refl
  count_id-Inserted i (there p) = omega (arith, count_id-Inserted i p)

  pub count_handle-Inserted :
      (h : ℕ) {e : Entry P} {es fs : List (Entry P)}
      → Inserted e es fs
      → count_handle h fs ≡ (if eqb e.1.it h then 1 else 0) + count_handle h es
  count_handle-Inserted h here = refl
  count_handle-Inserted h (there p) = omega (arith, count_handle-Inserted h p)

  pub lookup_absent : (i : ℕ) (es : List (Entry P)) → count_id i es ≡ 0 → lookup i es ≡ none
  unfolding lookup
  lookup_absent i [] h = refl
  lookup_absent i (e ∷ es) h = ground (arith, lookup_absent i es)

  pub lookup-Inserted :
      (i : ℕ) {e : Entry P} {es fs : List (Entry P)}
      → Inserted e es fs
      → count_id e.0 es ≡ 0
      → lookup i fs ≡ (if eqb e.0 i then some e.1 else lookup i es)
  unfolding lookup
  lookup-Inserted i here h = refl
  lookup-Inserted i (there {y = y} p) h = ground (arith, lookup-Inserted i p)

  lookup-erased :
      (i : ℕ) {e : Entry P} {es fs : List (Entry P)}
      → Inserted e es fs
      → count_id e.0 es ≡ 0
      → lookup i es ≡ (if eqb e.0 i then none else lookup i fs)
  lookup-erased i {e} {es} p h =
      ground (arith, lookup-Inserted i p h, lookup_absent i es, eqb_iff e.0 i)

  -- `m` indexes the nodes with the entries `es`; ids and handles are distinct, handles below `next`.
  pub record Coherent (m : Dict ℕ (OrderLocation P)) (next : ℕ) (es : List (Entry P)) : Type 0 where
    pub ids : (i : ℕ) → count_id i es ≤ 1
    pub handles : (h : ℕ) → count_handle h es ≤ 1
    pub fresh : (h : ℕ) → next ≤ h → count_handle h es ≡ 0
    pub index : (i : ℕ) → lookup i m ≡ lookup i es

  module _ {m : Dict ℕ (OrderLocation P)} {next : ℕ} {es fs : List (Entry P)} where
    pub Coherent-insert :
        (e : Entry P)
        → Inserted e es fs
        → count_id e.0 es ≡ 0
        → e.1.it ≡ next
        → Coherent m next es
        → Coherent (insert e.0 e.1 m) (suc next) fs
    Coherent-insert e p new at_next c = record {
      ids = λ i. ground (arith, count_id-Inserted i p, c.ids i, eqb_iff e.0 i);
      handles = λ h. ground (arith, count_handle-Inserted h p, c.handles h, c.fresh next);
      fresh = λ h k. ground (arith, count_handle-Inserted h p, c.fresh h);
      index = λ i.
          lookup-insert e.0 i e.1 m
          ∙ ap (λ o. if eqb e.0 i then some e.1 else o) (c.index i)
          ∙ sym (lookup-Inserted i p new);
    }

    pub Coherent-erase :
        (e : Entry P) → Inserted e es fs → Coherent m next fs → Coherent (erase e.0 m) next es
    Coherent-erase e p c = record {
      ids = λ i. ground (arith, count_id-Inserted i p, c.ids i);
      handles = λ h. ground (arith, count_handle-Inserted h p, c.handles h);
      fresh = λ h k. ground (arith, count_handle-Inserted h p, c.fresh h);
      index = λ i.
          lookup-erase e.0 i m
          ∙ ap (λ o. if eqb e.0 i then none else o) (c.index i)
          ∙ sym (lookup-erased i p (ground (arith, count_id-Inserted e.0 p, c.ids e.0)));
    }
