-- ===== src/Exchange/Quiet.antt =====
-- Between two commands no book is crossed.
use order_matching_engine.Base.{
  ℕ, ◌≡◌, refl, ◌∙◌, sym, subst, ◌≢◌, inl, inr, true, Option, none, some, List, Bool-cases,
  Option-cases, Text, text_beq, text_beq_iff, All, All-map, nat_key, text_key,
}
use mathlib.Core.Bool.{false≢true}
use order_matching_engine.Base.Exec.{Returns, Returns-map}
use order_matching_engine.Base.Int.{ℤ}
use order_matching_engine.Base.Dict.{lookup}
use order_matching_engine.Order.{Price, IsOrdered, Order}
use order_matching_engine.Report.{Report}
use order_matching_engine.OrderBook.{OrderBook, resting}
use order_matching_engine.OrderBook.Lots.{Lots}
use order_matching_engine.OrderBook.Spec
use order_matching_engine.OrderBook.Spec.{PriorityBook, view, drop_order}
use order_matching_engine.OrderBook.Uncrossed.{Uncrossed, Crossings-Uncrossed}
use order_matching_engine.Exchange.{Exchange, empty_exchange, book_or_empty, book_at, match_orders}
use order_matching_engine.Exchange.Routing.{IsValid, OthersKept, book_at-IsValid, CancelOk}
use order_matching_engine.Exchange.Changes.{ModifyOk, MatchOk, match_orders-MatchOk}
use order_matching_engine.OrderBook.Quantities.{All-drop_order}

module _ {P : Type 0} ⦃d : Price P⦄ where
  -- No bid reaches an ask, in any book.
  abbrev pub IsQuiet : Exchange P → Type 0
  IsQuiet ex = (s : Text) → Uncrossed (view (book_at s ex.books))

  -- The same for the other symbols.
  abbrev pub QuietBut : Text → Exchange P → Type 0
  QuietBut symbol ex = (s : Text) → s ≢ symbol → Uncrossed (view (book_at s ex.books))

  pub OthersKept-QuietBut :
      (symbol : Text) (ex ex' : Exchange P)
      → OthersKept symbol ex ex'
      → QuietBut symbol ex
      → QuietBut symbol ex'
  OthersKept-QuietBut symbol ex ex' kept h s ne =
      subst (λ o. Uncrossed (view (book_or_empty o))) (sym (kept s ne)) (h s ne)

  QuietBut-IsQuiet :
      (symbol : Text) (ex : Exchange P)
      → QuietBut symbol ex
      → Uncrossed (view (book_at symbol ex.books))
      → IsQuiet ex
  QuietBut-IsQuiet symbol ex but at s = elim (Bool-cases (text_beq s symbol)) [
    | inl same ↦
        subst (λ t. Uncrossed (view (book_at t ex.books))) (sym ((text_beq_iff s symbol).0 same)) at
    | inr other ↦ but s (λ e. false≢true (sym other ∙ (text_beq_iff s symbol).1 e))
  ]

  Uncrossed-cancel : (id : ℕ) (s : PriorityBook P) → Uncrossed s → Uncrossed (Spec.cancel id s).1
  Uncrossed-cancel id s h = elim (Option-cases (Spec.find id s)) [
    | inl e ↦ rw e h
    | inr (o, e) ↦ rw e (
        All-map (λ (b : Order P). All (λ (a : Order P). d.lt b.price a.price ≡ true) s.asks) _
          (drop_order id s.bids)
          (λ b k. All-drop_order (λ (a : Order P). d.lt b.price a.price ≡ true) id s.asks k)
          (All-drop_order
            (λ (b : Order P). All (λ (a : Order P). d.lt b.price a.price ≡ true) s.asks) id s.bids
            h))
  ]

  module _ (laws : IsOrdered P) where
    MatchOk-IsQuiet :
        (symbol : Text) (ex : Exchange P)
        → QuietBut symbol ex
        → (o : Option (OrderBook P)) → lookup symbol ex.books ≡ o
        → (r : List (Report P) × Exchange P) → MatchOk laws symbol o ex r × IsValid r.1
        → IsQuiet r.1
    MatchOk-IsQuiet symbol ex but none e r m =
        subst (λ k. IsQuiet k.1) (sym m.0) (QuietBut-IsQuiet symbol ex but (rw e tt))
    MatchOk-IsQuiet symbol ex but (some b) e r m =
        QuietBut-IsQuiet symbol r.1 (OthersKept-QuietBut symbol ex r.1 m.0.2 but) (
          Crossings-Uncrossed laws (book_at symbol r.1.books) (book_at-IsValid symbol r.1 m.1)
            m.0.0)

    -- Matching one symbol quiets the exchange, when the others are.
    pub match_orders-IsQuiet :
        (symbol : Text) (ex : Exchange P)
        → IsValid ex
        → Lots (resting (book_at symbol ex.books))
        → QuietBut symbol ex
        → Returns (λ r. IsQuiet r.1) (match_orders symbol ex)
    match_orders-IsQuiet symbol ex v lots but =
        Returns-map _ _ (match_orders symbol ex) (match_orders-MatchOk laws symbol ex v lots)
          (MatchOk-IsQuiet symbol ex but (lookup symbol ex.books) refl)

    pub CancelOk-IsQuiet :
        (id : ℕ) (o : Option Text) (ex : Exchange P)
        → IsQuiet ex
        → (r : List (Report P) × Exchange P) → CancelOk laws id o ex r × IsValid r.1
        → IsQuiet r.1
    CancelOk-IsQuiet id none ex h r m = subst (λ k. IsQuiet k.1) (sym m.0) h
    CancelOk-IsQuiet id (some symbol) ex h r m =
        QuietBut-IsQuiet symbol r.1 (OthersKept-QuietBut symbol ex r.1 m.0.1 (λ s ne. h s)) (
          subst Uncrossed (λ i. (sym m.0.0 i).1)
            (Uncrossed-cancel id (view (book_at symbol ex.books)) (h symbol)))

    pub ModifyOk-QuietBut :
        (id : ℕ) (symbol : Text) (q : ℤ) (p : P) (timestamp : ℤ) (o : Option Text) (ex : Exchange P)
        → IsQuiet ex
        → (r : List (Report P) × Exchange P) → ModifyOk id symbol q p timestamp o ex r × IsValid r.1
        → QuietBut symbol r.1
    ModifyOk-QuietBut id symbol q p timestamp none ex h r m s ne =
        subst (λ k. Uncrossed (view (book_at s k.1.books))) (sym m.0) (h s)
    ModifyOk-QuietBut id symbol q p timestamp (some actual) ex h r (inr other, v) s ne =
        subst (λ k. Uncrossed (view (book_at s k.1.books))) (sym other.1) (h s)
    ModifyOk-QuietBut id symbol q p timestamp (some actual) ex h r (inl (same, changed), v) s ne =
        OthersKept-QuietBut symbol ex r.1 changed.1 (λ s ne. h s) s ne

pub empty_exchange-IsQuiet : (P : Type 0) ⦃d : Price P⦄ → IsQuiet {P = P} empty_exchange
unfolding lookup
empty_exchange-IsQuiet P s = tt
