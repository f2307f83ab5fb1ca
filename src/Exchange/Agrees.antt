-- ===== src/Exchange/Agrees.antt =====
-- The exchange against the market that it implements, one operation at a time.
use order_matching_engine.Base.{
  ℕ, zero, suc, ◌+◌, ◌<◌, ◌≤◌, ◌≡◌, refl, ap, ◌∙◌, sym, subst, ◌≢◌, inl, inr, true, Option, none,
  some, List, [], ◌∷◌, arith, Bool-cases, Text, text_beq, text_beq_iff, length, nat_key, text_key,
}
use mathlib.Core.Bool.{false≢true}
use order_matching_engine.Base.Int.{ℤ, ◌-ℤ◌, min_ℤ, is_zero}
use order_matching_engine.Base.Dict.{lookup}
use order_matching_engine.Order.{Price, Order}
use order_matching_engine.Report.{Report}
use order_matching_engine.OrderBook.Terminates.{one_used_up}
use order_matching_engine.OrderBook.Engine.{Crossings, settled, crossing}
use order_matching_engine.OrderBook.Spec
use order_matching_engine.OrderBook.Spec.{PriorityBook, view}
use order_matching_engine.Exchange.{Exchange, book_or_empty, book_at}
use order_matching_engine.Exchange.Routing.{OthersKept}
use order_matching_engine.Exchange.Market.{Market, with_book, cross_all}

module _ {P : Type 0} ⦃d : Price P⦄ where
  -- The same orders in the same priority for each symbol, and the same symbol for each id.
  pub record Agrees (ex : Exchange P) (m : Market P) : Type 0 where
    pub books : (s : Text) → view (book_at s ex.books) ≡ m.book_of s
    pub symbols : (id : ℕ) → lookup id ex.order_symbol_map ≡ m.symbol_of id

  -- A call of the exchange returns what the market says.
  abbrev pub Does : List (Report P) × Market P → List (Report P) × Exchange P → Type 0
  Does out r = (r.0 ≡ out.0) × Agrees r.1 out.1

  -- One book changes.
  pub books-with_book :
      (symbol : Text) (ex ex' : Exchange P) (m : Market P) (b : PriorityBook P)
      → OthersKept symbol ex ex'
      → Agrees ex m
      → view (book_at symbol ex'.books) ≡ b
      → (s : Text) → view (book_at s ex'.books) ≡ (with_book symbol b m).book_of s
  books-with_book symbol ex ex' m b kept h e s = elim (Bool-cases (text_beq s symbol)) [
    | inl same ↦
        rw same
          (subst (λ t. view (book_at t ex'.books) ≡ b) (sym ((text_beq_iff s symbol).0 same)) e)
    | inr other ↦
        let ne : s ≢ symbol = λ f. false≢true (sym other ∙ (text_beq_iff s symbol).1 f) in
        rw other (ap (λ o. view (book_or_empty o)) (kept s ne) ∙ h.books s)
  ]

  length-keep :
      (o : Order P) (left : ℤ) (os : List (Order P))
      → (length (Spec.keep o left os) ≤ suc (length os))
        × (is_zero left ≡ true → length (Spec.keep o left os) ≡ length os)
  length-keep o left os = elim (Bool-cases (is_zero left)) [
    | inl gone ↦ rw gone (omega arith, λ e. refl)
    | inr stays ↦ rw stays (omega arith, λ e. absurd (cc))
  ]

  abbrev Fewer : ℕ → Option (Report P × PriorityBook P) → Type 0
  Fewer n none = Unit
  Fewer n (some (r, t)) = length t.bids + length t.asks < n

  fronts-Fewer :
      (bids asks : List (Order P)) → Fewer (length bids + length asks) (Spec.cross_fronts bids asks)
  fronts-Fewer [] asks = tt
  fronts-Fewer (b ∷ bids) [] = tt
  fronts-Fewer (b ∷ bids) (a ∷ asks) = elim (Bool-cases (d.lt b.price a.price)) [
    | inl apart ↦ rw apart tt
    | inr crosses ↦
        let q = min_ℤ b.quantity a.quantity in
        let x = length-keep b (b.quantity -ℤ q) bids in
        let y = length-keep a (a.quantity -ℤ q) asks in
        rw crosses (elim (one_used_up b.quantity a.quantity) [
          | inl e ↦ omega (arith, x.1 e, y.0)
          | inr e ↦ omega (arith, x.0, y.1 e)
        ])
  ]

  -- The trades until the book no longer crosses, given enough room for them.
  pub Crossings-cross_all :
      (n : ℕ) {s t : PriorityBook P} {rs : List (Report P)}
      → Crossings s rs t
      → length s.bids + length s.asks < n
      → cross_all n s ≡ (rs, t)
  unfolding cross_all
  Crossings-cross_all zero c h = absurd (omega arith)
  Crossings-cross_all (suc n) (settled e) h = rw (e, cross_all) refl
  Crossings-cross_all (suc n) {s} (crossing {t = t} {r = r} e c) h =
      let less : length t.bids + length t.asks < length s.bids + length s.asks =
        subst (Fewer (length s.bids + length s.asks)) e (fronts-Fewer s.bids s.asks) in
      rw (e, cross_all, Crossings-cross_all n c (omega arith)) refl
