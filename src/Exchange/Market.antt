-- ===== src/Exchange/Market.antt =====
-- What the exchange promises, without books by symbol as dictionaries, levels or indices: for each symbol
-- two lists of orders in priority, and for each id the symbol that it was registered under.
use order_matching_engine.Base.{
  ℕ, zero, suc, ◌+◌, Option, none, some, List, [], ◌∷◌, ◌++◌, eqb, if◌then◌else◌, Text, text_beq,
  length, ◌≡◌, ap, ◌∙◌, sym, append_assoc, append-nil,
}
use order_matching_engine.Base.Int.{ℤ}
use order_matching_engine.Order.{Price, Order, new, cancel, modify, stats, book, Command}
use order_matching_engine.Report.{Report, cancel_unknown, modify_unknown, modify_wrong_symbol}
use order_matching_engine.OrderBook.Spec
use order_matching_engine.OrderBook.Spec.{PriorityBook}

pub record Market (P : Type 0) : Type 0 where
  pub book_of : Text → PriorityBook P
  pub symbol_of : ℕ → Option Text

module _ {P : Type 0} where
  abbrev pub empty_market : Market P
  empty_market = record {
    book_of = λ symbol. record { bids = []; asks = [] };
    symbol_of = λ id. none;
  }

  abbrev pub with_book : Text → PriorityBook P → Market P → Market P
  with_book symbol b m = record m { book_of = λ s. if text_beq s symbol then b else m.book_of s }

  abbrev pub with_symbol : ℕ → Option Text → Market P → Market P
  with_symbol id o m = record m { symbol_of = λ i. if eqb id i then o else m.symbol_of i }

module _ {P : Type 0} ⦃d : Price P⦄ where
  -- The best orders trade until they no longer cross, at most so many times.
  unfoldable pub cross_all : ℕ → PriorityBook P → List (Report P) × PriorityBook P
  cross_all zero s = ([], s)
  cross_all (suc n) s = elim (Spec.cross s) [
    | none ↦ ([], s)
    | some (r, t) ↦ let rest = cross_all n t in (r ∷ rest.0, rest.1)
  ]

  -- Each trade uses up an order, so as many trades as there are orders are enough.
  abbrev pub settle : Text → Market P → List (Report P) × Market P
  settle symbol m =
      let s = m.book_of symbol in
      let r = cross_all (suc (length s.bids + length s.asks)) s in (r.0, with_book symbol r.1 m)

  abbrev pub place_new : Text → Order P → Market P → List (Report P) × Market P
  place_new symbol o m = (
    Spec.added_report o ∷ [],
    with_symbol o.order_id (some symbol) (with_book symbol (Spec.add o (m.book_of symbol)) m),
  )

  abbrev pub cancel_known : ℕ → Option Text → Market P → List (Report P) × Market P
  cancel_known id none m = (cancel_unknown id ∷ [], m)
  cancel_known id (some symbol) m =
      let r = Spec.cancel id (m.book_of symbol) in
      (r.0, with_symbol id none (with_book symbol r.1 m))

  abbrev pub modify_known :
      ℕ → Text → ℤ → P → ℤ → Option Text → Market P → List (Report P) × Market P
  modify_known id symbol q p timestamp none m = (modify_unknown id ∷ [], m)
  modify_known id symbol q p timestamp (some actual) m =
      if text_beq actual symbol
      then (let r = Spec.modify id q p timestamp (m.book_of symbol) in
          (r.0, with_book symbol r.1 m))
      else (modify_wrong_symbol id actual symbol ∷ [], m)

  -- An operation, and then the trades of the symbol.
  abbrev pub then_settle : Text → List (Report P) × Market P → List (Report P) × Market P
  then_settle symbol a = let r = settle symbol a.1 in (a.0 ++ r.0, r.1)

  abbrev pub order_in : Command P → Order P
  order_in cmd = record {
    order_id = cmd.order_id;
    side = cmd.side;
    price = cmd.price;
    quantity = cmd.quantity;
    timestamp = cmd.timestamp;
  }

  -- What a command does.
  abbrev pub carry_out : Command P → Market P → List (Report P) × Market P
  carry_out cmd m = elim cmd.type [
    | new ↦ then_settle cmd.symbol (place_new cmd.symbol (order_in cmd) m)
    | cancel ↦ cancel_known cmd.order_id (m.symbol_of cmd.order_id) m
    | modify ↦ then_settle cmd.symbol (
        modify_known cmd.order_id cmd.symbol cmd.quantity cmd.price cmd.timestamp
          (m.symbol_of cmd.order_id) m)
    | stats ↦ ([], m)
    | book ↦ ([], m)
  ]

  -- What a list of commands does.
  abbrev pub carry_out_all : List (Command P) → Market P → List (Report P) × Market P
  carry_out_all [] m = ([], m)
  carry_out_all (cmd ∷ cmds) m =
      let r = carry_out cmd m in let rs = carry_out_all cmds r.1 in (r.0 ++ rs.0, rs.1)

  -- One more command at the end.
  pub carry_out_all-snoc :
      (cmds : List (Command P)) (cmd : Command P) (m : Market P)
      → let r = carry_out_all cmds m in
        let s = carry_out cmd r.1 in carry_out_all (cmds ++ cmd ∷ []) m ≡ (r.0 ++ s.0, s.1)
  carry_out_all-snoc [] cmd m = ap (λ l. (l, (carry_out cmd m).1)) (append-nil (carry_out cmd m).0)
  carry_out_all-snoc (c ∷ cmds) cmd m =
      let first = carry_out c m in
      let r = carry_out_all cmds first.1 in
      let s = carry_out cmd r.1 in
      ap (λ (t : List (Report P) × Market P). (first.0 ++ t.0, t.1))
        (carry_out_all-snoc cmds cmd first.1)
      ∙ ap (λ l. (l, s.1)) (sym (append_assoc first.0 r.0 s.0))
