-- ===== src/Server/Requests.antt =====
-- The formats that the comment above `processLine` lists: requests, and how they are written.
use order_matching_engine.Base.{
  ℕ, ◌<◌, ◌^◌, ◌≡◌, refl, false, Option, some, [], ◌∷◌, ◌++◌, Text, All,
}
use order_matching_engine.Base.Int.{ℤ, pos, int_limit, add_u64}
use order_matching_engine.Order.{Side, buy, sell, new, cancel, modify, stats, book}
use order_matching_engine.Server.Stream.{is_space, split_word, read_word, read_u64, copy_symbol}
use order_matching_engine.Server.Decimal.{decimal, read_u64-decimal, read_int-decimal}
use order_matching_engine.Server.Parser.{
  Clocks, Parsed, blank, pushed, pushing_new, pushing_cancel, pushing_modify, pushing_book,
  pushing_stats, process_line, read_order, read_change, buy_word, sell_word, cancel_word,
  modify_word, book_word, stats_word,
}

pub data Request (P : Type 0) : Type 0 where
  place : (side : Side) (symbol : Text) (quantity : ℕ) (price : P) → Request P
  withdraw : (order_id : ℕ) → Request P
  change : (order_id : ℕ) (symbol : Text) (quantity : ℕ) (price : P) → Request P
  show : (symbol : Text) → Request P
  report : Request P

abbrev pub side_word : Side → Text
side_word buy = buy_word
side_word sell = sell_word

-- A word: not empty, and no white space in it.
abbrev pub IsWord : Text → Type 0
IsWord [] = ⊥
IsWord (c ∷ w) = (is_space c ≡ false) × All (λ d. is_space d ≡ false) w

-- What `>>` needs of a request: a symbol is a word, numbers fit their types.
abbrev pub IsWritable : {P : Type 0} → Request P → Type 0
IsWritable (place side symbol quantity price) = IsWord symbol × (quantity < int_limit)
IsWritable (withdraw id) = id < 2 ^ 64
IsWritable (change id symbol quantity price) =
    (id < 2 ^ 64) × IsWord symbol × (quantity < int_limit)
IsWritable (show symbol) = IsWord symbol
IsWritable report = Unit

split_word-end : (w : Text) → All (λ c. is_space c ≡ false) w → split_word w ≡ (w, [])
split_word-end [] h = refl
split_word-end (c ∷ w) h = rw (h.0, split_word-end w h.1) refl

split_word-space :
    (w rest : Text) → All (λ c. is_space c ≡ false) w → split_word (w ++ 32 ∷ rest) ≡ (w, 32 ∷ rest)
split_word-space [] rest h = refl
split_word-space (c ∷ w) rest h = rw (h.0, split_word-space w rest h.1) refl

read_word-end : (w : Text) → IsWord w → read_word (32 ∷ w) ≡ some (w, [])
unfolding read_word
read_word-end [] h = absurd h
read_word-end (c ∷ w) h = rw (h.0, h.0, split_word-end w h.1) refl

read_word-space : (w rest : Text) → IsWord w → read_word (32 ∷ w ++ 32 ∷ rest) ≡ some (w, 32 ∷ rest)
unfolding read_word
read_word-space [] rest h = absurd h
read_word-space (c ∷ w) rest h = rw (h.0, h.0, split_word-space w rest h.1) refl

module _ {P : Type 0} (zero_price : P) (read_price : Text → Option (P × Text))
    (write_price : P → Text) where
  abbrev pub order_fields : Text → ℕ → P → Text
  order_fields symbol quantity price = 32 ∷ symbol ++ 32 ∷ decimal quantity (32 ∷ write_price price)

  -- A request as a line.
  abbrev pub write : Request P → Text
  write (place side symbol quantity price) = side_word side ++ order_fields symbol quantity price
  write (withdraw id) = cancel_word ++ 32 ∷ decimal id []
  write (change id symbol quantity price) =
      modify_word ++ 32 ∷ decimal id (order_fields symbol quantity price)
  write (show symbol) = book_word ++ 32 ∷ symbol
  write report = stats_word

  -- What the network thread should do with it.
  abbrev pub meaning : Request P → ℕ → Clocks → Parsed P
  meaning (place side symbol quantity price) next clocks =
      pushed zero_price read_price (pushing_new next symbol)
        (record (blank zero_price read_price new clocks) {
          order_id = next;
          side = side;
          price = price;
          quantity = pos quantity;
          timestamp = clocks.timestamp;
          symbol = copy_symbol symbol;
        })
        (add_u64 next 1)
  meaning (withdraw id) next clocks =
      pushed zero_price read_price (pushing_cancel id)
        (record (blank zero_price read_price cancel clocks) {
          order_id = id;
          timestamp = clocks.timestamp;
        })
        next
  meaning (change id symbol quantity price) next clocks =
      pushed zero_price read_price (pushing_modify id symbol)
        (record (blank zero_price read_price modify clocks) {
          order_id = id;
          price = price;
          quantity = pos quantity;
          timestamp = clocks.timestamp;
          symbol = copy_symbol symbol;
        })
        next
  meaning (show symbol) next clocks =
      pushed zero_price read_price (pushing_book symbol)
        (record (blank zero_price read_price book clocks) { symbol = copy_symbol symbol }) next
  meaning report next clocks =
      pushed zero_price read_price pushing_stats (blank zero_price read_price stats clocks) next

  -- `>> price` reads back a price that was written after a blank.
  abbrev pub ReadsPrices : Type 0
  ReadsPrices = (p : P) → read_price (32 ∷ write_price p) ≡ some (p, [])

  read_order-fields :
      (symbol : Text) (quantity : ℕ) (price : P)
      → ReadsPrices
      → IsWord symbol
      → quantity < int_limit
      → read_order zero_price read_price (order_fields symbol quantity price)
        ≡ some (symbol, pos quantity, price)
  unfolding read_word
  read_order-fields symbol quantity price prices w q =
      rw
        (
          read_word-space symbol (decimal quantity (32 ∷ write_price price)) w,
          read_int-decimal quantity (32 ∷ write_price price) q refl,
          prices price,
        )
        refl

  read_change-read_order :
      (s rest symbol : Text) (id : ℕ) (quantity : ℤ) (price : P)
      → read_u64 s ≡ some (id, rest)
      → read_order zero_price read_price rest ≡ some (symbol, quantity, price)
      → read_change zero_price read_price s ≡ some (id, symbol, quantity, price)
  read_change-read_order s rest symbol id quantity price e f = rw (e, read_change, f) refl

  -- Round trip: where prices can be read back, a request whose symbol is a word and whose numbers fit
  -- their types, written in its format as a line, is what `processLine` pushes: the order with the next
  -- id, the cancel or the change with its own id, the display or the report.
  pub process_line-write :
      (r : Request P) (next : ℕ) (clocks : Clocks)
      → ReadsPrices
      → IsWritable r
      → process_line zero_price read_price (write r) next clocks ≡ meaning r next clocks
  unfolding process_line read_word
  process_line-write (place buy symbol quantity price) next clocks prices h =
      rw (read_order-fields symbol quantity price prices h.0 h.1) refl
  process_line-write (place sell symbol quantity price) next clocks prices h =
      rw (read_order-fields symbol quantity price prices h.0 h.1) refl
  process_line-write (withdraw id) next clocks prices h = rw (read_u64-decimal id [] h tt) refl
  process_line-write (change id symbol quantity price) next clocks prices h =
      let fields = order_fields symbol quantity price in
      rw
        (read_change-read_order (32 ∷ decimal id fields) fields symbol id (pos quantity) price
          (read_u64-decimal id fields h.0 refl)
          (read_order-fields symbol quantity price prices h.1 h.2))
        refl
  process_line-write (show symbol) next clocks prices h = rw (read_word-end symbol h) refl
  process_line-write report next clocks prices h = refl
