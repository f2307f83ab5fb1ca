-- ===== src/Server/Parser.antt =====
-- `processLine`: a line of input becomes at most one command for the queue. Reading a `double` and the
-- clocks are parameters. The command that is returned is the one that `push` is retried on.
use order_matching_engine.Base.{
  ℕ, Option, none, some, List, [], ◌∷◌, ◌||◌, if◌then◌else◌, Text, text_beq,
}
use order_matching_engine.Base.Int.{ℤ, pos, add_u64}
use order_matching_engine.Order.{
  Side, buy, sell, CommandType, new, cancel, modify, stats, book, Command,
}
use order_matching_engine.Server.Stream.{read_word, read_int, read_u64, copy_symbol}

abbrev pub buy_word : Text
buy_word = 66 ∷ 85 ∷ 89 ∷ []

abbrev pub sell_word : Text
sell_word = 83 ∷ 69 ∷ 76 ∷ 76 ∷ []

abbrev pub cancel_word : Text
cancel_word = 67 ∷ 65 ∷ 78 ∷ 67 ∷ 69 ∷ 76 ∷ []

abbrev pub modify_word : Text
modify_word = 77 ∷ 79 ∷ 68 ∷ 73 ∷ 70 ∷ 89 ∷ []

abbrev pub book_word : Text
book_word = 66 ∷ 79 ∷ 79 ∷ 75 ∷ []

abbrev pub stats_word : Text
stats_word = 83 ∷ 84 ∷ 65 ∷ 84 ∷ 83 ∷ []

-- What the network thread prints.
pub data Notice : Type 0 where
  malformed_order malformed_cancel malformed_modify malformed_book : (line : Text) → Notice
  unknown_command : (line : Text) → Notice
  pushing_new pushing_modify : (order_id : ℕ) (symbol : Text) → Notice
  pushing_cancel : (order_id : ℕ) → Notice
  pushing_book : (symbol : Text) → Notice
  pushing_stats : Notice

-- The clocks as one call reads them: `recvTimestamp`, `getCurrentTimestamp` and `now_ns` at the push.
pub record Clocks : Type 0 where
  pub recv_timestamp : ℤ
  pub timestamp : ℤ
  pub queue_push : ℤ

-- What is printed, the command to push, and `nextOrderId`.
pub record Parsed (P : Type 0) : Type 0 where
  pub notices : List Notice
  pub command : Option (Command P)
  pub next_order_id : ℕ

module _ {P : Type 0} (zero_price : P) (read_price : Text → Option (P × Text)) where
  -- `Command cmd{}`, and the stamps that every command gets.
  abbrev pub blank : CommandType → Clocks → Command P
  blank type clocks = record {
    type = type;
    order_id = 0;
    side = buy;
    price = zero_price;
    quantity = pos 0;
    timestamp = pos 0;
    symbol = [];
    ts_network_recv = clocks.recv_timestamp;
    ts_queue_push = clocks.queue_push;
    ts_queue_pop = pos 0;
    ts_process_start = pos 0;
    ts_match_complete = pos 0;
  }

  abbrev pub rejected : Notice → ℕ → Parsed P
  rejected notice next = record { notices = notice ∷ []; command = none; next_order_id = next }

  abbrev pub pushed : Notice → Command P → ℕ → Parsed P
  pushed notice cmd next = record {
    notices = notice ∷ [];
    command = some cmd;
    next_order_id = next;
  }

  -- `ss >> symbol >> quantity >> price`
  abbrev pub read_order : Text → Option (Text × ℤ × P)
  read_order s = elim (read_word s) [
    | none ↦ none
    | some (symbol, s1) ↦ elim (read_int s1) [
      | none ↦ none
      | some (quantity, s2) ↦ elim (read_price s2) [
        | none ↦ none
        | some (price, s3) ↦ some (symbol, quantity, price)
      ]
    ]
  ]

  -- `ss >> orderId >> symbol >> quantity >> price`
  abbrev pub read_change : Text → Option (ℕ × Text × ℤ × P)
  read_change s = elim (read_u64 s) [
    | none ↦ none
    | some (id, s1) ↦ elim (read_order s1) [
      | none ↦ none
      | some (symbol, quantity, price) ↦ some (id, symbol, quantity, price)
    ]
  ]

  abbrev pub process_new : Text → Side → Clocks → ℕ → Option (Text × ℤ × P) → Parsed P
  process_new line side clocks next none = rejected (malformed_order line) next
  process_new line side clocks next (some (symbol, quantity, price)) =
      pushed (pushing_new next symbol)
        (record (blank new clocks) {
          order_id = next;
          side = side;
          price = price;
          quantity = quantity;
          timestamp = clocks.timestamp;
          symbol = copy_symbol symbol;
        })
        (add_u64 next 1)

  abbrev pub process_cancel : Text → Clocks → ℕ → Option (ℕ × Text) → Parsed P
  process_cancel line clocks next none = rejected (malformed_cancel line) next
  process_cancel line clocks next (some (id, s)) =
      pushed (pushing_cancel id)
        (record (blank cancel clocks) { order_id = id; timestamp = clocks.timestamp }) next

  abbrev pub process_modify : Text → Clocks → ℕ → Option (ℕ × Text × ℤ × P) → Parsed P
  process_modify line clocks next none = rejected (malformed_modify line) next
  process_modify line clocks next (some (id, symbol, quantity, price)) =
      pushed (pushing_modify id symbol)
        (record (blank modify clocks) {
          order_id = id;
          price = price;
          quantity = quantity;
          timestamp = clocks.timestamp;
          symbol = copy_symbol symbol;
        })
        next

  abbrev pub process_book : Text → Clocks → ℕ → Option (Text × Text) → Parsed P
  process_book line clocks next none = rejected (malformed_book line) next
  process_book line clocks next (some (symbol, s)) =
      pushed (pushing_book symbol) (record (blank book clocks) { symbol = copy_symbol symbol }) next

  -- The command word, empty if there is none, and the rest of the line.
  abbrev pub command_word : Option (Text × Text) → Text × Text
  command_word none = ([], [])
  command_word (some r) = r

  abbrev pub process_command : Text → Clocks → ℕ → Text → Text → Parsed P
  process_command line clocks next cmd_str s =
      if text_beq cmd_str buy_word || text_beq cmd_str sell_word
      then process_new line (if text_beq cmd_str buy_word then buy else sell) clocks next
          (read_order s)
      else if text_beq cmd_str cancel_word
      then process_cancel line clocks next (read_u64 s)
      else if text_beq cmd_str modify_word
      then process_modify line clocks next (read_change s)
      else if text_beq cmd_str book_word
      then process_book line clocks next (read_word s)
      else if text_beq cmd_str stats_word
      then pushed pushing_stats (blank stats clocks) next
      else rejected (unknown_command line) next

  unfoldable pub process_line : Text → ℕ → Clocks → Parsed P
  process_line [] next clocks = record { notices = []; command = none; next_order_id = next }
  process_line (c ∷ line) next clocks =
      let r = command_word (read_word (c ∷ line)) in process_command (c ∷ line) clocks next r.0 r.1

  abbrev pub queued : Option (Command P) → List (Command P) → List (Command P)
  queued none cmds = cmds
  queued (some cmd) cmds = cmd ∷ cmds

  -- The commands of the lines of the clients, in the order that the network thread reads them.
  unfoldable pub process_lines : List (Text × Clocks) → ℕ → List (Command P)
  process_lines [] next = []
  process_lines ((line, clocks) ∷ lines) next =
      let r = process_line line next clocks in
      queued r.command (process_lines lines r.next_order_id)
