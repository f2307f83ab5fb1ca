-- ===== src/Server/Outcomes.antt =====
-- What `processLine` prints and pushes: the notices, and the fields of the command.
pub mod Bounds
use order_matching_engine.Base.{
  ℕ, zero, suc, ◌<◌, ◌≤◌, ◌^◌, ◌≡◌, refl, subst, ◌-◌, ◌%◌, Bool, true, false, ◌&&◌, ◌||◌, Option,
  none, some, List, [], ◌∷◌, arith, eqb, if◌then◌else◌, Bool-cases, Option-cases, inl, inr, Text,
  text_beq, All, length, take, ltb,
}
use order_matching_engine.Base.Int.{ℤ, pos, ◌-ℤ◌, fits, int_limit}
use order_matching_engine.Order.{Side, new, cancel, modify, stats, book, Command}
use order_matching_engine.Server.Stream.{
  skip_spaces, read_sign, read_digits, c_string, read_word, read_int, read_u64, copy_symbol,
}
use order_matching_engine.Server.Parser.{
  Notice, malformed_order, malformed_cancel, malformed_modify, malformed_book, unknown_command,
  pushing_new, pushing_modify, pushing_cancel, pushing_book, pushing_stats, Parsed, Clocks,
  process_line, process_command, process_new, process_cancel, process_modify, process_book,
  read_order, read_change, command_word, buy_word, sell_word, cancel_word, modify_word, book_word,
  stats_word,
}
use order_matching_engine.Server.Outcomes.Bounds.{
  copy_symbol-length, copy_symbol-NonNul, IntFits, read_int-IntFits, IdFits, read_u64-IdFits,
}

-- A notice that refuses the line.
abbrev pub Refuses : Text → Notice → Type 0
Refuses line (malformed_order l) = l ≡ line
Refuses line (malformed_cancel l) = l ≡ line
Refuses line (malformed_modify l) = l ≡ line
Refuses line (malformed_book l) = l ≡ line
Refuses line (unknown_command l) = l ≡ line
Refuses line _ = ⊥

-- A notice that announces the command.
abbrev pub Announces : {P : Type 0} → Command P → Notice → Type 0
Announces cmd (pushing_new id symbol) =
    (cmd.type ≡ new) × (cmd.order_id ≡ id) × (cmd.symbol ≡ copy_symbol symbol)
Announces cmd (pushing_modify id symbol) =
    (cmd.type ≡ modify) × (cmd.order_id ≡ id) × (cmd.symbol ≡ copy_symbol symbol)
Announces cmd (pushing_cancel id) = (cmd.type ≡ cancel) × (cmd.order_id ≡ id)
Announces cmd (pushing_book symbol) = (cmd.type ≡ book) × (cmd.symbol ≡ copy_symbol symbol)
Announces cmd pushing_stats = cmd.type ≡ stats
Announces cmd _ = ⊥

abbrev OneNotice : (Notice → Type 0) → List Notice → Type 0
OneNotice Q [] = ⊥
OneNotice Q (n ∷ []) = Q n
OneNotice Q (n ∷ m ∷ ns) = ⊥

-- The command fits the fields of `struct Command`: `char symbol[16]` with its NUL, `uint64_t`, `int`.
pub record FitsFields {P : Type 0} (cmd : Command P) : Type 0 where
  pub symbol_length : length cmd.symbol ≤ 15
  pub symbol_text : All (λ c. eqb c 0 ≡ false) cmd.symbol
  pub order_id : cmd.order_id < 2 ^ 64
  pub quantity : fits int_limit cmd.quantity ≡ true

-- A line gets one notice. Either it refuses the line and nothing is pushed, or it announces the command.
abbrev pub Reported : {P : Type 0} → Text → Parsed P → Type 0
Reported line r = elim r.command [
  | none ↦ OneNotice (Refuses line) r.notices
  | some cmd ↦ OneNotice (Announces cmd) r.notices × FitsFields cmd
]

module _ {P : Type 0} (zero_price : P) (read_price : Text → Option (P × Text)) where
  abbrev OrderFits : Option (Text × ℤ × P) → Type 0
  OrderFits none = Unit
  OrderFits (some (symbol, quantity, price)) = fits int_limit quantity ≡ true

  read_order-OrderFits : (s : Text) → OrderFits (read_order zero_price read_price s)
  read_order-OrderFits s = elim (Option-cases (read_word s)) [
    | inl e ↦ rw (e, read_order) tt
    | inr ((symbol, s1), e) ↦ elim (Option-cases (read_int s1)) [
      | inl f ↦ rw (e, read_order, f) tt
      | inr ((quantity, s2), f) ↦
          let q : fits int_limit quantity ≡ true = subst IntFits f (read_int-IntFits s1) in
          elim (Option-cases (read_price s2)) [
            | inl g ↦ rw (e, read_order, f, g) tt
            | inr ((price, s3), g) ↦ rw (e, read_order, f, g) q
          ]
    ]
  ]

  abbrev ChangeFits : Option (ℕ × Text × ℤ × P) → Type 0
  ChangeFits none = Unit
  ChangeFits (some (id, symbol, quantity, price)) = (id < 2 ^ 64) × (fits int_limit quantity ≡ true)

  read_change-ChangeFits : (s : Text) → ChangeFits (read_change zero_price read_price s)
  read_change-ChangeFits s = elim (Option-cases (read_u64 s)) [
    | inl e ↦ rw (e, read_change) tt
    | inr ((id, s1), e) ↦
        let i : id < 2 ^ 64 = subst IdFits e (read_u64-IdFits s) in
        elim (Option-cases (read_order zero_price read_price s1)) [
          | inl f ↦ rw (e, read_change, f) tt
          | inr ((symbol, quantity, price), f) ↦
              let q : fits int_limit quantity ≡ true =
                subst OrderFits f (read_order-OrderFits s1) in
              rw (e, read_change, f) (i, q)
        ]
  ]

  process_new-Reported :
      (line : Text) (side : Side) (clocks : Clocks) (next : ℕ) (o : Option (Text × ℤ × P))
      → next < 2 ^ 64
      → OrderFits o
      → Reported line (process_new zero_price read_price line side clocks next o)
  process_new-Reported line side clocks next none h f = refl
  process_new-Reported line side clocks next (some (symbol, quantity, price)) h f = (
    (refl, refl, refl),
    record {
      symbol_length = copy_symbol-length symbol;
      symbol_text = copy_symbol-NonNul symbol;
      order_id = h;
      quantity = f;
    },
  )

  process_cancel-Reported :
      (line : Text) (clocks : Clocks) (next : ℕ) (o : Option (ℕ × Text))
      → IdFits o
      → Reported line (process_cancel zero_price read_price line clocks next o)
  process_cancel-Reported line clocks next none f = refl
  process_cancel-Reported line clocks next (some (id, s)) f = (
    (refl, refl),
    record { symbol_length = omega arith; symbol_text = tt; order_id = f; quantity = refl },
  )

  process_modify-Reported :
      (line : Text) (clocks : Clocks) (next : ℕ) (o : Option (ℕ × Text × ℤ × P))
      → ChangeFits o
      → Reported line (process_modify zero_price read_price line clocks next o)
  process_modify-Reported line clocks next none f = refl
  process_modify-Reported line clocks next (some (id, symbol, quantity, price)) f = (
    (refl, refl, refl),
    record {
      symbol_length = copy_symbol-length symbol;
      symbol_text = copy_symbol-NonNul symbol;
      order_id = f.0;
      quantity = f.1;
    },
  )

  process_book-Reported :
      (line : Text) (clocks : Clocks) (next : ℕ) (o : Option (Text × Text))
      → Reported line (process_book zero_price read_price line clocks next o)
  process_book-Reported line clocks next none = refl
  process_book-Reported line clocks next (some (symbol, s)) = (
    (refl, refl),
    record {
      symbol_length = copy_symbol-length symbol;
      symbol_text = copy_symbol-NonNul symbol;
      order_id = omega arith;
      quantity = refl;
    },
  )

  process_command-Reported :
      (line : Text) (clocks : Clocks) (next : ℕ) (w s : Text)
      → next < 2 ^ 64
      → Reported line (process_command zero_price read_price line clocks next w s)
  process_command-Reported line clocks next w s h =
      elim (Bool-cases (text_beq w buy_word || text_beq w sell_word)) [
        | inl e ↦ rw e (
            process_new-Reported line _ clocks next (read_order zero_price read_price s) h
              (read_order-OrderFits s))
        | inr e ↦ rw e (elim (Bool-cases (text_beq w cancel_word)) [
          | inl e ↦ rw e (process_cancel-Reported line clocks next (read_u64 s) (read_u64-IdFits s))
          | inr e ↦ rw e (elim (Bool-cases (text_beq w modify_word)) [
            | inl e ↦ rw e (
                process_modify-Reported line clocks next (read_change zero_price read_price s)
                  (read_change-ChangeFits s))
            | inr e ↦ rw e (elim (Bool-cases (text_beq w book_word)) [
              | inl e ↦ rw e (process_book-Reported line clocks next (read_word s))
              | inr e ↦ rw e (elim (Bool-cases (text_beq w stats_word)) [
                | inl e ↦ rw e (
                  refl,
                  record {
                    symbol_length = omega arith;
                    symbol_text = tt;
                    order_id = omega arith;
                    quantity = refl;
                  },
                )
                | inr e ↦ rw e refl
              ])
            ])
          ])
        ])
      ]

  -- Every line that is not empty gets exactly one notice, where the counter is a `uint64_t`. Either the
  -- notice refuses the line, with its whole text, and nothing is pushed; or it announces the command
  -- that is pushed, whose symbol has at most 15 characters and no NUL, whose id is a `uint64_t` and whose
  -- quantity is an `int`.
  pub process_line-Reported :
      (c : ℕ) (rest : Text) (next : ℕ) (clocks : Clocks)
      → next < 2 ^ 64
      → Reported (c ∷ rest) (process_line zero_price read_price (c ∷ rest) next clocks)
  unfolding process_line
  process_line-Reported c rest next clocks h =
      let r = command_word zero_price read_price (read_word (c ∷ rest)) in
      process_command-Reported (c ∷ rest) clocks next r.0 r.1 h
