-- ===== src/Server/Ids.antt =====
-- The ids that the network thread gives to new orders.
use order_matching_engine.Base.{
  ℕ, suc, ◌+◌, ◌^◌, ◌≤◌, ◌<◌, ◌≡◌, refl, subst, inl, inr, Bool, true, false, ◌||◌, Option, none,
  some, List, [], ◌∷◌, arith, if◌then◌else◌, Bool-cases, text_beq, length, Text,
}
use order_matching_engine.Base.Int.{ℤ, add_u64}
use order_matching_engine.Order.{Side, CommandType, new, cancel, modify, stats, book, Command}
use order_matching_engine.Server.Stream.{read_word, read_u64}
use order_matching_engine.Server.Parser.{
  Clocks, process_line, process_lines, process_command, process_new, process_cancel, process_modify,
  process_book, read_order, read_change, command_word, buy_word, sell_word, cancel_word,
  modify_word, book_word, stats_word, queued,
}

abbrev pub is_new : CommandType → Bool
is_new new = true
is_new cancel = false
is_new modify = false
is_new stats = false
is_new book = false

module _ {P : Type 0} where
  -- A new order gets the next id and advances it; any other line leaves it.
  abbrev pub IdOk : ℕ → Option (Command P) → ℕ → Type 0
  IdOk next none next' = next' ≡ next
  IdOk next (some cmd) next' =
      if is_new cmd.type then (cmd.order_id ≡ next) × (next' ≡ add_u64 next 1) else next' ≡ next

  -- The ids of the new orders go up from `next`, so no two are equal.
  abbrev pub Ascending : ℕ → List (Command P) → Type 0
  Ascending next [] = Unit
  Ascending next (cmd ∷ cmds) =
      if is_new cmd.type
      then (next ≤ cmd.order_id) × Ascending (suc cmd.order_id) cmds
      else Ascending next cmds

module _ {P : Type 0} (zero_price : P) (read_price : Text → Option (P × Text)) where
  process_new-IdOk :
      (line : Text) (side : Side) (clocks : Clocks) (next : ℕ) (o : Option (Text × ℤ × P))
      → let r = process_new zero_price read_price line side clocks next o in
        IdOk next r.command r.next_order_id
  process_new-IdOk line side clocks next none = refl
  process_new-IdOk line side clocks next (some o) = (refl, refl)

  process_cancel-IdOk :
      (line : Text) (clocks : Clocks) (next : ℕ) (o : Option (ℕ × Text))
      → let r = process_cancel zero_price read_price line clocks next o in
        IdOk next r.command r.next_order_id
  process_cancel-IdOk line clocks next none = refl
  process_cancel-IdOk line clocks next (some o) = refl

  process_modify-IdOk :
      (line : Text) (clocks : Clocks) (next : ℕ) (o : Option (ℕ × Text × ℤ × P))
      → let r = process_modify zero_price read_price line clocks next o in
        IdOk next r.command r.next_order_id
  process_modify-IdOk line clocks next none = refl
  process_modify-IdOk line clocks next (some o) = refl

  process_book-IdOk :
      (line : Text) (clocks : Clocks) (next : ℕ) (o : Option (Text × Text))
      → let r = process_book zero_price read_price line clocks next o in
        IdOk next r.command r.next_order_id
  process_book-IdOk line clocks next none = refl
  process_book-IdOk line clocks next (some o) = refl

  process_command-IdOk :
      (line : Text) (clocks : Clocks) (next : ℕ) (cmd_str s : Text)
      → let r = process_command zero_price read_price line clocks next cmd_str s in
        IdOk next r.command r.next_order_id
  process_command-IdOk line clocks next w s =
      elim (Bool-cases (text_beq w buy_word || text_beq w sell_word)) [
        | inl e ↦ rw e (process_new-IdOk line _ clocks next (read_order zero_price read_price s))
        | inr e ↦ rw e (elim (Bool-cases (text_beq w cancel_word)) [
          | inl e ↦ rw e (process_cancel-IdOk line clocks next (read_u64 s))
          | inr e ↦ rw e (elim (Bool-cases (text_beq w modify_word)) [
            | inl e ↦
                rw e (process_modify-IdOk line clocks next (read_change zero_price read_price s))
            | inr e ↦ rw e (elim (Bool-cases (text_beq w book_word)) [
              | inl e ↦ rw e (process_book-IdOk line clocks next (read_word s))
              | inr e ↦ rw e (elim (Bool-cases (text_beq w stats_word)) [
                | inl e ↦ rw e refl
                | inr e ↦ rw e refl
              ])
            ])
          ])
        ])
      ]

  -- `processLine` gives `nextOrderId` to a new order and advances it by one (as a `uint64_t`); a line
  -- that is rejected, or becomes another command, leaves `nextOrderId` as it is.
  pub process_line-IdOk :
      (line : Text) (next : ℕ) (clocks : Clocks)
      → let r = process_line zero_price read_price line next clocks in
        IdOk next r.command r.next_order_id
  unfolding process_line
  process_line-IdOk [] next clocks = refl
  process_line-IdOk (c ∷ line) next clocks =
      let r = command_word zero_price read_price (read_word (c ∷ line)) in
      process_command-IdOk (c ∷ line) clocks next r.0 r.1

  IdOk-bound :
      (next : ℕ) (o : Option (Command P)) (next' : ℕ)
      → IdOk next o next'
      → suc next < 2 ^ 64
      → next' ≤ suc next
  IdOk-bound next none next' h b = omega arith
  IdOk-bound next (some cmd) next' h b = elim (Bool-cases (is_new cmd.type)) [
    | inl e ↦
        (let k : (cmd.order_id ≡ next) × (next' ≡ add_u64 next 1) = rw e at h in omega (arith, k.1))
    | inr e ↦ (let k : next' ≡ next = rw e at h in omega (arith, k))
  ]

  queued-Ascending :
      (next : ℕ) (o : Option (Command P)) (next' : ℕ) (cmds : List (Command P))
      → IdOk next o next'
      → suc next < 2 ^ 64
      → Ascending next' cmds
      → Ascending next (queued zero_price read_price o cmds)
  queued-Ascending next none next' cmds h b a = subst (λ k. Ascending k cmds) h a
  queued-Ascending next (some cmd) next' cmds h b a = elim (Bool-cases (is_new cmd.type)) [
    | inl e ↦
        (let k : (cmd.order_id ≡ next) × (next' ≡ add_u64 next 1) = rw e at h in
          let after : next' ≡ suc cmd.order_id = omega (arith, k.0, k.1) in
          rw e (omega (arith, k.0), subst (λ n. Ascending n cmds) after a))
    | inr e ↦ (let k : next' ≡ next = rw e at h in rw e (subst (λ n. Ascending n cmds) k a))
  ]

  -- Over any lines of input, as long as the `uint64_t` counter does not wrap, the ids of the new orders
  -- that are queued go up strictly from the first `nextOrderId`: no two new orders share an id.
  pub process_lines-Ascending :
      (lines : List (Text × Clocks)) (next : ℕ)
      → next + length lines < 2 ^ 64
      → Ascending next (process_lines zero_price read_price lines next)
  unfolding process_lines
  process_lines-Ascending [] next b = tt
  process_lines-Ascending ((line, clocks) ∷ lines) next b =
      let r = process_line zero_price read_price line next clocks in
      let ok_id = process_line-IdOk line next clocks in
      let grows = IdOk-bound next r.command r.next_order_id ok_id (omega arith) in
      queued-Ascending next r.command r.next_order_id _ ok_id (omega arith)
        (process_lines-Ascending lines r.next_order_id (omega arith))
