-- ===== src/Server/Framing.antt =====
-- The network thread's buffers: complete lines are taken off the front of a client's buffer, and a
-- carriage return before the newline is dropped.
pub mod Frames
use order_matching_engine.Base.{
  ℕ, zero, suc, Option, none, some, List, [], ◌∷◌, eqb, length, if◌then◌else◌, Text,
}
use order_matching_engine.Base.Exec.{Exec, ok, out_of_fuel, ◌>>=◌}

abbrev pub newline : ℕ
newline = 10

abbrev pub carriage_return : ℕ
carriage_return = 13

abbrev pub prepend : ℕ → Option (Text × Text) → Option (Text × Text)
prepend c none = none
prepend c (some (line, rest)) = some (c ∷ line, rest)

-- `find('\n')`, `substr(0, pos)` and `erase(0, pos + 1)`.
unfoldable pub split_line : Text → Option (Text × Text)
split_line [] = none
split_line (c ∷ s) = let r = split_line s in if eqb c newline then some ([], s) else prepend c r

-- `if (!line.empty() && line.back() == '\r') line.pop_back()`
unfoldable pub strip_return : Text → Text
strip_return [] = []
strip_return (c ∷ []) = if eqb c carriage_return then [] else c ∷ []
strip_return (c ∷ d ∷ s) = c ∷ strip_return (d ∷ s)

-- The loop over the complete lines of a buffer: the lines, and what is left in the buffer.
unfoldable pub drain : ℕ → Text → Exec (List Text × Text)
drain zero buffer = out_of_fuel
drain (suc fuel) buffer = elim (split_line buffer) [
  | none ↦ ok ([], buffer)
  | some (line, rest) ↦ drain fuel rest >>= λ (lines, left). ok (strip_return line ∷ lines, left)
]

-- Each round takes at least the newline off, so the length of the buffer bounds the rounds.
unfoldable pub take_lines : Text → Exec (List Text × Text)
take_lines buffer = drain (suc (length buffer)) buffer
