-- ===== src/Server/Stream.antt =====
-- `std::stringstream >> x` for strings and integers, and `std::strncpy` into `char symbol[16]`.
use order_matching_engine.Base.{
  ℕ, ◌+◌, ◌-◌, ◌*◌, ◌%◌, ◌^◌, Bool, true, false, ◌&&◌, ◌||◌, Option, none, some, [], ◌∷◌, ltb, leb,
  eqb, if◌then◌else◌, take, Text,
}
use order_matching_engine.Base.Int.{ℤ, pos, ◌-ℤ◌, fits, int_limit}

abbrev pub is_space : ℕ → Bool
is_space c = eqb c 32 || (leb 9 c && leb c 13)

abbrev pub is_digit : ℕ → Bool
is_digit c = leb 48 c && leb c 57

abbrev pub skip_spaces : Text → Text
skip_spaces [] = []
skip_spaces (c ∷ s) = if is_space c then skip_spaces s else c ∷ s

-- The first word, and what follows it.
abbrev pub split_word : Text → Text × Text
split_word [] = ([], [])
split_word (c ∷ s) = let r = split_word s in if is_space c then ([], c ∷ s) else (c ∷ r.0, r.1)

abbrev pub some_word : Text × Text → Option (Text × Text)
some_word ([], rest) = none
some_word (c ∷ w, rest) = some (c ∷ w, rest)

unfoldable pub read_word : Text → Option (Text × Text)
read_word s = some_word (split_word (skip_spaces s))

-- The digits at the front: their value, whether there is one, and the rest.
abbrev pub read_digits : ℕ → Bool → Text → ℕ × Bool × Text
read_digits value found [] = (value, found, [])
read_digits value found (c ∷ s) =
    let rest = read_digits (10 * value + (c - 48)) true s in
    if is_digit c then rest else (value, found, c ∷ s)

-- A sign, which is true for `-`.
abbrev pub read_sign : Text → Bool × Text
read_sign [] = (false, [])
read_sign (c ∷ s) = if eqb c 45 then (true, s) else if eqb c 43 then (false, s) else (false, c ∷ s)

-- `>> int`: a value outside `int` fails.
unfoldable pub read_int : Text → Option (ℤ × Text)
read_int s =
    let signed = read_sign (skip_spaces s) in
    let r = read_digits 0 false signed.1 in
    let value = if signed.0 then pos 0 -ℤ pos r.0 else pos r.0 in
    if r.1 && fits int_limit value then some (value, r.2) else none

-- `>> uint64_t`: a minus sign negates the value modulo 2 ^ 64.
unfoldable pub read_u64 : Text → Option (ℕ × Text)
read_u64 s =
    let signed = read_sign (skip_spaces s) in
    let r = read_digits 0 false signed.1 in
    let value = if signed.0 then (2 ^ 64 - r.0) % 2 ^ 64 else r.0 in
    if r.1 && ltb r.0 (2 ^ 64) then some (value, r.2) else none

-- A C string ends at its first NUL.
abbrev pub c_string : Text → Text
c_string [] = []
c_string (c ∷ s) = if eqb c 0 then [] else c ∷ c_string s

-- `strncpy(cmd.symbol, symbol.c_str(), 15)` and the final NUL, read back as a string.
unfoldable pub copy_symbol : Text → Text
copy_symbol s = take 15 (c_string s)
