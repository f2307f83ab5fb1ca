-- ===== src/Server/Decimal.antt =====
-- Numbers as a client writes them, and what `>>` reads of them.
use order_matching_engine.Base.{
  ℕ, zero, suc, ◌+◌, ◌-◌, ◌*◌, ◌/◌, ◌%◌, ◌^◌, ◌<◌, ◌≤◌, ◌≡◌, refl, Bool, true, false, some, [], ◌∷◌,
  arith, eqb, ltb, if◌then◌else◌, Bool-cases, inl, inr, Text,
}
use order_matching_engine.Base.Int.{pos, int_limit}
use order_matching_engine.Server.Stream.{
  is_space, is_digit, skip_spaces, read_digits, read_sign, read_int, read_u64,
}

abbrev digit : ℕ → ℕ
digit n = 48 + n % 10

abbrev decimal_from : ℕ → ℕ → Text → Text
decimal_from zero n rest = rest
decimal_from (suc fuel) n rest =
    let more = decimal_from fuel (n / 10) (digit n ∷ rest) in
    if ltb n 10 then digit n ∷ rest else more

-- The decimal digits of a number, in front of a text.
abbrev pub decimal : ℕ → Text → Text
decimal n rest = decimal_from (suc n) n rest

-- No digit comes next.
abbrev pub EndsNumber : Text → Type 0
EndsNumber [] = Unit
EndsNumber (c ∷ s) = is_digit c ≡ false

abbrev StartsNumber : Text → Type 0
StartsNumber [] = ⊥
StartsNumber (c ∷ s) = (48 ≤ c) × (c ≤ 57)

decimal_from-StartsNumber :
    (fuel n : ℕ) (rest : Text) → n < fuel → StartsNumber (decimal_from fuel n rest)
decimal_from-StartsNumber zero n rest h = absurd (omega arith)
decimal_from-StartsNumber (suc fuel) n rest h = elim (Bool-cases (ltb n 10)) [
  | inl one ↦ rw one (omega arith)
  | inr more ↦ rw more (decimal_from-StartsNumber fuel (n / 10) (digit n ∷ rest) (ground arith))
]

read_digits-decimal_from :
    (fuel n : ℕ) (rest : Text) (found : Bool)
    → n < fuel
    → read_digits 0 found (decimal_from fuel n rest) ≡ read_digits n true rest
read_digits-decimal_from zero n rest found h = absurd (omega arith)
read_digits-decimal_from (suc fuel) n rest found h =
    let is_one : is_digit (digit n) ≡ true = ground arith in
    elim (Bool-cases (ltb n 10)) [
      | inl one ↦ let e : 10 * 0 + (digit n - 48) ≡ n = ground arith in rw (one, is_one, e) refl
      | inr more ↦
          let e : 10 * (n / 10) + (digit n - 48) ≡ n = omega arith in
          rw
            (
              more,
              read_digits-decimal_from fuel (n / 10) (digit n ∷ rest) found (ground arith),
              is_one,
              e,
            )
            refl
    ]

read_digits-end :
    (n : ℕ) (rest : Text) → EndsNumber rest → read_digits n true rest ≡ (n, true, rest)
read_digits-end n [] h = refl
read_digits-end n (c ∷ s) h = rw h refl

starts-skip_spaces : (s : Text) → StartsNumber s → skip_spaces s ≡ s
starts-skip_spaces [] h = absurd h
starts-skip_spaces (c ∷ s) h = let e : is_space c ≡ false = ground (arith, h.0) in rw e refl

starts-read_sign : (s : Text) → StartsNumber s → read_sign s ≡ (false, s)
starts-read_sign [] h = absurd h
starts-read_sign (c ∷ s) h =
    let e : eqb c 45 ≡ false = ground (arith, h.0) in
    let f : eqb c 43 ≡ false = ground (arith, h.0) in rw (e, f) refl

-- After a blank, `>> uint64_t` reads back a number that was written, and stops behind it.
pub read_u64-decimal :
    (n : ℕ) (rest : Text)
    → n < 2 ^ 64
    → EndsNumber rest
    → read_u64 (32 ∷ decimal n rest) ≡ some (n, rest)
unfolding read_u64
read_u64-decimal n rest h k =
    let starts = decimal_from-StartsNumber (suc n) n rest (omega arith) in
    let fits64 : ltb n (2 ^ 64) ≡ true = ground arith in
    rw
      (
        starts-skip_spaces (decimal n rest) starts,
        starts-read_sign (decimal n rest) starts,
        read_digits-decimal_from (suc n) n rest false (omega arith),
        read_digits-end n rest k,
        fits64,
      )
      refl

-- The same for `>> int`.
pub read_int-decimal :
    (n : ℕ) (rest : Text)
    → n < int_limit
    → EndsNumber rest
    → read_int (32 ∷ decimal n rest) ≡ some (pos n, rest)
unfolding read_int
read_int-decimal n rest h k =
    let starts = decimal_from-StartsNumber (suc n) n rest (omega arith) in
    let fits_int : ltb n int_limit ≡ true = ground arith in
    rw
      (
        starts-skip_spaces (decimal n rest) starts,
        starts-read_sign (decimal n rest) starts,
        read_digits-decimal_from (suc n) n rest false (omega arith),
        read_digits-end n rest k,
        fits_int,
      )
      refl
