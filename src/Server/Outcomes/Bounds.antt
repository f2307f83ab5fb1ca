-- ===== src/Server/Outcomes/Bounds.antt =====
-- The values that the fields of a line can take.
use order_matching_engine.Base.{
  ℕ, zero, suc, ◌<◌, ◌≤◌, ◌^◌, ◌≡◌, ◌-◌, ◌%◌, Bool, true, false, ◌&&◌, Option, none, some, [], ◌∷◌,
  arith, eqb, if◌then◌else◌, Bool-cases, inl, inr, Text, All, length, take, ltb,
}
use order_matching_engine.Base.Int.{ℤ, pos, ◌-ℤ◌, fits, int_limit}
use order_matching_engine.Server.Stream.{
  skip_spaces, read_sign, read_digits, c_string, read_int, read_u64, copy_symbol,
}

c_string-NonNul : (s : Text) → All (λ c. eqb c 0 ≡ false) (c_string s)
c_string-NonNul [] = tt
c_string-NonNul (c ∷ s) = elim (Bool-cases (eqb c 0)) [
  | inl e ↦ rw e tt
  | inr e ↦ rw e (e, c_string-NonNul s)
]

length-take : (n : ℕ) (s : Text) → length (take n s) ≤ n
length-take zero s = omega arith
length-take (suc n) [] = omega arith
length-take (suc n) (c ∷ s) = omega (arith, length-take n s)

All-take : (Q : ℕ → Type 0) (n : ℕ) (s : Text) → All Q s → All Q (take n s)
All-take Q zero s h = tt
All-take Q (suc n) [] h = tt
All-take Q (suc n) (c ∷ s) h = (h.0, All-take Q n s h.1)

pub copy_symbol-length : (s : Text) → length (copy_symbol s) ≤ 15
unfolding copy_symbol
copy_symbol-length s = length-take 15 (c_string s)

pub copy_symbol-NonNul : (s : Text) → All (λ c. eqb c 0 ≡ false) (copy_symbol s)
unfolding copy_symbol
copy_symbol-NonNul s = All-take _ 15 (c_string s) (c_string-NonNul s)

abbrev pub IntFits : Option (ℤ × Text) → Type 0
IntFits none = Unit
IntFits (some (z, s)) = fits int_limit z ≡ true

guarded-IntFits :
    (b : Bool) (z : ℤ) (s : Text) → IntFits (if b && fits int_limit z then some (z, s) else none)
guarded-IntFits false z s = tt
guarded-IntFits true z s = elim (Bool-cases (fits int_limit z)) [ inl e ↦ rw e e | inr e ↦ rw e tt ]

pub read_int-IntFits : (s : Text) → IntFits (read_int s)
unfolding read_int
read_int-IntFits s =
    let signed = read_sign (skip_spaces s) in
    let r = read_digits 0 false signed.1 in
    guarded-IntFits r.1 (if signed.0 then pos 0 -ℤ pos r.0 else pos r.0) r.2

abbrev pub IdFits : Option (ℕ × Text) → Type 0
IdFits none = Unit
IdFits (some (id, s)) = id < 2 ^ 64

guarded-IdFits :
    (b signed : Bool) (n : ℕ) (s : Text)
    → IdFits (
        if b && ltb n (2 ^ 64) then some (if signed then (2 ^ 64 - n) % 2 ^ 64 else n, s) else none)
guarded-IdFits false signed n s = tt
guarded-IdFits true true n s = ground arith
guarded-IdFits true false n s = ground arith

pub read_u64-IdFits : (s : Text) → IdFits (read_u64 s)
unfolding read_u64
read_u64-IdFits s =
    let signed = read_sign (skip_spaces s) in
    let r = read_digits 0 false signed.1 in guarded-IdFits r.1 signed.0 r.0 r.2
