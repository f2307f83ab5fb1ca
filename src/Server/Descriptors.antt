-- ===== src/Server/Descriptors.antt =====
-- The file descriptors of the process: which are open after some calls that open or close one.
use order_matching_engine.Base.{
  ℕ, ◌≡◌, refl, ap, inl, inr, Bool, true, false, ◌||◌, Option, none, some, List, [], ◌∷◌, ◌++◌, eqb,
  if◌then◌else◌, Bool-cases, arith,
}
use mathlib.Core.Option.{some-injective}

pub data FdCall : Type 0 where
  opens closes : (fd : ℕ) → FdCall

abbrev pub elem : ℕ → List ℕ → Bool
elem x [] = false
elem x (y ∷ ys) = eqb y x || elem x ys

abbrev pub drop : ℕ → List ℕ → List ℕ
drop x [] = []
drop x (y ∷ ys) = if eqb y x then drop x ys else y ∷ drop x ys

-- What is open afterwards: none if a descriptor is opened that is open, or one closed that is not.
unfoldable pub descriptors : List FdCall → List ℕ → Option (List ℕ)
descriptors [] fds = some fds
descriptors (opens fd ∷ calls) fds =
    if elem fd fds then none else descriptors calls (fds ++ fd ∷ [])
descriptors (closes fd ∷ calls) fds = if elem fd fds then descriptors calls (drop fd fds) else none

abbrev pub Distinct : List ℕ → Type 0
Distinct [] = Unit
Distinct (x ∷ xs) = (elem x xs ≡ false) × Distinct xs

pub descriptors-append :
    (xs ys : List FdCall) (a : List ℕ) {b : List ℕ}
    → descriptors xs a ≡ some b
    → descriptors (xs ++ ys) a ≡ descriptors ys b
unfolding descriptors
descriptors-append [] ys a {b} e = ap (descriptors ys) (some-injective a b e)
descriptors-append (opens fd ∷ xs) ys a {b} e = elim (Bool-cases (elem fd a)) [
  | inl known ↦ absurd (let f : none ≡ some b = rw known at e in cc)
  | inr fresh ↦ rw fresh (descriptors-append xs ys (a ++ fd ∷ []) (rw fresh at e))
]
descriptors-append (closes fd ∷ xs) ys a {b} e = elim (Bool-cases (elem fd a)) [
  | inl known ↦ rw known (descriptors-append xs ys (drop fd a) (rw known at e))
  | inr fresh ↦ absurd (let f : none ≡ some b = rw fresh at e in cc)
]

pub drop_absent : (x : ℕ) (xs : List ℕ) → elem x xs ≡ false → drop x xs ≡ xs
drop_absent x [] e = refl
drop_absent x (y ∷ ys) e = ground (arith, drop_absent x ys)

pub drop-snoc : (x : ℕ) (xs : List ℕ) → elem x xs ≡ false → drop x (xs ++ x ∷ []) ≡ xs
drop-snoc x [] e = ground arith
drop-snoc x (y ∷ ys) e = ground (arith, drop-snoc x ys)

elem-append : (x : ℕ) (xs ys : List ℕ) → elem x (xs ++ ys) ≡ (elem x xs || elem x ys)
elem-append x [] ys = refl
elem-append x (y ∷ xs) ys = ground (arith, elem-append x xs ys)

pub elem-snoc : (x : ℕ) (xs : List ℕ) → elem x (xs ++ x ∷ []) ≡ true
elem-snoc x [] = ground arith
elem-snoc x (y ∷ ys) = ground (arith, elem-snoc x ys)

elem-drop : (x y : ℕ) (xs : List ℕ) → elem x xs ≡ false → elem x (drop y xs) ≡ false
elem-drop x y [] e = refl
elem-drop x y (z ∷ xs) e = ground (arith, elem-drop x y xs)

pub Distinct-snoc :
    (x : ℕ) (xs : List ℕ) → elem x xs ≡ false → Distinct xs → Distinct (xs ++ x ∷ [])
Distinct-snoc x [] e h = (refl, tt)
Distinct-snoc x (y ∷ ys) e h = elim (Bool-cases (eqb y x)) [
  | inl same ↦ absurd (let f : true ≡ false = rw same at e in cc)
  | inr other ↦
      let others : elem x ys ≡ false = rw other at e in
      (ground (arith, elem-append y ys (x ∷ []), h.0), Distinct-snoc x ys others h.1)
]

pub Distinct-drop : (x : ℕ) (xs : List ℕ) → Distinct xs → Distinct (drop x xs)
Distinct-drop x [] h = tt
Distinct-drop x (y ∷ ys) h = elim (Bool-cases (eqb y x)) [
  | inl e ↦ rw e (Distinct-drop x ys h.1)
  | inr e ↦ rw e (elem-drop y x ys h.0, Distinct-drop x ys h.1)
]
