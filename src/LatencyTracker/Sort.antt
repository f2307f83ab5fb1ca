-- ===== src/LatencyTracker/Sort.antt =====
-- Sorting the samples: the result is sorted, and counts, lengths, sums and extremes stay.
use order_matching_engine.Base.{
  ℕ, suc, ◌+◌, ◌≡◌, refl, ap, ◌∙◌, inl, inr, Bool, false, List, [], ◌∷◌, ◌++◌, arith, if◌then◌else◌,
  Bool-cases, length, All, All-map,
}
use order_matching_engine.Base.Int.{ℤ, ◌+ℤ◌, ltb_ℤ, min_ℤ}
use order_matching_engine.LatencyTracker.{insert_sorted, sort}

abbrev pub IsSorted : List ℤ → Type 0
IsSorted [] = Unit
IsSorted (x ∷ xs) = All (λ y. ltb_ℤ y x ≡ false) xs × IsSorted xs

-- The samples that satisfy a test.
abbrev pub count : (ℤ → Bool) → List ℤ → ℕ
count p [] = 0
count p (x ∷ xs) = (if p x then 1 else 0) + count p xs

-- A sum from the left, as `sumE2E` is accumulated.
abbrev pub total : ℤ → List ℤ → ℤ
total acc [] = acc
total acc (x ∷ xs) = total (acc +ℤ x) xs

abbrev pub max_ℤ : ℤ → ℤ → ℤ
max_ℤ a b = if ltb_ℤ a b then b else a

-- The smallest of a number and the samples, and the largest of them.
abbrev pub smallest : ℤ → List ℤ → ℤ
smallest a [] = a
smallest a (x ∷ xs) = min_ℤ x (smallest a xs)

abbrev pub largest : ℤ → List ℤ → ℤ
largest a [] = a
largest a (x ∷ xs) = max_ℤ x (largest a xs)

pub count-insert_sorted :
    (p : ℤ → Bool) (x : ℤ) (xs : List ℤ)
    → count p (insert_sorted x xs) ≡ (if p x then 1 else 0) + count p xs
count-insert_sorted p x [] = refl
count-insert_sorted p x (y ∷ ys) = ground (arith, count-insert_sorted p x ys)

pub count-sort : (p : ℤ → Bool) (xs : List ℤ) → count p (sort xs) ≡ count p xs
count-sort p [] = refl
count-sort p (x ∷ xs) = omega (arith, count-insert_sorted p x (sort xs), count-sort p xs)

pub length-insert_sorted : (x : ℤ) (xs : List ℤ) → length (insert_sorted x xs) ≡ suc (length xs)
length-insert_sorted x [] = refl
length-insert_sorted x (y ∷ ys) = ground (arith, length-insert_sorted x ys)

pub length-sort : (xs : List ℤ) → length (sort xs) ≡ length xs
length-sort [] = refl
length-sort (x ∷ xs) = omega (arith, length-insert_sorted x (sort xs), length-sort xs)

All-insert_sorted :
    (Q : ℤ → Type 0) (x : ℤ) (xs : List ℤ) → Q x → All Q xs → All Q (insert_sorted x xs)
All-insert_sorted Q x [] q h = (q, tt)
All-insert_sorted Q x (y ∷ ys) q h = elim (Bool-cases (ltb_ℤ y x)) [
  | inl e ↦ rw e (h.0, All-insert_sorted Q x ys q h.1)
  | inr e ↦ rw e (q, h)
]

pub All-sort : (Q : ℤ → Type 0) (xs : List ℤ) → All Q xs → All Q (sort xs)
All-sort Q [] h = tt
All-sort Q (x ∷ xs) h = All-insert_sorted Q x (sort xs) h.0 (All-sort Q xs h.1)

ltb_ℤ-trans : (x y z : ℤ) → ltb_ℤ y x ≡ false → ltb_ℤ z y ≡ false → ltb_ℤ z x ≡ false
ltb_ℤ-trans x y z p q = ground arith

insert_sorted-IsSorted : (x : ℤ) (xs : List ℤ) → IsSorted xs → IsSorted (insert_sorted x xs)
insert_sorted-IsSorted x [] h = (tt, tt)
insert_sorted-IsSorted x (y ∷ ys) h = elim (Bool-cases (ltb_ℤ y x)) [
  | inl e ↦ rw e (
    All-insert_sorted (λ z. ltb_ℤ z y ≡ false) x ys (ground arith) h.0,
    insert_sorted-IsSorted x ys h.1,
  )
  | inr e ↦ rw e (
    (
      e,
      All-map (λ z. ltb_ℤ z y ≡ false) (λ z. ltb_ℤ z x ≡ false) ys (λ z. ltb_ℤ-trans x y z e) h.0,
    ),
    h,
  )
]

pub sort-IsSorted : (xs : List ℤ) → IsSorted (sort xs)
sort-IsSorted [] = tt
sort-IsSorted (x ∷ xs) = insert_sorted-IsSorted x (sort xs) (sort-IsSorted xs)

+ℤ-swap : (a b c : ℤ) → (a +ℤ b) +ℤ c ≡ (a +ℤ c) +ℤ b
+ℤ-swap a b c = ground arith

pub total-append : (acc : ℤ) (xs : List ℤ) (x : ℤ) → total acc (xs ++ x ∷ []) ≡ total acc xs +ℤ x
total-append acc [] x = refl
total-append acc (y ∷ ys) x = total-append (acc +ℤ y) ys x

total-insert_sorted :
    (acc x : ℤ) (xs : List ℤ) → total acc (insert_sorted x xs) ≡ total (acc +ℤ x) xs
total-insert_sorted acc x [] = refl
total-insert_sorted acc x (y ∷ ys) = elim (Bool-cases (ltb_ℤ y x)) [
  | inl e ↦ rw e (total-insert_sorted (acc +ℤ y) x ys ∙ ap (λ a. total a ys) (+ℤ-swap acc y x))
  | inr e ↦ rw e refl
]

pub total-sort : (acc : ℤ) (xs : List ℤ) → total acc (sort xs) ≡ total acc xs
total-sort acc [] = refl
total-sort acc (x ∷ xs) = total-insert_sorted acc x (sort xs) ∙ total-sort (acc +ℤ x) xs

min_ℤ-swap : (a b c : ℤ) → min_ℤ a (min_ℤ b c) ≡ min_ℤ b (min_ℤ a c)
min_ℤ-swap a b c = ground arith

max_ℤ-swap : (a b c : ℤ) → max_ℤ a (max_ℤ b c) ≡ max_ℤ b (max_ℤ a c)
max_ℤ-swap a b c = ground arith

pub smallest-snoc :
    (a : ℤ) (xs : List ℤ) (x : ℤ) → smallest a (xs ++ x ∷ []) ≡ min_ℤ x (smallest a xs)
smallest-snoc a [] x = refl
smallest-snoc a (y ∷ ys) x = ap (min_ℤ y) (smallest-snoc a ys x) ∙ min_ℤ-swap y x (smallest a ys)

pub largest-snoc : (a : ℤ) (xs : List ℤ) (x : ℤ) → largest a (xs ++ x ∷ []) ≡ max_ℤ x (largest a xs)
largest-snoc a [] x = refl
largest-snoc a (y ∷ ys) x = ap (max_ℤ y) (largest-snoc a ys x) ∙ max_ℤ-swap y x (largest a ys)

smallest-insert_sorted :
    (a x : ℤ) (xs : List ℤ) → smallest a (insert_sorted x xs) ≡ min_ℤ x (smallest a xs)
smallest-insert_sorted a x [] = refl
smallest-insert_sorted a x (y ∷ ys) = elim (Bool-cases (ltb_ℤ y x)) [
  | inl e ↦ rw e (ap (min_ℤ y) (smallest-insert_sorted a x ys) ∙ min_ℤ-swap y x (smallest a ys))
  | inr e ↦ rw e refl
]

largest-insert_sorted :
    (a x : ℤ) (xs : List ℤ) → largest a (insert_sorted x xs) ≡ max_ℤ x (largest a xs)
largest-insert_sorted a x [] = refl
largest-insert_sorted a x (y ∷ ys) = elim (Bool-cases (ltb_ℤ y x)) [
  | inl e ↦ rw e (ap (max_ℤ y) (largest-insert_sorted a x ys) ∙ max_ℤ-swap y x (largest a ys))
  | inr e ↦ rw e refl
]

pub smallest-sort : (a : ℤ) (xs : List ℤ) → smallest a (sort xs) ≡ smallest a xs
smallest-sort a [] = refl
smallest-sort a (x ∷ xs) = smallest-insert_sorted a x (sort xs) ∙ ap (min_ℤ x) (smallest-sort a xs)

pub largest-sort : (a : ℤ) (xs : List ℤ) → largest a (sort xs) ≡ largest a xs
largest-sort a [] = refl
largest-sort a (x ∷ xs) = largest-insert_sorted a x (sort xs) ∙ ap (max_ℤ x) (largest-sort a xs)
