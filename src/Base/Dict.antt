-- ===== src/Base/Dict.antt =====
-- `std::unordered_map`, as an association list: `find`, `m[k] = v` and `erase`. The iteration order of
-- the C++ container is unspecified; the list fixes one.
use order_matching_engine.Base.{
  ◌≡◌, refl, List, [], ◌∷◌, Option, none, some, arith, Key, same_key, if◌then◌else◌,
}

abbrev pub Dict {ℓ κ} : Type ℓ → Type κ → Type (ℓ ⊔ κ)
Dict K V = List (K × V)

module _ {ℓ κ} {K : Type ℓ} {V : Type κ} ⦃key : Key K⦄ where
  unfoldable pub erase : K → Dict K V → Dict K V
  erase k [] = []
  erase k ((k', v) ∷ rest) = if same_key k' k then erase k rest else (k', v) ∷ erase k rest

  unfoldable pub insert : K → V → Dict K V → Dict K V
  insert k value [] = (k, value) ∷ []
  insert k value ((k', v) ∷ rest) =
      if same_key k' k then (k, value) ∷ rest else (k', v) ∷ insert k value rest

  unfoldable pub lookup : K → Dict K V → Option V
  lookup k [] = none
  lookup k ((k', v) ∷ rest) = if same_key k' k then some v else lookup k rest

  pub lookup-erase :
      (k j : K) (d : Dict K V) → lookup j (erase k d) ≡ (if same_key k j then none else lookup j d)
  unfolding lookup erase
  lookup-erase k j [] = ground arith
  lookup-erase k j ((k', v) ∷ rest) =
      let ih = lookup-erase k j rest in
      ground (arith, ih, key.same_iff k' j, key.same_iff k' k, key.same_iff k j)

  pub lookup-insert :
      (k j : K) (value : V) (d : Dict K V)
      → lookup j (insert k value d) ≡ (if same_key k j then some value else lookup j d)
  unfolding lookup insert
  lookup-insert k j value [] = refl
  lookup-insert k j value ((k', v) ∷ rest) =
      let ih = lookup-insert k j value rest in
      ground (arith, ih, key.same_iff k' j, key.same_iff k' k, key.same_iff k j)
