-- ===== src/SpscQueue/Ring.antt =====
-- The ring against the list of the items in it: what each access of `push` and `pop` does to it.
use order_matching_engine.Base.{
  ℕ, zero, suc, ◌+◌, ◌-◌, ◌^◌, ◌<◌, ◌≡◌, refl, ap, ◌∙◌, sym, ◌≢◌, some, List, [], ◌∷◌, ◌++◌, arith,
  eqb, ltb, if◌then◌else◌, length, length-append, get_elem?, set,
}
use native.Mathlib.Nat.{mod-eq_of_lt, mod-eq-sub-mod}
use native.Mathlib.Decide.{dec_lt}
use order_matching_engine.Base.Int.{add_u64}
use order_matching_engine.SpscQueue.{SpscQueue, next, is_full}

module _ {A : Type 0} where
  length-set : (xs : List A) (i : ℕ) (v : A) → length (set xs i v) ≡ length xs
  length-set [] i v = refl
  length-set (x ∷ xs) zero v = refl
  length-set (x ∷ xs) (suc i) v = ap suc (length-set xs i v)

  get_elem?-set_self :
      (xs : List A) (i : ℕ) (v : A) → i < length xs → get_elem? (set xs i v) i ≡ some v
  get_elem?-set_self [] i v h = absurd (omega arith)
  get_elem?-set_self (x ∷ xs) zero v h = refl
  get_elem?-set_self (x ∷ xs) (suc i) v h = get_elem?-set_self xs i v (omega arith)

  get_elem?-set_ne :
      (xs : List A) (i j : ℕ) (v : A) → i ≢ j → get_elem? (set xs i v) j ≡ get_elem? xs j
  get_elem?-set_ne [] i j v h = refl
  get_elem?-set_ne (x ∷ xs) zero zero v h = absurd (h refl)
  get_elem?-set_ne (x ∷ xs) zero (suc j) v h = refl
  get_elem?-set_ne (x ∷ xs) (suc i) zero v h = refl
  get_elem?-set_ne (x ∷ xs) (suc i) (suc j) v h = get_elem?-set_ne xs i j v (λ e. h (ap suc e))

module _ (capacity : ℕ) where
  -- The index `n` slots after `h`, for indices in the ring.
  abbrev pub slot : ℕ → ℕ → ℕ
  slot h n = if ltb (h + n) capacity then h + n else h + n - capacity

  next-slot : (h : ℕ) → h < capacity → capacity < 2 ^ 64 → next capacity h ≡ slot h 1
  next-slot h p q =
      let no_wrap : add_u64 h 1 ≡ h + 1 = omega arith in
      rw no_wrap (elim (dec_lt (h + 1) capacity) [
        | yes inside ↦ ground (arith, mod-eq_of_lt inside)
        | no outside ↦ ground (
          arith,
          mod-eq-sub-mod {n = h + 1} {m = capacity} (omega arith),
          mod-eq_of_lt {n = h + 1 - capacity} {m = capacity} (omega arith),
        )
      ])

  slot-zero : (h : ℕ) → h < capacity → slot h 0 ≡ h
  slot-zero h p = ground arith

  slot-next :
      (h n : ℕ)
      → h < capacity
      → n < capacity
      → suc n < capacity
      → slot (slot h 1) n ≡ slot h (suc n)
  slot-next h n p q r = ground arith

  slot_ne : (h n : ℕ) → h < capacity → suc n < capacity → slot h (suc n) ≢ h
  slot_ne h n p q e = ground arith

  slot_lt : (h n : ℕ) → h < capacity → n < capacity → slot h n < capacity
  slot_lt h n p q = ground arith

module _ {A : Type 0} (capacity : ℕ) where
  -- The items lie in the slots from `h` on, in order.
  abbrev pub Slots : List A → ℕ → List A → Type 0
  Slots buffer h [] = Unit
  Slots buffer h (x ∷ xs) = (get_elem? buffer h ≡ some x) × Slots buffer (slot capacity h 1) xs

  -- The ring holds the items, oldest first.
  pub record Holds (q : SpscQueue A) (xs : List A) : Type 0 where
    pub size_t : capacity < 2 ^ 64
    pub storage : length q.buffer ≡ capacity
    pub head_in : q.head < capacity
    pub room : length xs < capacity
    pub tail_at : q.tail ≡ slot capacity q.head (length xs)
    pub items : Slots q.buffer q.head xs

  Slots-set :
      (buffer : List A) (h i : ℕ) (v : A) (xs : List A)
      → h < capacity
      → length xs < capacity
      → i ≡ slot capacity h (length xs)
      → Slots buffer h xs
      → Slots (set buffer i v) h xs
  Slots-set buffer h i v [] p r e s = tt
  Slots-set buffer h i v (x ∷ xs) p r e s = (
    get_elem?-set_ne buffer i h v (λ f. slot_ne capacity h (length xs) p r (sym e ∙ f)) ∙ s.0,
    Slots-set buffer (slot capacity h 1) i v xs (ground arith) (omega arith)
        (e ∙ sym (slot-next capacity h (length xs) p (omega arith) r)) s.1,
  )

  Slots-snoc :
      (buffer : List A) (h : ℕ) (v : A) (xs : List A)
      → h < capacity
      → length xs < capacity
      → get_elem? buffer (slot capacity h (length xs)) ≡ some v
      → Slots buffer h xs
      → Slots buffer h (xs ++ v ∷ [])
  Slots-snoc buffer h v [] p r e s = (rw (slot-zero capacity h p) at e, tt)
  Slots-snoc buffer h v (x ∷ xs) p r e s = (
    s.0,
    Slots-snoc buffer (slot capacity h 1) v xs (ground arith) (omega arith)
        (rw (slot-next capacity h (length xs) p (omega arith) r) e) s.1,
  )

  module _ {q : SpscQueue A} {xs : List A} where
    -- The four accesses that change or read the ring.
    pub Holds-write :
        (v : A)
        → Holds q xs
        → Holds (record q { buffer = set q.buffer q.tail v }) xs
          × (get_elem? (set q.buffer q.tail v) q.tail ≡ some v)
    Holds-write v h = (
      record {
        size_t = h.size_t;
        storage = length-set q.buffer q.tail v ∙ h.storage;
        head_in = h.head_in;
        room = h.room;
        tail_at = h.tail_at;
        items = Slots-set q.buffer q.head q.tail v xs h.head_in h.room h.tail_at h.items;
      },
      get_elem?-set_self q.buffer q.tail v (ground (arith, h.tail_at, h.storage)),
    )

    pub Holds-publish :
        (v : A)
        → Holds q xs
        → suc (length xs) < capacity
        → get_elem? q.buffer q.tail ≡ some v
        → Holds (record q { tail = next capacity q.tail }) (xs ++ v ∷ [])
    Holds-publish v h room e = record {
      size_t = h.size_t;
      storage = h.storage;
      head_in = h.head_in;
      room = omega (arith, length-append xs (v ∷ []));
      tail_at = ground (
        arith,
        next-slot capacity q.tail,
        h.tail_at,
        h.size_t,
        h.head_in,
        length-append xs (v ∷ []),
      );
      items = Slots-snoc q.buffer q.head v xs h.head_in h.room (rw (← h.tail_at) e) h.items;
    }

    -- The test of `push` sees a full ring exactly when no slot is left.
    pub is_full_iff : Holds q xs → is_full capacity q.tail q.head ≡ eqb (suc (length xs)) capacity
    is_full_iff h =
        ground (arith, next-slot capacity q.tail, h.tail_at, h.size_t, h.head_in, h.room)

    pub is_empty_iff : Holds q xs → eqb q.head q.tail ≡ eqb (length xs) 0
    is_empty_iff h = ground (arith, h.tail_at)

  pub Holds-release :
      {q : SpscQueue A} {xs : List A} {x : A}
      → Holds q (x ∷ xs)
      → Holds (record q { head = next capacity q.head }) xs
  Holds-release {q} {xs} h =
      let step = next-slot capacity q.head h.head_in h.size_t in
      record {
        size_t = h.size_t;
        storage = h.storage;
        head_in = ground (arith, step, h.head_in);
        room = omega (arith, h.room);
        tail_at =
            h.tail_at
            ∙ sym (slot-next capacity q.head (length xs) h.head_in (omega (arith, h.room)) h.room)
            ∙ ap (λ k. slot capacity k (length xs)) (sym step);
        items = rw step h.items.1;
      }
