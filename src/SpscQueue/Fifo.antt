-- ===== src/SpscQueue/Fifo.antt =====
-- `push` and `pop` as whole calls, against a bounded FIFO of at most `capacity - 1` items.
use order_matching_engine.Base.{
  ℕ, suc, ◌≡◌, refl, ◌∙◌, inl, inr, Bool, true, false, Option, none, some, List, [], ◌∷◌, ◌++◌,
  arith, eqb, if◌then◌else◌, Bool-cases, length, ◌<◌, ◌^◌,
}
use order_matching_engine.SpscQueue.{SpscQueue, fresh, push, pop}
use order_matching_engine.SpscQueue.Ring.{
  Holds, Holds-write, Holds-publish, Holds-release, is_full_iff, is_empty_iff,
}

module _ {A : Type 0} (capacity : ℕ) where
  pub fresh-Holds :
      (slots : List A)
      → 0 < capacity
      → capacity < 2 ^ 64
      → length slots ≡ capacity
      → Holds capacity (fresh slots) []
  fresh-Holds slots p q e = record {
    size_t = q;
    storage = e;
    head_in = p;
    room = p;
    tail_at = ground arith;
    items = tt;
  }

  -- What `push` does to a ring that holds `xs`.
  abbrev pub Pushed : A → List A → SpscQueue A → Bool × SpscQueue A → Type 0
  Pushed x xs q r =
      if eqb (suc (length xs)) capacity
      then r ≡ (false, q)
      else (r.0 ≡ true) × Holds capacity r.1 (xs ++ x ∷ [])

  -- What `pop` does to it.
  abbrev pub Popped : List A → SpscQueue A → Option A × SpscQueue A → Type 0
  Popped [] q r = r ≡ (none, q)
  Popped (x ∷ xs) q r = (r.0 ≡ some x) × Holds capacity r.1 xs

  -- On a ring that holds a list of items, `push` appends the item and returns `true`, unless
  -- `capacity - 1` items are queued: then it returns `false` and changes nothing.
  pub push-Pushed :
      (x : A) {q : SpscQueue A} (xs : List A)
      → Holds capacity q xs
      → Pushed x xs q (push capacity x q)
  unfolding push
  push-Pushed x {q} xs h = elim (Bool-cases (eqb (suc (length xs)) capacity)) [
    | inl full ↦ rw (full, is_full_iff capacity h ∙ full) refl
    | inr room ↦
        let w = Holds-write capacity x h in
        rw (room, is_full_iff capacity h ∙ room)
          (refl, Holds-publish capacity x w.0 (ground (arith, h.room)) w.1)
  ]

  -- On a ring that holds a list of items, `pop` takes the oldest item out, and fails on the empty queue
  -- only, which it leaves as it is.
  pub pop-Popped :
      {q : SpscQueue A} (xs : List A) → Holds capacity q xs → Popped xs q (pop capacity q)
  unfolding pop
  pop-Popped [] h = rw (is_empty_iff capacity h) refl
  pop-Popped {q} (x ∷ xs) h =
      let some_left : eqb q.head q.tail ≡ false = is_empty_iff capacity h ∙ ground arith in
      rw some_left (h.items.0, Holds-release capacity h)
