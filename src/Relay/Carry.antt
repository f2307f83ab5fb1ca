-- ===== src/Relay/Carry.antt =====
-- What a schedule keeps: finished, queued and waiting items, and what the work promises of them.
use order_matching_engine.Base.{
  ◌≢◌, ◌<◌, ◌⊎◌, ℕ, ◌≡◌, refl, ap, ◌∙◌, sym, inl, inr, Bool, true, Option, none, some, List, [],
  ◌∷◌, ◌++◌, append_assoc, append-nil, arith, length, length-append, Bool-cases, All,
}
use mathlib.Core.Option.{some-injective}
use order_matching_engine.Base.Exec.{Exec, Returns, Returns->>=, Returns-map}
use order_matching_engine.Queue.{Queue, PopOk, IsFifo}
use order_matching_engine.Relay.{
  Turn, produce, consume, stop, Relay, ready, produce_turn, consume_turn, take_turn, run,
}

-- The turn's clock reading, if it has one, satisfies a predicate.
abbrev pub TickOk : {T : Type 0} → (T → Type 0) → Turn T → Type 0
TickOk P produce = Unit
TickOk P (consume tick) = P tick
TickOk P stop = Unit

-- What the work keeps: `good` relates the finished items to the worker's state.
pub record Keeps {A W T : Type 0} (items : List A) (tick_ok : T → Type 0)
    (work : T → A → W → Exec W) (good : List A → W → Type 0) : Type 0 where
  pub step :
      (tick : T) (x : A) (before after : List A) (w : W)
      → tick_ok tick
      → items ≡ before ++ x ∷ after
      → good before w
      → Returns (good (before ++ x ∷ [])) (work tick x w)

abbrev pub rest_of : {A : Type 0} → List A → List A
rest_of [] = []
rest_of (x ∷ xs) = xs

-- A waiting item becomes a queued one.
pushed-split :
    {A : Type 0} {items : List A} (finished queued : List A) {todo : List A} (x : A) (xs : List A)
    → items ≡ finished ++ queued ++ todo
    → x ∷ xs ≡ todo
    → items ≡ finished ++ (queued ++ x ∷ []) ++ xs
pushed-split finished queued x xs s e =
    s
    ∙ ap (λ t. (finished ++ queued) ++ t) (sym e)
    ∙ sym (append_assoc (finished ++ queued) (x ∷ []) xs)
    ∙ ap (λ l. l ++ xs) (append_assoc finished queued (x ∷ []))

pub no_items : {A : Type 0} (xs : List A) → length xs ≡ 0 → xs ≡ []
no_items [] e = refl
no_items (x ∷ xs) e = absurd (omega arith)

module _ {A Q W : Type 0} where
  -- Finished, queued and waiting items are all the items, in order.
  pub record Carried (holds : Q → List A → Type 0) (items : List A) (good : List A → W → Type 0)
      (r : Relay A Q W) : Type 0 where
    pub queued : List A
    pub held : holds r.queue queued
    pub split : items ≡ r.finished ++ queued ++ r.todo
    pub counted : r.processed ≡ length r.finished
    pub kept : good r.finished r.worker

  pub ready-Carried :
      {holds : Q → List A → Type 0} (items : List A) (good : List A → W → Type 0) (q : Q) (w : W)
      → holds q []
      → good [] w
      → Carried holds items good (ready items q w)
  ready-Carried items good q w h g = record {
    queued = [];
    held = h;
    split = refl;
    counted = refl;
    kept = g;
  }

  -- As many finished items as there are items: nothing is queued and nothing waits.
  pub finished_all :
      {holds : Q → List A → Type 0} {items : List A} {good : List A → W → Type 0} (r : Relay A Q W)
      → Carried holds items good r
      → r.processed ≡ length items
      → r.finished ≡ items
  finished_all r c e =
      let l = length-append (r.finished ++ c.queued) r.todo in
      let k = length-append r.finished c.queued in
      let all = ap length c.split in
      let n = c.counted in
      sym (
        c.split
        ∙ ap (λ t. r.finished ++ c.queued ++ t) (no_items r.todo (omega arith))
        ∙ append-nil (r.finished ++ c.queued)
        ∙ ap (λ t. r.finished ++ t) (no_items c.queued (omega arith))
        ∙ append-nil r.finished)

module _ {A Q W T : Type 0} {queue : Queue A Q} {holds : Q → List A → Type 0}
    (fifo : IsFifo queue holds) (goes_on : Bool → ℕ → Bool) {work : T → A → W → Exec W}
    {items : List A} {tick_ok : T → Type 0} {good : List A → W → Type 0}
    (keeps : Keeps items tick_ok work good) where
  -- After a push the queue has an item, unless there was nothing to push; the flag stays.
  abbrev pub AfterPush : Relay A Q W → Relay A Q W → Type 0
  AfterPush r r' =
      (c : Carried holds items good r') × ((0 < length c.queued) ⊎ ([] ≡ r'.todo))
      × (r'.running ≡ r.running)

  some_queued : (xs : List A) → xs ≢ [] → 0 < length xs
  some_queued [] h = absurd (h refl)
  some_queued (x ∷ xs) h = omega arith

  pub produce_turn-AfterPush :
      (todo : List A) (r : Relay A Q W)
      → todo ≡ r.todo
      → Carried holds items good r
      → AfterPush r (produce_turn queue goes_on work todo r)
  produce_turn-AfterPush [] r e c = (c, inr e, refl)
  produce_turn-AfterPush (x ∷ xs) r e c = elim (fifo.push_ok x r.queue c.queued c.held) [
    | inl (taken, held) ↦ rw taken (
      record {
        queued = c.queued ++ x ∷ [];
        held = held;
        split = pushed-split r.finished c.queued x xs c.split e;
        counted = c.counted;
        kept = c.kept;
      },
      inl (omega (arith, length-append c.queued (x ∷ []))),
      refl,
    )
    | inr (refused, held, nonempty) ↦ rw refused (
      record {
        queued = c.queued;
        held = held;
        split = rw e c.split;
        counted = c.counted;
        kept = c.kept;
      },
      inl (some_queued c.queued nonempty),
      refl,
    )
  ]

  -- A pop takes the first queued item and nothing else.
  abbrev pub AfterPop : List A → Relay A Q W → Relay A Q W → Type 0
  AfterPop queued r r' =
      (c : Carried holds items good r') × (c.queued ≡ rest_of queued)
      × (r'.todo ≡ r.todo)
      × (r'.running ≡ r.running)

  pub consume_turn-AfterPop :
      (tick : T) (p : Option A × Q) (queued : List A) (r : Relay A Q W)
      → tick_ok tick
      → Carried holds items good r
      → items ≡ r.finished ++ queued ++ r.todo
      → PopOk holds queued p
      → Returns (AfterPop queued r) (consume_turn queue goes_on work tick p r)
  consume_turn-AfterPop tick (none, q) [] r t c e h = (
    record { queued = []; held = h.1; split = e; counted = c.counted; kept = c.kept },
    refl,
    refl,
    refl,
  )
  consume_turn-AfterPop tick (none, q) (x ∷ xs) r t c e h = absurd (cc)
  consume_turn-AfterPop tick (some x, q) [] r t c e h = absurd (cc)
  consume_turn-AfterPop tick (some x, q) (y ∷ ys) r t c e h =
      let same : y ≡ x = sym (some-injective x y h.0) in
      let at : items ≡ (r.finished ++ x ∷ ys) ++ r.todo = rw (← same) e in
      Returns->>= (good (r.finished ++ x ∷ [])) _ (work tick x r.worker) _
        (keeps.step tick x r.finished (ys ++ r.todo) r.worker t
          (at ∙ append_assoc r.finished (x ∷ ys) r.todo) c.kept)
        (λ w g. (
          record {
            queued = ys;
            held = h.1;
            split = at ∙ ap (λ l. l ++ r.todo) (sym (append_assoc r.finished (x ∷ []) ys));
            counted = omega (arith, c.counted, length-append r.finished (x ∷ []));
            kept = g;
          },
          refl,
          refl,
          refl,
        ))

  -- The same for a turn in which the loop goes on.
  pub consume-AfterPop :
      (tick : T) (r : Relay A Q W)
      → goes_on r.running r.processed ≡ true
      → tick_ok tick
      → (c : Carried holds items good r)
      → Returns (AfterPop c.queued r) (take_turn queue goes_on work (consume tick) r)
  unfolding take_turn
  consume-AfterPop tick r on t c = rw on (
      consume_turn-AfterPop tick (queue.pop r.queue) c.queued r t c c.split
        (fifo.pop_ok r.queue c.queued c.held))

  pub take_turn-Carried :
      (turn : Turn T) (r : Relay A Q W)
      → TickOk tick_ok turn
      → Carried holds items good r
      → Returns (Carried holds items good) (take_turn queue goes_on work turn r)
  unfolding take_turn
  take_turn-Carried produce r t c = (produce_turn-AfterPush r.todo r refl c).0
  take_turn-Carried (consume tick) r t c = elim (Bool-cases (goes_on r.running r.processed)) [
    | inl yes_more ↦ rw yes_more (
        Returns-map (AfterPop c.queued r) _ _
          (consume_turn-AfterPop tick (queue.pop r.queue) c.queued r t c c.split
            (fifo.pop_ok r.queue c.queued c.held))
          (λ r' a. a.0))
    | inr no_more ↦ rw no_more c
  ]
  take_turn-Carried stop r t c = record {
    queued = c.queued;
    held = c.held;
    split = c.split;
    counted = c.counted;
    kept = c.kept;
  }

  -- Under any schedule, a run on a first-in first-out queue returns where the work keeps to its promise:
  -- the finished items, the queued ones and the waiting ones are all the items in order, their number is
  -- counted, and what the work keeps holds of the finished ones.
  pub run-Carried :
      (turns : List (Turn T)) (r : Relay A Q W)
      → All (TickOk tick_ok) turns
      → Carried holds items good r
      → Returns (Carried holds items good) (run queue goes_on work turns r)
  unfolding run
  run-Carried [] r t c = c
  run-Carried (turn ∷ turns) r t c =
      Returns->>= (Carried holds items good) _ (take_turn queue goes_on work turn r) _
        (take_turn-Carried turn r t.0 c) (λ r' c'. run-Carried turns r' t.1 c')
