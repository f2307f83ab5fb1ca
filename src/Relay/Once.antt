-- ===== src/Relay/Once.antt =====
-- One more item at the end, whose push is not retried.
use order_matching_engine.Base.{
  ℕ, Bool, All, Bool-cases, ◌≡◌, ap, ◌∙◌, sym, inl, inr, List, [], ◌∷◌, ◌++◌, append_assoc,
  append-nil, if◌then◌else◌,
}
use order_matching_engine.Base.Exec.{Exec, Returns, Returns->>=, Returns-map}
use order_matching_engine.Queue.{Queue, IsFifo}
use order_matching_engine.Relay.{
  Turn, produce, consume, stop, Relay, push_once, produce_turn, take_turn, run,
}
use order_matching_engine.Relay.Carry.{
  Keeps, Carried, TickOk, AfterPop, consume-AfterPop, take_turn-Carried,
}

-- What is kept for all items is kept for the first of them.
pub Keeps-prefix :
    {A W T : Type 0} (items later : List A) {tick_ok : T → Type 0} {work : T → A → W → Exec W}
    {good : List A → W → Type 0}
    → Keeps (items ++ later) tick_ok work good
    → Keeps items tick_ok work good
Keeps-prefix items later k = record {
  step = λ tick x before after w t e g.
      k.step tick x before (after ++ later) w t
        (ap (λ l. l ++ later) e ∙ append_assoc before (x ∷ after) later) g;
}

last_split :
    {A : Type 0} {items : List A} (finished queued : List A) (x : A)
    → items ≡ finished ++ queued ++ []
    → items ++ x ∷ [] ≡ finished ++ (queued ++ x ∷ []) ++ []
last_split finished queued x e =
    ap (λ l. l ++ x ∷ []) (e ∙ append-nil (finished ++ queued))
    ∙ append_assoc finished queued (x ∷ [])
    ∙ sym (append-nil (finished ++ (queued ++ x ∷ [])))

-- With nothing left to push, the item becomes the last one, unless the queue refuses it.
pub push_once-Carried :
    {A Q W : Type 0} {queue : Queue A Q} {holds : Q → List A → Type 0} (fifo : IsFifo queue holds)
    (items : List A) (good : List A → W → Type 0) (x : A) (r : Relay A Q W)
    → Carried holds items good r
    → r.todo ≡ []
    → Carried holds
        (if (push_once queue x r).0 then items ++ x ∷ [] else items)
        good
        (push_once queue x r).1
push_once-Carried fifo items good x r c e = elim (fifo.push_ok x r.queue c.queued c.held) [
  | inl (taken, held) ↦ rw taken (record {
    queued = c.queued ++ x ∷ [];
    held = held;
    split =
        last_split r.finished c.queued x (rw e at c.split)
        ∙ ap (λ l. r.finished ++ (c.queued ++ x ∷ []) ++ l) (sym e);
    counted = c.counted;
    kept = c.kept;
  })
  | inr (refused, held, nonempty) ↦ rw refused (record {
    queued = c.queued;
    held = held;
    split = c.split;
    counted = c.counted;
    kept = c.kept;
  })
]

module _ {A Q W T : Type 0} {queue : Queue A Q} {holds : Q → List A → Type 0}
    (fifo : IsFifo queue holds) (goes_on : Bool → ℕ → Bool) {work : T → A → W → Exec W}
    {items : List A} {tick_ok : T → Type 0} {good : List A → W → Type 0}
    (keeps : Keeps items tick_ok work good) where
  produce_turn-todo :
      (todo : List A) (r : Relay A Q W)
      → todo ≡ []
      → r.todo ≡ []
      → (produce_turn queue goes_on work todo r).todo ≡ []
  produce_turn-todo [] r e h = h
  produce_turn-todo (x ∷ xs) r e h = absurd (cc)

  -- All items have been pushed.
  abbrev pub Pushed : Relay A Q W → Type 0
  Pushed r = Carried holds items good r × (r.todo ≡ [])

  take_turn-Pushed :
      (turn : Turn T) (r : Relay A Q W)
      → TickOk tick_ok turn
      → Pushed r
      → Returns Pushed (take_turn queue goes_on work turn r)
  unfolding take_turn
  take_turn-Pushed produce r t c =
      (take_turn-Carried fifo goes_on keeps produce r t c.0, produce_turn-todo r.todo r c.1 c.1)
  take_turn-Pushed (consume tick) r t c = elim (Bool-cases (goes_on r.running r.processed)) [
    | inl on ↦
        Returns-map (AfterPop fifo goes_on keeps c.0.queued r) Pushed
          (take_turn queue goes_on work (consume tick) r)
          (consume-AfterPop fifo goes_on keeps tick r on t c.0) (λ s a. (a.0, a.2 ∙ c.1))
    | inr over ↦ rw over c
  ]
  take_turn-Pushed stop r t c = (take_turn-Carried fifo goes_on keeps stop r t c.0, c.1)

  -- A schedule leaves nothing to push where nothing is left to push.
  pub run-Pushed :
      (turns : List (Turn T)) (r : Relay A Q W)
      → All (TickOk tick_ok) turns
      → Pushed r
      → Returns Pushed (run queue goes_on work turns r)
  unfolding run
  run-Pushed [] r t c = c
  run-Pushed (turn ∷ turns) r t c =
      Returns->>= Pushed Pushed (take_turn queue goes_on work turn r) _
        (take_turn-Pushed turn r t.0 c) (λ s k. run-Pushed turns s t.1 k)
