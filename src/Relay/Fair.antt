-- ===== src/Relay/Fair.antt =====
-- Fair schedules: their rounds, and what each of them does.
use order_matching_engine.Base.{
  ℕ, suc, ◌+◌, ◌<◌, ◌≤◌, ◌≡◌, refl, ap, ◌∙◌, sym, ◌⊎◌, inl, inr, Bool, true, false, List, [], ◌∷◌,
  ◌++◌, arith, length, length-append, Bool-cases, All, ltb,
}
use mathlib.Core.Bool.{false≢true}
use order_matching_engine.Base.Exec.{Exec, Returns, Returns->>=, Returns-map}
use order_matching_engine.Queue.{Queue, IsFifo}
use order_matching_engine.Relay.{Turn, produce, consume, stop, Relay, produce_turn, take_turn, run}
use order_matching_engine.Relay.Carry.{
  Keeps, rest_of, Carried, finished_all, AfterPush, produce_turn-AfterPush, AfterPop,
  consume-AfterPop,
}

-- The rounds of a schedule: a turn of the pushing thread, and later one of the popping thread. `armed`
-- says that the first has been seen.
abbrev pub rounds : {T : Type 0} → Bool → List (Turn T) → ℕ
rounds armed [] = 0
rounds armed (produce ∷ turns) = rounds true turns
rounds true (consume tick ∷ turns) = suc (rounds false turns)
rounds false (consume tick ∷ turns) = rounds false turns
rounds armed (stop ∷ turns) = rounds armed turns

-- A turn that does not clear the flag, and whose clock reading is fine.
abbrev pub GoingOk : {T : Type 0} → (T → Type 0) → Turn T → Type 0
GoingOk P produce = Unit
GoingOk P (consume tick) = P tick
GoingOk P stop = ⊥

module _ {A Q W T : Type 0} {queue : Queue A Q} {holds : Q → List A → Type 0}
    (fifo : IsFifo queue holds) (goes_on : Bool → ℕ → Bool) {work : T → A → W → Exec W}
    {items : List A} {tick_ok : T → Type 0} {good : List A → W → Type 0}
    (keeps : Keeps items tick_ok work good) (running : Bool) where
  -- With this flag, the loop of the popping thread goes on while something is left to do.
  abbrev pub GoesOn : Type 0
  GoesOn = (n : ℕ) → n < length items → goes_on running n ≡ true

  -- An armed thread finds an item in the queue, unless all are finished.
  abbrev Ready : Bool → List A → ℕ → Type 0
  Ready false queued processed = Unit
  Ready true queued processed = (0 < length queued) ⊎ (length items ≤ processed)

  record Going (armed : Bool) (r : Relay A Q W) : Type 0 where
    pub carried : Carried holds items good r
    pub ready : Ready armed carried.queued r.processed
    pub on : r.running ≡ running

  -- At least `n` items more than before are finished, or all are.
  abbrev Advanced : ℕ → Relay A Q W → Relay A Q W → Type 0
  Advanced n r s = (length items ≤ s.processed) ⊎ (r.processed + n ≤ s.processed)

  length-items :
      (r : Relay A Q W) (c : Carried holds items good r)
      → length items ≡ r.processed + length c.queued + length r.todo
  length-items r c =
      let e = ap length c.split in
      omega (
        arith,
        e,
        length-append (r.finished ++ c.queued) r.todo,
        length-append r.finished c.queued,
        c.counted,
      )

  drained :
      (r : Relay A Q W) (c : Carried holds items good r)
      → [] ≡ r.todo
      → Ready true c.queued r.processed
  drained r c e = ground (arith, length-items r c, ap length e)

  produce-Going :
      (r s : Relay A Q W) (a : AfterPush fifo goes_on keeps r s)
      → r.running ≡ running
      → Going true s
  produce-Going r s a e = record {
    carried = a.0;
    ready = elim a.1 [ inl some ↦ inl some | inr none ↦ drained s a.0 none ];
    on = a.2 ∙ e;
  }

  -- What a turn of the popping thread does to the number of finished items.
  abbrev gain : Bool → ℕ
  gain true = 1
  gain false = 0

  rest_length :
      (xs : List A)
      → (length xs ≡ 0 × length (rest_of xs) ≡ 0) ⊎ (length xs ≡ suc (length (rest_of xs)))
  rest_length [] = inl (refl, refl)
  rest_length (x ∷ xs) = inr (omega arith)

  -- A pop finishes an item if there was one in the queue.
  popped_count :
      (r : Relay A Q W) (c : Carried holds items good r) (s : Relay A Q W)
      → AfterPop fifo goes_on keeps c.queued r s
      → (length c.queued ≡ 0 × s.processed ≡ r.processed) ⊎ (s.processed ≡ suc r.processed)
  popped_count r c s a =
      let before = length-items r c in
      let after = length-items s a.0 in
      let left = ap length a.1 in
      let waiting = ap length a.2 in
      elim (rest_length c.queued) [
        | inl (none, rest) ↦ inl (none, omega arith)
        | inr some ↦ inr (omega arith)
      ]

  popped-Advanced :
      (armed : Bool) (r : Relay A Q W) (c : Carried holds items good r) (s : Relay A Q W)
      → Ready armed c.queued r.processed
      → AfterPop fifo goes_on keeps c.queued r s
      → Advanced (gain armed) r s
  popped-Advanced false r c s h a = ground (arith, popped_count r c s a)
  popped-Advanced true r c s h a = ground (arith, popped_count r c s a)

  consume-Going :
      (armed : Bool) (tick : T) (r : Relay A Q W)
      → GoesOn
      → tick_ok tick
      → Going armed r
      → Returns
          (λ (s : Relay A Q W). Going false s × Advanced (gain armed) r s)
          (take_turn queue goes_on work (consume tick) r)
  unfolding take_turn
  consume-Going armed tick r on t g = elim (Bool-cases (goes_on r.running r.processed)) [
    | inl more ↦
        Returns-map (AfterPop fifo goes_on keeps g.carried.queued r)
          (λ (s : Relay A Q W). Going false s × Advanced (gain armed) r s)
          (take_turn queue goes_on work (consume tick) r)
          (consume-AfterPop fifo goes_on keeps tick r more t g.carried)
          (λ s a. (
            record { carried = a.0; ready = tt; on = a.3 ∙ g.on },
            popped-Advanced armed r g.carried s g.ready a,
          ))
    | inr over ↦ stopped over (finished over)
  ]
    where
      finished : goes_on r.running r.processed ≡ false → length items ≤ r.processed
      finished over = elim (Bool-cases (ltb r.processed (length items))) [
        | inl less ↦
            let yes : goes_on r.running r.processed ≡ true =
              rw g.on (on r.processed (ground arith)) in
            absurd (false≢true (sym over ∙ yes))
        | inr not_less ↦ ground arith
      ]

      stopped :
          goes_on r.running r.processed ≡ false
          → length items ≤ r.processed
          → Returns
              (λ (s : Relay A Q W). Going false s × Advanced (gain armed) r s)
              (take_turn queue goes_on work (consume tick) r)
      stopped over h = rw over (record { carried = g.carried; ready = tt; on = g.on }, inl h)

  Advanced-trans :
      (m n k : ℕ) (r s u : Relay A Q W)
      → k ≤ m + n
      → Advanced m r s
      → Advanced n s u
      → Advanced k r u
  Advanced-trans m n k r s u e g h = ground arith

  produce-processed :
      (todo : List A) (r : Relay A Q W)
      → (produce_turn queue goes_on work todo r).processed ≡ r.processed
  produce-processed [] r = refl
  produce-processed (x ∷ xs) r = refl

  run-Going :
      (turns : List (Turn T)) (armed : Bool) (r : Relay A Q W)
      → GoesOn
      → All (GoingOk tick_ok) turns
      → Going armed r
      → Returns
          (λ (s : Relay A Q W). Carried holds items good s × Advanced (rounds armed turns) r s)
          (run queue goes_on work turns r)
  unfolding run take_turn
  run-Going [] armed r on t g = (g.carried, inr (omega arith))
  run-Going (produce ∷ turns) armed r on t g =
      let r' = produce_turn queue goes_on work r.todo r in
      Returns-map _ _ (run queue goes_on work turns r')
        (run-Going turns true r' on t.1 (
          produce-Going r r' (produce_turn-AfterPush fifo goes_on keeps r.todo r refl g.carried)
            g.on))
        (λ s h. (h.0, rw (← produce-processed r.todo r) h.1))
  run-Going (consume tick ∷ turns) true r on t g =
      Returns->>= (λ (s : Relay A Q W). Going false s × Advanced 1 r s) _
        (take_turn queue goes_on work (consume tick) r) _ (consume-Going true tick r on t.0 g)
        (λ s h.
          Returns-map _ _ (run queue goes_on work turns s) (run-Going turns false s on t.1 h.0)
            (λ u k. (
              k.0,
              Advanced-trans 1 (rounds false turns) (suc (rounds false turns)) r s u (omega arith)
                  h.1 k.1,
            )))
  run-Going (consume tick ∷ turns) false r on t g =
      Returns->>= (λ (s : Relay A Q W). Going false s × Advanced 0 r s) _
        (take_turn queue goes_on work (consume tick) r) _ (consume-Going false tick r on t.0 g)
        (λ s h.
          Returns-map _ _ (run queue goes_on work turns s) (run-Going turns false s on t.1 h.0)
            (λ u k. (
              k.0,
              Advanced-trans 0 (rounds false turns) (rounds false turns) r s u (omega arith) h.1
                  k.1,
            )))
  run-Going (stop ∷ turns) armed r on t g = absurd t.0

  -- A fair schedule finishes: whatever the order of its turns, as many rounds of it (a turn of the pushing
  -- thread, and later one of the popping thread) as items are left finish them all, in order.
  pub run-fair :
      (turns : List (Turn T)) (r : Relay A Q W)
      → GoesOn
      → All (GoingOk tick_ok) turns
      → r.running ≡ running
      → Carried holds items good r
      → length items ≤ r.processed + rounds false turns
      → Returns
          (λ (s : Relay A Q W).
            (s.processed ≡ length items) × (items ≡ s.finished) × good s.finished s.worker)
          (run queue goes_on work turns r)
  run-fair turns r on t e c enough =
      Returns-map _ _ (run queue goes_on work turns r)
        (run-Going turns false r on t (record { carried = c; ready = tt; on = e }))
        (λ s h.
          let all : s.processed ≡ length items = ground (arith, length-items s h.0) in
          (all, sym (finished_all s h.0 all), h.0.kept))
