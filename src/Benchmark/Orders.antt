-- ===== src/Benchmark/Orders.antt =====
-- The synthetic orders of benchmark.cpp: new, numbered from 1 on, of live quantities.
use order_matching_engine.Base.{
  ℕ, suc, ◌+◌, ◌≡◌, refl, subst, List, [], ◌∷◌, ◌++◌, arith, length, All,
}
use order_matching_engine.Base.Exec.{ok, ◌>>=◌}
use order_matching_engine.Base.Int.{pos}
use order_matching_engine.Order.{Price, new, Command}
use order_matching_engine.OrderBook.Lots.{IsLot}
use order_matching_engine.Exchange.{Exchange}
use order_matching_engine.LatencyTracker.Bounds.{IsInstant}
use order_matching_engine.Server.Engine.{dispatch, dispatch_new, dispatch_all}
use order_matching_engine.Benchmark.{Sent, make_command, sent_commands}

-- Both stamps are clock readings below the bound.
abbrev pub IsSent : ℕ → Sent → Type 0
IsSent bound s = IsInstant bound s.recv × IsInstant bound s.push

module _ {P : Type 0} where
  -- What the consumer relies on for the command with this id.
  pub record IsBenchCommand (bound id : ℕ) (cmd : Command P) : Type 0 where
    pub type_new : cmd.type ≡ new
    pub same_id : cmd.order_id ≡ id
    pub lot : IsLot cmd.quantity
    pub untimed : cmd.timestamp ≡ pos 0
    pub recv : IsInstant bound cmd.ts_network_recv
    pub push : IsInstant bound cmd.ts_queue_push

module _ {P : Type 0} (halves : ℕ → P) where
  make_command-IsBenchCommand :
      (bound id : ℕ) (s : Sent)
      → IsSent bound s
      → IsBenchCommand bound id
          (record (make_command halves id) { ts_network_recv = s.recv; ts_queue_push = s.push })
  unfolding make_command
  make_command-IsBenchCommand bound id s h = record {
    type_new = refl;
    same_id = refl;
    lot = (omega arith, omega arith);
    untimed = refl;
    recv = h.0;
    push = h.1;
  }

  pub sent_commands-IsBenchCommand :
      (bound id : ℕ) (sents : List Sent) (before : List (Command P)) (x : Command P)
      (after : List (Command P))
      → All (IsSent bound) sents
      → sent_commands halves id sents ≡ before ++ x ∷ after
      → IsBenchCommand bound (id + length before) x
  unfolding sent_commands
  sent_commands-IsBenchCommand bound id [] [] x after h e = absurd (cc)
  sent_commands-IsBenchCommand bound id [] (b ∷ before) x after h e = absurd (cc)
  sent_commands-IsBenchCommand bound id (s ∷ sents) [] x after h e =
      let here = make_command-IsBenchCommand bound id s h.0 in
      let same : record (make_command halves id) {
        ts_network_recv = s.recv;
        ts_queue_push = s.push;
      }
          ≡ x =
        cc in
      let at : id ≡ id + 0 = omega arith in
      subst (λ n. IsBenchCommand bound n x) at (subst (IsBenchCommand bound id) same here)
  sent_commands-IsBenchCommand bound id (s ∷ sents) (b ∷ before) x after h e =
      let rest : sent_commands halves (suc id) sents ≡ before ++ x ∷ after = cc in
      let at : suc id + length before ≡ id + suc (length before) = omega arith in
      subst (λ n. IsBenchCommand bound n x) at
        (sent_commands-IsBenchCommand bound (suc id) sents before x after h.1 rest)

  pub length-sent_commands :
      (id : ℕ) (sents : List Sent) → length (sent_commands halves id sents) ≡ length sents
  unfolding sent_commands
  length-sent_commands id [] = refl
  length-sent_commands id (s ∷ sents) = omega (arith, length-sent_commands (suc id) sents)

module _ {P : Type 0} ⦃d : Price P⦄ (halves : ℕ → P) where
  -- The stamps make no difference to the exchange.
  pub dispatch_all-stamps :
      (id : ℕ) (sents sents' : List Sent) (ex : Exchange P)
      → length sents ≡ length sents'
      → dispatch_all (sent_commands halves id sents) ex
        ≡ dispatch_all (sent_commands halves id sents') ex
  unfolding sent_commands dispatch_all dispatch dispatch_new make_command
  dispatch_all-stamps id [] [] ex e = refl
  dispatch_all-stamps id [] (t ∷ sents') ex e = absurd (omega (arith, e))
  dispatch_all-stamps id (s ∷ sents) [] ex e = absurd (omega (arith, e))
  dispatch_all-stamps id (s ∷ sents) (t ∷ sents') ex e = λ i.
      dispatch_new (make_command halves id) ex >>= λ r.
      dispatch_all-stamps (suc id) sents sents' r.1 (omega arith) i >>= λ rs. ok (r.0 ++ rs.0, rs.1)
