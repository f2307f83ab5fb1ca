-- ===== src/Server/Replay.antt =====
-- What a list of commands leaves of the empty exchange, one command at a time.
use order_matching_engine.Base.{◌≡◌, ◌∙◌, sym, subst, List, [], ◌∷◌, ◌++◌, refl}
use order_matching_engine.Base.Exec.{Exec, ok, undefined, out_of_fuel, ◌>>=◌, Returns}
use order_matching_engine.Order.{Price, Command}
use order_matching_engine.Report.{Report}
use order_matching_engine.Exchange.{Exchange, empty_exchange}
use order_matching_engine.Server.Engine.{dispatch, dispatch_all}

module _ {P : Type 0} ⦃d : Price P⦄ where
  -- A call returns, and leaves this exchange.
  abbrev pub Leaves : Exchange P → Exec (List (Report P) × Exchange P) → Type 0
  Leaves ex m = Returns (λ (r : List (Report P) × Exchange P). r.1 ≡ ex) m

  -- Doing the commands in turn, from the empty exchange, leaves this one.
  abbrev pub Replays : List (Command P) → Exchange P → Type 0
  Replays cmds ex = Leaves ex (dispatch_all cmds empty_exchange)

  -- A call leaves the exchange that it returns.
  pub Leaves-self :
      (m : Exec (List (Report P) × Exchange P)) (Q : Exchange P → Type 0)
      → Returns (λ (r : List (Report P) × Exchange P). Q r.1) m
      → Returns (λ (r : List (Report P) × Exchange P). Q r.1 × Leaves r.1 m) m
  Leaves-self (ok r) Q h = (h, refl)
  Leaves-self undefined Q h = absurd h
  Leaves-self out_of_fuel Q h = absurd h

  Leaves-dispatch :
      (cmd : Command P) (ex ex' : Exchange P)
      → Leaves ex' (dispatch cmd ex)
      → Leaves ex' (dispatch_all (cmd ∷ []) ex)
  unfolding dispatch_all
  Leaves-dispatch cmd ex ex' h = ended (dispatch cmd ex) h
    where
      ended :
          (m : Exec (List (Report P) × Exchange P))
          → Leaves ex' m
          → Leaves ex' (m >>= λ r. dispatch_all [] r.1 >>= λ rs. ok (r.0 ++ rs.0, rs.1))
      ended (ok r) k = k
      ended undefined k = absurd k
      ended out_of_fuel k = absurd k

  -- One more command at the end.
  pub Leaves-snoc :
      (cmds : List (Command P)) (cmd : Command P) (ex mid last : Exchange P)
      → Leaves mid (dispatch_all cmds ex)
      → Leaves last (dispatch cmd mid)
      → Leaves last (dispatch_all (cmds ++ cmd ∷ []) ex)
  unfolding dispatch_all
  Leaves-snoc [] cmd ex mid last h k =
      Leaves-dispatch cmd ex last (subst (λ e. Leaves last (dispatch cmd e)) (sym h) k)
  Leaves-snoc (c ∷ cmds) cmd ex mid last h k =
      first (dispatch c ex) (λ e g. Leaves-snoc cmds cmd e mid last g k) h
    where
      rest :
          (r : List (Report P) × Exchange P) (m m' : Exec (List (Report P) × Exchange P))
          → (Leaves mid m → Leaves last m')
          → Leaves mid (m >>= λ rs. ok (r.0 ++ rs.0, rs.1))
          → Leaves last (m' >>= λ rs. ok (r.0 ++ rs.0, rs.1))
      rest r (ok a) (ok b) f h = f h
      rest r (ok a) undefined f h = f h
      rest r (ok a) out_of_fuel f h = f h
      rest r undefined m' f h = absurd h
      rest r out_of_fuel m' f h = absurd h

      first :
          (m : Exec (List (Report P) × Exchange P))
          → ((e : Exchange P)
              → Leaves mid (dispatch_all cmds e)
              → Leaves last (dispatch_all (cmds ++ cmd ∷ []) e))
          → Leaves mid (m >>= λ r. dispatch_all cmds r.1 >>= λ rs. ok (r.0 ++ rs.0, rs.1))
          → Leaves last
              (m >>= λ r. dispatch_all (cmds ++ cmd ∷ []) r.1 >>= λ rs. ok (r.0 ++ rs.0, rs.1))
      first (ok r) more h =
          rest r (dispatch_all cmds r.1) (dispatch_all (cmds ++ cmd ∷ []) r.1) (more r.1) h
      first undefined more h = absurd h
      first out_of_fuel more h = absurd h

  -- Two exchanges that the same commands leave are equal.
  pub Leaves-unique :
      (m : Exec (List (Report P) × Exchange P)) (ex ex' : Exchange P)
      → Leaves ex m
      → Leaves ex' m
      → ex ≡ ex'
  Leaves-unique (ok r) ex ex' h k = sym h ∙ k
  Leaves-unique undefined ex ex' h k = absurd h
  Leaves-unique out_of_fuel ex ex' h k = absurd h
