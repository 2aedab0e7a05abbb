-- ===== src/Network/Shutdown.antt =====
-- src/network/mod.rs: the turns of `event_loop`, and the shutdown signal.
use saved.Base.{ℕ, ◌≡◌, refl, ◌∙◌, true, List, [], ◌∷◌, ◌++◌, arith}
use saved.Libp2p.{Libp2p}
use saved.Network.State.{SavedNetwork, Swarm}
use saved.Network.{Ready, Status, stopped, running, hung, turn, event_loop}

module _ ⦃L : Libp2p⦄ ⦃S : Swarm⦄ where
  -- A loop that still runs is stopped; one that has ended is left as it is.
  abbrev pub stop : Status × SavedNetwork → Status × SavedNetwork
  stop (running, s) = (stopped, s)
  stop (stopped, s) = (stopped, s)
  stop (hung, s) = (hung, s)

  turn-shutdown :
      (fuel : ℕ) (ready : Ready) (s : SavedNetwork)
      → ready.shutdown ≡ true
      → turn fuel ready s ≡ (stopped, s)
  unfolding turn
  turn-shutdown fuel ready s h = rw (h, turn) refl

  -- The rest of the loop after a turn.
  abbrev pub continue : ℕ → List Ready → Status × SavedNetwork → Status × SavedNetwork
  continue fuel turns (running, s) = event_loop fuel turns s
  continue fuel turns (stopped, s) = (stopped, s)
  continue fuel turns (hung, s) = (hung, s)

  pub event_loop-step :
      (fuel : ℕ) (ready : Ready) (turns : List Ready) (s : SavedNetwork)
      → event_loop fuel (ready ∷ turns) s ≡ continue fuel turns (turn fuel ready s)
  unfolding event_loop
  event_loop-step fuel ready turns s = ground arith

  continue-shutdown :
      (fuel : ℕ) (front back : List Ready) (r : Status × SavedNetwork)
      → ((s : SavedNetwork) → event_loop fuel back s ≡ stop (event_loop fuel front s))
      → continue fuel back r ≡ stop (continue fuel front r)
  continue-shutdown fuel front back (running, s) h = h s
  continue-shutdown fuel front back (stopped, s) h = refl
  continue-shutdown fuel front back (hung, s) h = refl

  -- At a turn with the shutdown signal, a loop that still runs stops in the state that it has
  -- reached, and nothing that is ready at a later turn has an effect.
  pub event_loop-shutdown :
      (fuel : ℕ) (front back : List Ready) (ready : Ready) (s : SavedNetwork)
      → ready.shutdown ≡ true
      → event_loop fuel (front ++ ready ∷ back) s ≡ stop (event_loop fuel front s)
  unfolding event_loop
  event_loop-shutdown fuel [] back ready s h =
      event_loop-step fuel ready back s ∙ rw (turn-shutdown fuel ready s h) refl
  event_loop-shutdown fuel (first ∷ front) back ready s h =
      event_loop-step fuel first (front ++ ready ∷ back) s
      ∙ rw (event_loop-step fuel first front s) (
          continue-shutdown fuel front (front ++ ready ∷ back) (turn fuel first s)
            (λ t. event_loop-shutdown fuel front back ready t h))
