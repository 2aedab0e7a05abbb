-- ===== src/Main/Triples.antt =====
-- src/main.rs: what holds of the network from one call through the handle to the next, as triples
-- of a property before, a part of the program and a property after.
use saved.Base.{ℕ, ◌≡◌, ◌≢◌, refl, Bool, true, false, none, List, [], ◌∷◌, map}
use saved.Libp2p.{Libp2p}
use saved.Keygen.{Crypto}
use saved.Network.State.{SavedNetwork, kad_disabled, Swarm, Outcome, ok, err, unfinished}
use saved.Network.External.{Platform}
use saved.Network.Rpc.{SavedNetworkRpc, dispatch_rpc, handle_call}
use saved.Network.{Status, stopped, running, hung, turn}
use saved.Network.Closed.{IsClosed}
use saved.Network.Closed.Loop.{AllAllow, continue-Keeps}
use saved.Main.{
  Exit, returns, fails, panics, hangs, Input, ready_of, Session, Schedule, Run, then_run, ◌>>◌,
  exit_of, wait, asks, answer, call,
}

module _ ⦃L : Libp2p⦄ where
  -- A part of the program ends without the error `KadDisabled`, and with `Q` where it returns.
  abbrev pub Ends : (SavedNetwork → Type 0) → {A : Type 0} → Exit A × Session → Type 0
  Ends Q (returns a, w) = Q w.task.1
  Ends Q (fails e, w) = e ≢ kad_disabled
  Ends Q (panics, w) = Unit {0}
  Ends Q (hangs, w) = Unit {0}

  abbrev pub Triple :
      (SavedNetwork → Type 0) → {A : Type 0} → Run A → (SavedNetwork → Type 0) → Type 0
  Triple P m Q = (w : Session) → P w.task.1 → Ends Q (m w)

  -- The same of a method of the network.
  abbrev pub Answers : (SavedNetwork → Type 0) → {A : Type 0} → Outcome A × SavedNetwork → Type 0
  Answers Q (ok a, s) = Q s
  Answers Q (err e, s) = e ≢ kad_disabled
  Answers Q (unfinished, s) = Unit {0}

  then_run-Ends :
      (Q R : SavedNetwork → Type 0) {A B : Type 0} (r : Exit A × Session) (k : Run B)
      → Ends Q r
      → Triple Q k R
      → Ends R (then_run r (λ _. k))
  then_run-Ends Q R (returns a, w) k h t = t w h
  then_run-Ends Q R (fails e, w) k h t = h
  then_run-Ends Q R (panics, w) k h t = tt
  then_run-Ends Q R (hangs, w) k h t = tt

  pub Triple-then :
      (P Q R : SavedNetwork → Type 0) {A B : Type 0} (m : Run A) (k : Run B)
      → Triple P m Q
      → Triple Q k R
      → Triple P (m >> k) R
  Triple-then P Q R m k a b w h = then_run-Ends Q R (m w) k (a w h) b

module _ ⦃L : Libp2p⦄ ⦃S : Swarm⦄ ⦃C : Crypto⦄ ⦃T : Platform⦄ where
  none_asked :
      (P : SavedNetwork → Type 0) (K : IsClosed P) (inputs : List Input)
      → AllAllow P K (map ready_of inputs)
  none_asked P K [] = tt
  none_asked P K (input ∷ inputs) = ((λ rpc e. cc), none_asked P K inputs)

  pub wait_lem :
      (P : SavedNetwork → Type 0) (K : IsClosed P) (plan : Schedule) (w : Session)
      → P w.task.1
      → P (wait plan w).1
  wait_lem P K plan w h =
      continue-Keeps P K plan.fuel (map ready_of (plan.between w.calls)) w.task
        (none_asked P K (plan.between w.calls)) h

  turn-asks :
      (fuel : ℕ) (r : SavedNetworkRpc) (s : SavedNetwork)
      → turn fuel (asks r) s ≡ (running, (dispatch_rpc r s).1)
  unfolding turn
  turn-asks fuel r s = refl

  answered :
      (Q : SavedNetwork → Type 0) {A : Type 0} (o : Outcome A × SavedNetwork) (w : Session)
      → Answers Q o
      → w.task.1 ≡ o.1
      → Ends Q (exit_of o.0, w)
  answered Q (ok a, s) w h e = rw e h
  answered Q (err x, s) w h e = h
  answered Q (unfinished, s) w h e = tt

  lost :
      (Q : SavedNetwork → Type 0) (r : SavedNetworkRpc) (sent : Bool) (w : Session)
      → Ends Q (exit_of (handle_call r sent none), w)
  unfolding handle_call
  lost Q r true w = λ e. cc
  lost Q r false w = λ e. cc

  answer-Ends :
      (P Q : SavedNetwork → Type 0) (plan : Schedule) (r : SavedNetworkRpc) (calls : ℕ)
      (task : Status × SavedNetwork)
      → P task.1
      → ((s : SavedNetwork) → P s → Answers Q (dispatch_rpc r s))
      → Ends Q (answer plan r calls task)
  unfolding answer handle_call
  answer-Ends P Q plan r calls (running, s) h k =
      answered Q (dispatch_rpc r s) _ (k s h) (rw (turn-asks plan.fuel r s) refl)
  answer-Ends P Q plan r calls (stopped, s) h k = lost Q r (plan.sent calls) _
  answer-Ends P Q plan r calls (hung, s) h k = tt

  -- A call waits for some turns of the loop, and then its request is dispatched.
  pub call-Triple :
      (P Q : SavedNetwork → Type 0) (K : IsClosed P) (plan : Schedule) (r : SavedNetworkRpc)
      → ((s : SavedNetwork) → P s → Answers Q (dispatch_rpc r s))
      → Triple P (call plan r) Q
  unfolding call
  call-Triple P Q K plan r k w h =
      answer-Ends P Q plan r w.calls (wait plan w) (wait_lem P K plan w h) k
