-- ===== src/Network/Closed/Turns.antt =====
-- src/network/mod.rs: the event loop keeps what the requests and the events at its turns keep.
use saved.Base.{ℕ, ◌≡◌, false, inl, inr, some, List, [], ◌∷◌, Bool-cases, Option-cases}
use saved.Libp2p.{Libp2p}
use saved.Network.State.{SavedNetwork, Swarm, Outcome, ok, err, unfinished}
use saved.Network.Events.{SwarmEvent, on_swarm_event}
use saved.Network.Rpc.{SavedNetworkRpc, dispatch_rpc}
use saved.Network.{Ready, Status, stopped, running, hung, turn, event_loop, after_event}
use saved.Network.Closed.{Keeps}
use saved.Network.Shutdown.{continue, event_loop-step}

module _ ⦃L : Libp2p⦄ ⦃S : Swarm⦄ (P : SavedNetwork → Type 0) (fuel : ℕ) where
  after_event-Keeps : (r : Outcome (Unit {0}) × SavedNetwork) → P r.1 → P (after_event r).1
  after_event-Keeps (unfinished, s) h = h
  after_event-Keeps (ok a, s) h = h
  after_event-Keeps (err e, s) h = h

  -- The request and the event at a turn are ones that keep the property.
  abbrev pub Allows : Ready → Type 0
  Allows ready =
      ((rpc : SavedNetworkRpc) → ready.command ≡ some rpc → Keeps P (dispatch_rpc rpc))
      × ((now : ℕ) (event : SwarmEvent)
          → ready.event ≡ some (now, event)
          → Keeps P (on_swarm_event fuel now event))

  abbrev pub AllAllow : List Ready → Type 0
  AllAllow [] = Unit {0}
  AllAllow (ready ∷ turns) =
      ((rpc : SavedNetworkRpc) → ready.command ≡ some rpc → Keeps P (dispatch_rpc rpc))
      × ((now : ℕ) (event : SwarmEvent)
          → ready.event ≡ some (now, event)
          → Keeps P (on_swarm_event fuel now event))
      × AllAllow turns

  command_or_event-Keeps :
      (ready : Ready) (s : SavedNetwork)
      → Allows ready
      → P s
      → ready.shutdown ≡ false
      → ready.tick ≡ false
      → P (turn fuel ready s).1
  unfolding turn
  command_or_event-Keeps ready s k h a b = elim (Option-cases ready.command) [
    | inr (rpc, c) ↦ rw (a, b, c, turn) (k.0 rpc c s h)
    | inl c ↦ elim (Option-cases ready.event) [
      | inl e ↦ rw (a, b, c, e, turn) h
      | inr ((now, event), e) ↦ rw (a, b, c, e, turn) (after_event-Keeps _ (k.1 now event e s h))
    ]
  ]

  pub turn-Keeps : (ready : Ready) (s : SavedNetwork) → Allows ready → P s → P (turn fuel ready s).1
  unfolding turn
  turn-Keeps ready s k h = elim (Bool-cases ready.shutdown) [
    | inl a ↦ rw (a, turn) h
    | inr a ↦ elim (Bool-cases ready.tick) [
      | inl b ↦ rw (a, b, turn) h
      | inr b ↦ command_or_event-Keeps ready s k h a b
    ]
  ]

  continue_all :
      (turns : List Ready) (r : Status × SavedNetwork)
      → ((s : SavedNetwork) → P s → P (event_loop fuel turns s).1)
      → P r.1
      → P (continue fuel turns r).1
  continue_all turns (running, s) k h = k s h
  continue_all turns (stopped, s) k h = h
  continue_all turns (hung, s) k h = h

  pub event_loop-Keeps :
      (turns : List Ready) (s : SavedNetwork) → AllAllow turns → P s → P (event_loop fuel turns s).1
  unfolding event_loop
  event_loop-Keeps [] s k h = h
  event_loop-Keeps (ready ∷ turns) s (a, b, k) h = rw (event_loop-step fuel ready turns s) (
      continue_all turns (turn fuel ready s) (λ t g. event_loop-Keeps turns t k g)
        (turn-Keeps ready s (a, b) h))

  pub continue-Keeps :
      (turns : List Ready) (r : Status × SavedNetwork)
      → AllAllow turns
      → P r.1
      → P (continue fuel turns r).1
  continue-Keeps turns r k h = continue_all turns r (λ s g. event_loop-Keeps turns s k g) h
