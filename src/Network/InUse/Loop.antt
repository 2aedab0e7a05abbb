-- ===== src/Network/InUse/Loop.antt =====
-- src/network/mod.rs: the relays in use after the turns of the event loop, from the start of the node.
use saved.Base.{
  ℕ, suc, none, ◌≡◌, refl, sym, ap, ◌∙◌, Bool, true, false, inl, inr, some, List, [], ◌∷◌,
  Bool-cases, Option-cases,
}
use saved.Libp2p.{Libp2p}
use saved.Keygen.{Crypto}
use saved.View.Spec.{connectivity}
use saved.Network.State.{SavedNetwork, Swarm, Outcome, ok, err, unfinished}
use saved.Network.External.{Platform}
use saved.Network.Events.{SwarmEvent, on_swarm_event}
use saved.Network.Rpc.{SavedNetworkRpc, dispatch_rpc}
use saved.Network.{
  Ready, Status, stopped, running, hung, turn, after_event, event_loop, initial, new,
}
use saved.Network.Requests.{request-view, request-relays}
use saved.Network.Shutdown.{continue, event_loop-step}
use saved.Network.Start.{new-Keeps, new-IsValid}
use saved.Network.Closed.Turns.{turn-Keeps}
use saved.Network.Invariant.{IsValid}
use saved.Network.Invariant.Loop.{dispatch_rpc-Keeps, on_swarm_event-IsValid}
use saved.Network.Announced.Told.{IsListened}
use saved.Network.Announced.Loop.{expires, NoExpiry}
use saved.Network.Unaffected.Events.{updates}
use saved.Network.InUse.{IsInUse, at-IsInUse, empty-IsInUse, on_swarm_event-IsInUse}
use saved.Network.InUse.Returns.{
  fails, IsMdnsStartable, IsAccepting, updates-NoErr, updates-returns,
}

module _ ⦃L : Libp2p⦄ where
  -- The loop is in a handler that does not return.
  abbrev pub hangs : Status → Bool
  hangs hung = true
  hangs status = false

module _ ⦃L : Libp2p⦄ ⦃S : Swarm⦄ where
  after_event-same : (r : Outcome (Unit {0}) × SavedNetwork) → (after_event r).1 ≡ r.1
  after_event-same (ok a, s) = refl
  after_event-same (err e, s) = refl
  after_event-same (unfinished, s) = refl

  returned :
      (r : Outcome (Unit {0}) × SavedNetwork)
      → fails false r.0 ≡ false
      → hangs (after_event r).0 ≡ false
      → r.0 ≡ ok tt
  returned (ok a, s) e h = refl
  returned (err x, s) e h = cc
  returned (unfinished, s) e h = cc

  request-IsInUse :
      (rpc : SavedNetworkRpc) (s : SavedNetwork) → IsInUse s → IsInUse (dispatch_rpc rpc s).1
  request-IsInUse rpc s =
      at-IsInUse s (dispatch_rpc rpc s).1 (request-relays rpc s)
        (ap (λ v. (connectivity v).at) (request-view rpc s))

module _ ⦃L : Libp2p⦄ ⦃S : Swarm⦄ (fuel : ℕ) (l : IsListened) (i : IsMdnsStartable) where
  event-IsInUse :
      (now : ℕ) (event : SwarmEvent) (s : SavedNetwork)
      → expires (some (now, event)) ≡ false
      → IsValid s
      → IsInUse s
      → hangs (after_event (on_swarm_event fuel now event s)).0 ≡ false
      → IsInUse (after_event (on_swarm_event fuel now event s)).1
  event-IsInUse now event s x v h runs =
      let r = on_swarm_event fuel now event s in
      rw (after_event-same r) (
        on_swarm_event-IsInUse fuel now event s x v h
          (λ u. returned r (updates-NoErr fuel now event s u l i) runs))

  turn-IsInUse :
      (ready : Ready) (s : SavedNetwork)
      → expires ready.event ≡ false
      → IsValid s
      → IsInUse s
      → hangs (turn fuel ready s).0 ≡ false
      → IsInUse (turn fuel ready s).1
  unfolding turn
  turn-IsInUse ready s x v h runs = elim (Bool-cases ready.shutdown) [
    | inl a ↦ rw (a, turn) h
    | inr a ↦ elim (Bool-cases ready.tick) [
      | inl b ↦ rw (a, b, turn) h
      | inr b ↦ elim (Option-cases ready.command) [
        | inr (rpc, c) ↦ rw (a, b, c, turn) (request-IsInUse rpc s h)
        | inl c ↦ elim (Option-cases ready.event) [
          | inl e ↦ rw (a, b, c, e, turn) h
          | inr ((now, event), e) ↦
              rw (a, b, c, e, turn)
                (event-IsInUse now event s (ap expires (sym e) ∙ x) v h
                  (rw (a, b, c, e, turn) at runs))
        ]
      ]
    ]
  ]

  turn-IsValid : (ready : Ready) (s : SavedNetwork) → IsValid s → IsValid (turn fuel ready s).1
  turn-IsValid ready s =
      turn-Keeps IsValid fuel ready s
        ((λ rpc _. dispatch_rpc-Keeps rpc), (λ now event _. on_swarm_event-IsValid fuel now event))

  continue-IsInUse :
      (turns : List Ready) (r : Status × SavedNetwork)
      → ((s : SavedNetwork)
          → IsValid s
          → IsInUse s
          → hangs (event_loop fuel turns s).0 ≡ false
          → IsInUse (event_loop fuel turns s).1)
      → IsValid r.1
      → (hangs r.0 ≡ false → IsInUse r.1)
      → hangs (continue fuel turns r).0 ≡ false
      → IsInUse (continue fuel turns r).1
  continue-IsInUse turns (running, s) k v h runs = k s v (h refl) runs
  continue-IsInUse turns (stopped, s) k v h runs = h refl
  continue-IsInUse turns (hung, s) k v h runs = cc

  turns-IsInUse :
      (turns : List Ready) (s : SavedNetwork)
      → NoExpiry turns
      → IsValid s
      → IsInUse s
      → hangs (event_loop fuel turns s).0 ≡ false
      → IsInUse (event_loop fuel turns s).1
  unfolding event_loop
  turns-IsInUse [] s x v h runs = h
  turns-IsInUse (ready ∷ turns) s (x, rest) v h runs =
      let step = event_loop-step fuel ready turns s in
      rw step (
        continue-IsInUse turns (turn fuel ready s) (λ t. turns-IsInUse turns t rest)
          (turn-IsValid ready s v) (turn-IsInUse ready s x v h)
          (ap (λ r. hangs r.0) (sym step) ∙ runs))

module _ ⦃L : Libp2p⦄ where
  -- No event at a turn but those of connections and of accepted reservations.
  abbrev pub AllUpdate : List Ready → Type 0
  AllUpdate [] = Unit {0}
  AllUpdate (ready ∷ turns) =
      (elim ready.event [ none ↦ true | some (now, event) ↦ updates event ] ≡ true)
      × AllUpdate turns

module _ ⦃L : Libp2p⦄ ⦃S : Swarm⦄ (fuel : ℕ) (l : IsListened) (i : IsMdnsStartable)
    (a : IsAccepting) where
  runs_after :
      (r : Outcome (Unit {0}) × SavedNetwork)
      → fails true r.0 ≡ false
      → hangs (after_event r).0 ≡ false
  runs_after (ok x, s) h = refl
  runs_after (err e, s) h = refl
  runs_after (unfinished, s) h = cc

  turn-runs :
      (ready : Ready) (s : SavedNetwork)
      → elim ready.event [ none ↦ true | some (now, event) ↦ updates event ] ≡ true
      → hangs (turn (suc fuel) ready s).0 ≡ false
  unfolding turn
  turn-runs ready s h = elim (Bool-cases ready.shutdown) [
    | inl b ↦ rw (b, turn) refl
    | inr b ↦ elim (Bool-cases ready.tick) [
      | inl c ↦ rw (b, c, turn) refl
      | inr c ↦ elim (Option-cases ready.command) [
        | inr (rpc, d) ↦ rw (b, c, d, turn) refl
        | inl d ↦ elim (Option-cases ready.event) [
          | inl e ↦ rw (b, c, d, e, turn) refl
          | inr ((now, event), e) ↦
              rw (b, c, d, e, turn)
                (runs_after (on_swarm_event (suc fuel) now event s)
                  (updates-returns fuel now event s (rw e at h) l i a))
        ]
      ]
    ]
  ]

  continue-runs :
      (turns : List Ready) (r : Status × SavedNetwork)
      → ((s : SavedNetwork) → hangs (event_loop (suc fuel) turns s).0 ≡ false)
      → hangs r.0 ≡ false
      → hangs (continue (suc fuel) turns r).0 ≡ false
  continue-runs turns (running, s) k h = k s
  continue-runs turns (stopped, s) k h = refl
  continue-runs turns (hung, s) k h = cc

  -- Where the swarm accepts every dial as well, the loop does not end in a handler that does not
  -- return, over turns whose events are of connections or of accepted reservations.
  pub turns-run :
      (turns : List Ready) (s : SavedNetwork)
      → AllUpdate turns
      → hangs (event_loop (suc fuel) turns s).0 ≡ false
  unfolding event_loop
  turns-run [] s h = refl
  turns-run (ready ∷ turns) s (h, rest) = rw (event_loop-step (suc fuel) ready turns s) (
      continue-runs turns (turn (suc fuel) ready s) (λ t. turns-run turns t rest)
        (turn-runs ready s h))

module _ ⦃L : Libp2p⦄ ⦃S : Swarm⦄ ⦃C : Crypto⦄ ⦃T : Platform⦄ where
  -- From the start of the node, where the events always have a receiver, mDNS can be started at
  -- every call, and no address expires over mDNS: after any turns of the event loop that does
  -- not end in a handler that does not return, a relay is in use if and only if some connection
  -- that is open in the view has an address over it.
  pub event_loop-IsInUse :
      (fuel : ℕ) (turns : List Ready) (keypair : C.Keypair)
      → IsListened
      → IsMdnsStartable
      → NoExpiry turns
      → hangs (event_loop fuel turns (new keypair).1).0 ≡ false
      → IsInUse (event_loop fuel turns (new keypair).1).1
  event_loop-IsInUse fuel turns keypair l i x runs =
      turns-IsInUse fuel l i turns (new keypair).1 x (new-IsValid keypair)
        (new-Keeps IsInUse (λ addr s h. h) (λ s h. h) (λ s h. h) keypair
          (empty-IsInUse initial refl refl))
        runs
