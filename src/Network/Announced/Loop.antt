-- ===== src/Network/Announced/Loop.antt =====
-- src/network/mod.rs: what the subscribers of the node know of its connections after the turns of the
-- event loop, from the start of the node.
use saved.Base.{
  Bool, Option, none, is_some, ℕ, ◌≡◌, refl, sym, ap, ◌∙◌, false, some, List, [], ◌∷◌, arith,
}
use saved.Base.Lists.{find}
use saved.Base.Assoc.{get}
use saved.Libp2p.{Libp2p, PeerId, ConnectionId}
use saved.Keygen.{Crypto}
use saved.View.Peer.{get_connection_address}
use saved.View.{empty_view}
use saved.View.Spec.{connectivity}
use saved.Network.State.{SavedNetwork, Swarm}
use saved.Network.Api.{
  set_mdns_enabled, set_kad_enabled, kad_find_peer, kad_bootstrap, swarm_dial, dial,
  add_target_peer, remove_target_peer,
}
use saved.Network.Requests.{request-view}
use saved.Network.External.{Platform}
use saved.Network.Events.{SwarmEvent}
use saved.Network.Rpc.{SavedNetworkRpc, dispatch_rpc}
use saved.Network.Rpc
use saved.Network.{Ready, event_loop, initial, new}
use saved.Network.Start.{new-Keeps, new-IsValid}
use saved.Network.Closed.{Keeps}
use saved.Network.Closed.Turns.{event_loop-Keeps, AllAllow}
use saved.Network.Invariant.{IsValid}
use saved.Network.Invariant.Loop.{dispatch_rpc-Keeps, on_swarm_event-IsValid}
use saved.Network.Announced.{heard}
use saved.Network.Announced.Told.{IsListened, is_expiry}
use saved.Network.Announced.Events.{
  IsHeard, IsMirrored, on_swarm_event-IsHeard, on_swarm_event-IsMirrored,
}

module _ ⦃L : Libp2p⦄ where
  abbrev pub expires : Option (ℕ × SwarmEvent) → Bool
  expires none = false
  expires (some (now, event)) = is_expiry event

  -- No turn has an mDNS expiry.
  abbrev pub NoExpiry : List Ready → Type 0
  NoExpiry [] = Unit {0}
  NoExpiry (ready ∷ turns) = (expires ready.event ≡ false) × NoExpiry turns

  empty-IsMirrored :
      (s : SavedNetwork)
      → s.view ≡ empty_view
      → ((p : PeerId) (c : ConnectionId) → heard s.log p c ≡ false)
      → IsMirrored s
  unfolding get_connection_address find get
  empty-IsMirrored s e h p c = h p c ∙ rw e refl

  -- By the events of an IsMirrored network, each open connection was announced.
  IsHeard-of_mirrored : (s : SavedNetwork) → IsMirrored s → IsHeard s
  IsHeard-of_mirrored s h p c k = h p c ∙ k

module _ ⦃L : Libp2p⦄ ⦃S : Swarm⦄ where
  -- A request says nothing of a connection.
  request-heard :
      (rpc : SavedNetworkRpc) (s : SavedNetwork) (p : PeerId) (c : ConnectionId)
      → heard (dispatch_rpc rpc s).1.log p c ≡ heard s.log p c
  unfolding dispatch_rpc set_mdns_enabled set_kad_enabled kad_find_peer kad_bootstrap swarm_dial
      dial add_target_peer remove_target_peer
  request-heard (Rpc.set_mdns_enabled enabled) s p c = ground arith
  request-heard (Rpc.set_kad_enabled enabled mode) s p c = ground arith
  request-heard (Rpc.kad_find_peer target) s p c = ground arith
  request-heard Rpc.kad_bootstrap s p c = ground arith
  request-heard (Rpc.dial addr) s p c = ground arith
  request-heard (Rpc.add_target_peer target) s p c = refl
  request-heard (Rpc.remove_target_peer target) s p c = refl

  request-IsHeard : (rpc : SavedNetworkRpc) → Keeps IsHeard (dispatch_rpc rpc)
  request-IsHeard rpc s h p c k =
      request-heard rpc s p c
      ∙ h p c (ap (λ v. is_some ((connectivity v).at p c)) (sym (request-view rpc s)) ∙ k)

  request-IsMirrored : (rpc : SavedNetworkRpc) → Keeps IsMirrored (dispatch_rpc rpc)
  request-IsMirrored rpc s h p c =
      request-heard rpc s p c
      ∙ h p c
      ∙ ap (λ v. is_some ((connectivity v).at p c)) (sym (request-view rpc s))

  abbrev ValidHeard : SavedNetwork → Type 0
  ValidHeard s = IsValid s × IsHeard s

  abbrev ValidMirrored : SavedNetwork → Type 0
  ValidMirrored s = IsValid s × IsMirrored s

  turns-IsHeard : (fuel : ℕ) (turns : List Ready) → IsListened → AllAllow ValidHeard fuel turns
  turns-IsHeard fuel [] l = tt
  turns-IsHeard fuel (ready ∷ turns) l = (
    (λ rpc _ s h. (dispatch_rpc-Keeps rpc s h.0, request-IsHeard rpc s h.1)),
    (λ now event _ s h. (
      on_swarm_event-IsValid fuel now event s h.0,
      on_swarm_event-IsHeard fuel now event s l h.0 h.1,
    )),
    turns-IsHeard fuel turns l,
  )

  turns-IsMirrored :
      (fuel : ℕ) (turns : List Ready)
      → IsListened
      → NoExpiry turns
      → AllAllow ValidMirrored fuel turns
  turns-IsMirrored fuel [] l x = tt
  turns-IsMirrored fuel (ready ∷ turns) l (x, rest) = (
    (λ rpc _ s h. (dispatch_rpc-Keeps rpc s h.0, request-IsMirrored rpc s h.1)),
    (λ now event e s h. (
      on_swarm_event-IsValid fuel now event s h.0,
      on_swarm_event-IsMirrored fuel now event s (ap expires (sym e) ∙ x) l h.0 h.1,
    )),
    turns-IsMirrored fuel turns l rest,
  )

module _ ⦃L : Libp2p⦄ ⦃S : Swarm⦄ ⦃C : Crypto⦄ ⦃T : Platform⦄ where
  new-IsMirrored : (keypair : C.Keypair) → IsMirrored (new keypair).1
  new-IsMirrored keypair =
      new-Keeps IsMirrored (λ addr s h. h) (λ s h. h) (λ s h. h) keypair
        (empty-IsMirrored initial refl (λ p c. refl))

  -- From the start of the node, where the events always have a receiver: after any turns of the
  -- event loop, each connection that is open in the view was announced by a `Connected` after
  -- which no `Disconnected` of it was sent.
  pub event_loop-IsHeard :
      (fuel : ℕ) (turns : List Ready) (keypair : C.Keypair)
      → IsListened
      → IsHeard (event_loop fuel turns (new keypair).1).1
  event_loop-IsHeard fuel turns keypair l =
      (event_loop-Keeps ValidHeard fuel turns (new keypair).1 (turns-IsHeard fuel turns l)
        (new-IsValid keypair, IsHeard-of_mirrored (new keypair).1 (new-IsMirrored keypair))).1

  -- From the start of the node, where the events always have a receiver and no address expires
  -- over mDNS: after any turns of the event loop, a connection is open in the view exactly if
  -- the last of the events `Connected` and `Disconnected` that were sent of it is `Connected`.
  pub event_loop-IsMirrored :
      (fuel : ℕ) (turns : List Ready) (keypair : C.Keypair)
      → IsListened
      → NoExpiry turns
      → IsMirrored (event_loop fuel turns (new keypair).1).1
  event_loop-IsMirrored fuel turns keypair l x =
      (event_loop-Keeps ValidMirrored fuel turns (new keypair).1 (turns-IsMirrored fuel turns l x)
        (new-IsValid keypair, new-IsMirrored keypair)).1
