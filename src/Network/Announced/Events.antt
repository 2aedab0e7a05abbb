-- ===== src/Network/Announced/Events.antt =====
-- src/network/mod.rs: what the subscribers of the node know of its connections after a swarm event,
-- and the connections that are open in the view.
use saved.Base.{
  is_some, ℕ, ◌≡◌, refl, sym, ap, ◌∙◌, Bool, true, false, none, some, List, [], ◌∷◌, ◌++◌, arith,
}
use saved.Base.Lists.{all, all-append}
use saved.Libp2p.{Libp2p, PeerId, ConnectionId, Multiaddr}
use saved.View.Consistent.{Call, disconnects as drops}
use saved.View.Spec.{connectivity, spec_step}
use saved.Network.State.{SavedNetwork, Swarm}
use saved.Network.Events.{
  SwarmEvent, mdns_discovered, mdns_expired, connection_established, connection_closed,
  new_external_addr_of_peer, closest_peers, identify_received, on_swarm_event,
}
use saved.Network.Invariant.{IsValid}
use saved.Network.Invariant.Connectivity.{established-connectivity, on_swarm_event-connectivity}
use saved.Network.Invariant.Events.{calls_of, on_swarm_event-Does, removes_pairs}
use saved.Network.Announced.{heard}
use saved.Network.Announced.Told.{IsListened, is_expiry, established-heard, on_swarm_event-heard}
use saved.Network.Unaffected.Events.{other}
use saved.Network.Announced.Calls.{
  is_quiet, opens_none, quiet-at, opens_none-at, first_part, adds-all, adds_all-all, adds_pairs-all,
  adds_peers-all,
}

module _ ⦃L : Libp2p⦄ where
  -- Each connection that is open in the view was announced, and its end was not.
  abbrev pub IsHeard : SavedNetwork → Type 0
  IsHeard s =
      (p : PeerId) (c : ConnectionId)
      → is_some ((connectivity s.view).at p c) ≡ true
      → heard s.log p c ≡ true

  -- By the events exactly those connections are open that are open in the view.
  abbrev pub IsMirrored : SavedNetwork → Type 0
  IsMirrored s =
      (p : PeerId) (c : ConnectionId) → heard s.log p c ≡ is_some ((connectivity s.view).at p c)

  pub front_all :
      (t : Call → Bool) (calls front back : List Call)
      → all t calls ≡ true
      → calls ≡ front ++ back
      → all t front ≡ true
  front_all t calls front back h e = ground (arith, ap (all t) e, all-append t front back, h)

  removes_pairs-opens_none :
      (now : ℕ) (pairs : List (PeerId × Multiaddr))
      → all opens_none (removes_pairs now pairs) ≡ true
  unfolding all
  removes_pairs-opens_none now [] = refl
  removes_pairs-opens_none now ((p, a) ∷ rest) = removes_pairs-opens_none now rest

  pub calls_of-opens_none :
      (now : ℕ) (event : SwarmEvent)
      → other event ≡ true
      → all opens_none (calls_of now event) ≡ true
  unfolding all
  calls_of-opens_none now (connection_established p c e) h = cc
  calls_of-opens_none now (connection_closed p c) h = cc
  calls_of-opens_none now (mdns_discovered pairs) h =
      adds_pairs-all opens_none (λ t p a. refl) now pairs
  calls_of-opens_none now (mdns_expired pairs) h = removes_pairs-opens_none now pairs
  calls_of-opens_none now (new_external_addr_of_peer p a) h =
      adds-all opens_none (λ t q b. refl) now p a
  calls_of-opens_none now (closest_peers (some peers)) h =
      adds_peers-all opens_none (λ t p a. refl) now peers
  calls_of-opens_none now (identify_received p ps addrs) h =
      adds_all-all opens_none (λ t q a. refl) now p addrs
  calls_of-opens_none now (closest_peers none) h = refl
  calls_of-opens_none now _ h = refl

  pub calls_of-is_quiet :
      (now : ℕ) (event : SwarmEvent)
      → other event ≡ true
      → is_expiry event ≡ false
      → all is_quiet (calls_of now event) ≡ true
  unfolding all
  calls_of-is_quiet now (connection_established p c e) h k = cc
  calls_of-is_quiet now (connection_closed p c) h k = cc
  calls_of-is_quiet now (mdns_expired pairs) h k = cc
  calls_of-is_quiet now (mdns_discovered pairs) h k =
      adds_pairs-all is_quiet (λ t p a. refl) now pairs
  calls_of-is_quiet now (new_external_addr_of_peer p a) h k =
      adds-all is_quiet (λ t q b. refl) now p a
  calls_of-is_quiet now (closest_peers (some peers)) h k =
      adds_peers-all is_quiet (λ t p a. refl) now peers
  calls_of-is_quiet now (identify_received p ps addrs) h k =
      adds_all-all is_quiet (λ t q a. refl) now p addrs
  calls_of-is_quiet now (closest_peers none) h k = refl
  calls_of-is_quiet now _ h k = refl

module _ ⦃L : Libp2p⦄ ⦃S : Swarm⦄ where
  -- From a valid network, every swarm event keeps it so that each open connection was announced.
  pub on_swarm_event-IsHeard :
      (fuel now : ℕ) (event : SwarmEvent) (s : SavedNetwork)
      → IsListened
      → IsValid s
      → IsHeard s
      → IsHeard (on_swarm_event fuel now event s).1
  unfolding spec_step
  on_swarm_event-IsHeard fuel now (connection_established p c e) s l v h q d k = ground (
    arith,
    h q d,
    k,
    established-heard fuel now p c e s q d l,
    ap (λ x. is_some (x.at q d)) (established-connectivity fuel now p c e s v),
  )
  on_swarm_event-IsHeard fuel now (connection_closed p c) s l v h q d k = ground (
    arith,
    h q d,
    k,
    on_swarm_event-heard fuel now (connection_closed p c) s q d l,
    ap (λ x. is_some (x.at q d))
        (on_swarm_event-connectivity fuel now (connection_closed p c) (drops now p c) s v refl),
  )
  on_swarm_event-IsHeard fuel now event s l v h q d k =
      let (front, back, split, does) =
        first_part (connectivity s.view) (calls_of now event) (on_swarm_event fuel now event s)
          (on_swarm_event-Does fuel now event s v) in
      on_swarm_event-heard fuel now event s q d l
      ∙ h q d (
          opens_none-at front (connectivity s.view) q d
            (front_all opens_none (calls_of now event) front back
              (calls_of-opens_none now event refl) split)
            (ap (λ x. is_some (x.at q d)) (sym does) ∙ k))

  -- From a valid network, every swarm event but an mDNS expiry keeps it so that by the events
  -- exactly the open connections are open.
  pub on_swarm_event-IsMirrored :
      (fuel now : ℕ) (event : SwarmEvent) (s : SavedNetwork)
      → is_expiry event ≡ false
      → IsListened
      → IsValid s
      → IsMirrored s
      → IsMirrored (on_swarm_event fuel now event s).1
  unfolding spec_step
  on_swarm_event-IsMirrored fuel now (connection_established p c e) s x l v h q d = ground (
    arith,
    h q d,
    established-heard fuel now p c e s q d l,
    ap (λ x. is_some (x.at q d)) (established-connectivity fuel now p c e s v),
  )
  on_swarm_event-IsMirrored fuel now (connection_closed p c) s x l v h q d = ground (
    arith,
    h q d,
    on_swarm_event-heard fuel now (connection_closed p c) s q d l,
    ap (λ x. is_some (x.at q d))
        (on_swarm_event-connectivity fuel now (connection_closed p c) (drops now p c) s v refl),
  )
  on_swarm_event-IsMirrored fuel now event s x l v h q d =
      let (front, back, split, does) =
        first_part (connectivity s.view) (calls_of now event) (on_swarm_event fuel now event s)
          (on_swarm_event-Does fuel now event s v) in
      on_swarm_event-heard fuel now event s q d l
      ∙ h q d
      ∙ ap (λ at. is_some (at q d))
          (sym (
            ap (λ y. y.at) does
            ∙ quiet-at front (connectivity s.view) (
                front_all is_quiet (calls_of now event) front back
                  (calls_of-is_quiet now event refl x) split)))
