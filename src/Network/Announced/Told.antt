-- ===== src/Network/Announced/Told.antt =====
-- src/network/mod.rs: what the subscribers of the node know of its connections after a swarm event,
-- by the events that it sends.
use saved.Base.{ℕ, ◌≡◌, refl, Bool, true, false, List, ◌∷◌}
use saved.Libp2p.{Libp2p, PeerId, ConnectionId, ConnectedPoint}
use saved.View.{remote_addr, add_connection, remove_connection}
use saved.Relay.Address.{extract_relay_peer}
use saved.Network.State.{
  SavedNetwork, SavedNetworkEvent, connected, disconnected, Swarm, Effect, broadcasts, M, ◌>>◌,
}
use saved.Network.Handlers.{
  send_event, leave_target, meet_target, on_peer_connection_closed, on_peer_connection_opened,
}
use saved.Network.Events.{
  SwarmEvent, mdns_expired, connection_established, connection_closed, track_relay, on_swarm_event,
}
use saved.Network.Closed.{Keeps, bind-Keeps, Keeps-then}
use saved.Network.Announced.{hears, heard, Hears}
use saved.Network.Unaffected.{Any, track_relay-Keep}
use saved.Network.Unaffected.Events.{end-Keep, other-Keep}
use saved.Network.Unaffected.Modes.{leave_target-Keep, meet_target-Keep}
use saved.Network.Announced.Silent.{Hears-IsUnaffected, Hears-IsModeFree}

module _ ⦃L : Libp2p⦄ where
  -- What the events say of a connection after a swarm event, by what they said before.
  abbrev pub tells : SwarmEvent → Bool → PeerId → ConnectionId → Bool
  tells (connection_established p c e) before = hears (broadcasts (connected p c)) before
  tells (connection_closed p c) before = hears (broadcasts (disconnected p c)) before
  tells event before = λ q d. before

  abbrev pub is_expiry : SwarmEvent → Bool
  is_expiry (mdns_expired pairs) = true
  is_expiry event = false

module _ ⦃L : Libp2p⦄ ⦃S : Swarm⦄ where
  -- Some receiver of the events is there at every call.
  abbrev pub IsListened : Type 0
  IsListened = (calls : List Effect) → S.has_receiver calls ≡ true

  -- The event is sent, and what follows says nothing of a connection.
  send_then :
      (e : SavedNetworkEvent) (rest : M (Unit {0})) (s : SavedNetwork) (q : PeerId)
      (d : ConnectionId)
      → IsListened
      → ((f : PeerId → ConnectionId → Bool) → Keeps (Hears f) rest)
      → heard ((send_event e >> rest) s).1.log q d ≡ hears (broadcasts e) (heard s.log q d) q d
  unfolding send_event
  send_then e rest s q d l k =
      let sent = record s { log = broadcasts e ∷ s.log } in
      rw (l s.log, send_event) (k (heard sent.log) sent (λ p c. refl) q d)

  opened-heard :
      (fuel now : ℕ) (p : PeerId) (c : ConnectionId) (e : ConnectedPoint) (s : SavedNetwork)
      (q : PeerId) (d : ConnectionId)
      → IsListened
      → heard (on_peer_connection_opened fuel now p c e s).1.log q d
        ≡ hears (broadcasts (connected p c)) (heard s.log q d) q d
  unfolding on_peer_connection_opened
  opened-heard fuel now p c e s q d l =
      send_then (connected p c) _ (record s { view = add_connection now s.view p c e }) q d l
        (λ f.
          Keeps-then (Hears f) (meet_target p) _ (meet_target-Keep (Hears f) (Hears-IsModeFree f) p)
            (end-Keep (Hears f) Any (Hears-IsUnaffected f) fuel now p (λ m s h. h)))

  closed-heard :
      (fuel now : ℕ) (p : PeerId) (c : ConnectionId) (s : SavedNetwork) (q : PeerId)
      (d : ConnectionId)
      → IsListened
      → heard (on_peer_connection_closed fuel now p c s).1.log q d
        ≡ hears (broadcasts (disconnected p c)) (heard s.log q d) q d
  unfolding on_peer_connection_closed
  closed-heard fuel now p c s q d l =
      send_then (disconnected p c) _ (record s { view = remove_connection now s.view p c }) q d l
        (λ f.
          Keeps-then (Hears f) (leave_target p) _
            (leave_target-Keep (Hears f) (Hears-IsModeFree f) p)
            (end-Keep (Hears f) Any (Hears-IsUnaffected f) fuel now p (λ m s h. h)))

  pub established-heard :
      (fuel now : ℕ) (p : PeerId) (c : ConnectionId) (e : ConnectedPoint) (s : SavedNetwork)
      (q : PeerId) (d : ConnectionId)
      → IsListened
      → heard (on_swarm_event fuel now (connection_established p c e) s).1.log q d
        ≡ hears (broadcasts (connected p c)) (heard s.log q d) q d
  unfolding on_swarm_event
  established-heard fuel now p c e s q d l =
      bind-Keeps (Hears (λ r b. hears (broadcasts (connected p c)) (heard s.log r b) r b))
        (on_peer_connection_opened fuel now p c e s)
        (λ _. track_relay (extract_relay_peer (remote_addr e)))
        (λ r b. opened-heard fuel now p c e s r b l)
        (λ _.
          track_relay-Keep (Hears _) Any (Hears-IsUnaffected _) (λ m s h. h)
            (extract_relay_peer (remote_addr e)))
        q d

  -- What the events say of a connection after a swarm event: an event that opens or closes the
  -- connection says so, and no other says anything of it, whatever the handler returns.
  pub on_swarm_event-heard :
      (fuel now : ℕ) (event : SwarmEvent) (s : SavedNetwork) (q : PeerId) (d : ConnectionId)
      → IsListened
      → heard (on_swarm_event fuel now event s).1.log q d ≡ tells event (heard s.log q d) q d
  unfolding on_swarm_event
  on_swarm_event-heard fuel now (connection_established p c e) s q d l =
      established-heard fuel now p c e s q d l
  on_swarm_event-heard fuel now (connection_closed p c) s q d l = closed-heard fuel now p c s q d l
  on_swarm_event-heard fuel now event s q d l =
      other-Keep (Hears (heard s.log)) Any (Hears-IsUnaffected (heard s.log)) fuel now event refl
        (λ u m s h. h) (λ a k. tt) s (λ p c. refl) q d
