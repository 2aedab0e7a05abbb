-- ===== src/Network/Unaffected.antt =====
-- src/network/mod.rs: what the handlers do but the broadcasts of connections and the changes of the
-- active mode, as laws of a property that is kept by it.
pub mod Events
pub mod Modes
use saved.Base.{
  ℕ, Bool, true, false, inl, inr, Option, none, some, List, [], ◌∷◌, Bool-cases, Option-cases,
  if◌then◌else◌, ◌≡◌, refl, arith,
}
use saved.Libp2p.{Libp2p, PeerId, ConnectionId, Multiaddr, same_addr}
use saved.View.Peer.{get_connection_address}
use saved.View.{info_of, add_address}
use saved.View.Entry.{entry}
use saved.View.Knows.{knows_addr}
use saved.View.Count.{same_addr_refl}
use saved.View.Consistent.{Call, step, adds_address, removes_address, fails, connects, pings}
use saved.Base.Lists.{any}
use saved.Relay.{RelayManager, can_reserve}
use saved.Network.State.{
  KadMode, SavedNetwork, SavedNetworkEvent, kad_found_peer, NatStatus, Swarm, Effect, broadcasts,
  disconnects, dials, closes, listens, kad_adds, kad_removes, Outcome, ok, ◌>>◌, pure, emit,
}
use saved.Network.Reconcile.{reconcile_peer_connections, should_skip_for_dial}
use saved.Network.Handlers.{
  if_kad, disconnect_all, update_relay_state, send_event, learn_address, on_add_address,
  on_remove_address,
}
use saved.Network.Events.{
  on_ping, request_reservation, track_relay, add_all, add_pairs, remove_pairs, found_peers,
  supports_hop, first_addr,
}
use saved.Network.Closed.{Keeps, Keeps-then, Keeps-if, reconcile-kept}
use saved.Network.Announced.{hears}

module _ ⦃L : Libp2p⦄ where
  abbrev pub is_dial : Effect → Bool
  is_dial (dials a) = true
  is_dial e = false

  -- A call that is no dial and says nothing of a connection.
  abbrev pub IsSilent : Effect → Type 0
  IsSilent e =
      (is_dial e ≡ false)
      × ((before : Bool) (p : PeerId) (c : ConnectionId) → hears e before p c ≡ before)

  -- A call on the view that brings an address.
  abbrev pub brings : Call → Bool
  brings (adds_address now p a) = true
  brings (connects now p c e) = true
  brings call = false

  -- Of the addresses nothing is asked.
  abbrev pub Any : Multiaddr → Type 0
  Any a = Unit {0}

  -- The relays are not read.
  abbrev pub IsRelayFree : (SavedNetwork → Type 0) → Type 0
  IsRelayFree P = (m : RelayManager) (s : SavedNetwork) → P s → P (record s { relay_manager = m })

  -- What the handlers do but for the relays: calls, dials of known addresses, changes of the view by
  -- which no address comes that `T` does not hold of, and changes of the NAT status.
  pub record IsUnaffected (P : SavedNetwork → Type 0) (T : Multiaddr → Type 0) : Type 0 where
    pub logs : (e : Effect) (s : SavedNetwork) → IsSilent e → P s → P (record s { log = e ∷ s.log })
    pub dials_known :
        (p : PeerId) (a : Multiaddr) (s : SavedNetwork)
        → knows_addr (entry s.view p) a ≡ true
        → P s
        → P (record s { log = dials a ∷ s.log })
    pub neutral :
        (call : Call) (s : SavedNetwork)
        → brings call ≡ false
        → P s
        → P (record s { view = step s.view call })
    pub adds :
        (now : ℕ) (p : PeerId) (a : Multiaddr) (s : SavedNetwork)
        → T a
        → P s
        → P (record s { view = step s.view (adds_address now p a) })
    pub nats : (status : NatStatus) (s : SavedNetwork) → P s → P (record s { nat_status = status })

module _ ⦃L : Libp2p⦄ ⦃S : Swarm⦄ (P : SavedNetwork → Type 0) (T : Multiaddr → Type 0)
    (U : IsUnaffected P T) where
  pair_if :
      (b : Bool) (r t : Outcome (Unit {0}) × SavedNetwork)
      → P r.1
      → P t.1
      → P (if b then r else t).1
  pair_if true r t h k = h
  pair_if false r t h k = k

  kad_if :
      (k : Option KadMode) (e : Effect) (s : SavedNetwork)
      → IsSilent e
      → P s
      → P (
          let r : Outcome (Unit {0}) × SavedNetwork = elim k [
            | some _ ↦ emit e s
            | none ↦ (ok tt, s)
          ] in
          r.1)
  kad_if none e s quiet h = h
  kad_if (some m) e s quiet h = U.logs e s quiet h

  if_kad-Keep : (e : Effect) → IsSilent e → Keeps P (if_kad e)
  unfolding if_kad
  if_kad-Keep e quiet s h = kad_if s.kad e s quiet h

  disconnect_all-Keep : (ps : List PeerId) → Keeps P (disconnect_all ps)
  unfolding disconnect_all
  disconnect_all-Keep [] s h = h
  disconnect_all-Keep (p ∷ ps) s h =
      disconnect_all-Keep ps _ (U.logs (disconnects p) s (refl, λ b q d. refl) h)

  pub update_relay_state-Keep : IsRelayFree P → Keeps P update_relay_state
  unfolding update_relay_state
  update_relay_state-Keep free s h = disconnect_all-Keep _ _ (free _ s h)

  pub track_relay-Keep : IsRelayFree P → (r : Option PeerId) → Keeps P (track_relay r)
  unfolding track_relay
  track_relay-Keep free none s h = h
  track_relay-Keep free (some r) s h = update_relay_state-Keep free _ (free _ s h)

  pub send_event-Keep : (e : SavedNetworkEvent) → IsSilent (broadcasts e) → Keeps P (send_event e)
  unfolding send_event
  send_event-Keep e quiet s h =
      pair_if (S.has_receiver s.log) _ _ (U.logs (broadcasts e) s quiet h) h

  pub reconcile-Keep : (fuel now : ℕ) (p : PeerId) → Keeps P (reconcile_peer_connections fuel now p)
  reconcile-Keep fuel now p =
      reconcile-kept P p
        (record {
          dial_known = λ addr s h k. U.dials_known p addr s k h;
          close_open = λ d s h leads k. U.logs (closes d) s (refl, λ b q e. refl) h;
          mark = λ t addr s h. U.neutral (fails t p addr) s refl h;
        })
        fuel now

  learn_address-Keep :
      (fuel now : ℕ) (p : PeerId) (a : Multiaddr) → T a → Keeps P (learn_address fuel now p a)
  unfolding learn_address step
  learn_address-Keep fuel now p a t s h = elim (Bool-cases (add_address now s.view p a).1) [
    | inr old ↦ rw (old, learn_address) (U.adds now p a s t h)
    | inl fresh ↦
        rw (fresh, learn_address)
          (Keeps-then P (if_kad (kad_adds p a)) (reconcile_peer_connections fuel now p)
            (if_kad-Keep (kad_adds p a) (refl, λ b q d. refl)) (reconcile-Keep fuel now p) _
            (U.adds now p a s t h))
  ]

  pub on_add_address-Keep :
      (fuel now : ℕ) (p : PeerId) (a : Multiaddr) → T a → Keeps P (on_add_address fuel now p a)
  unfolding on_add_address
  on_add_address-Keep fuel now p a t =
      Keeps-if P (should_skip_for_dial a) (pure tt) (learn_address fuel now p a) (λ s h. h)
        (learn_address-Keep fuel now p a t)

  on_remove_address-Keep :
      (fuel now : ℕ) (p : PeerId) (a : Multiaddr) → Keeps P (on_remove_address fuel now p a)
  unfolding on_remove_address step
  on_remove_address-Keep fuel now p a s h =
      Keeps-then P (if_kad (kad_removes p a)) (reconcile_peer_connections fuel now p)
        (if_kad-Keep (kad_removes p a) (refl, λ b q d. refl)) (reconcile-Keep fuel now p) _
        (U.neutral (removes_address now p a) s refl h)

  pub add_all-Keep :
      (fuel now : ℕ) (p : PeerId) (addrs : List Multiaddr)
      → ((a : Multiaddr) → any (same_addr a) addrs ≡ true → T a)
      → Keeps P (add_all fuel now p addrs)
  unfolding add_all any
  add_all-Keep fuel now p [] t s h = h
  add_all-Keep fuel now p (a ∷ rest) t s h =
      Keeps-then P (on_add_address fuel now p a) (add_all fuel now p rest)
        (on_add_address-Keep fuel now p a (t a (ground (arith, same_addr_refl a))))
        (add_all-Keep fuel now p rest (λ b e. t b (ground (arith, e)))) s h

  pub add_pairs-Keep :
      (fuel now : ℕ) (pairs : List (PeerId × Multiaddr))
      → ((a : Multiaddr) → any (λ x. same_addr a x.1) pairs ≡ true → T a)
      → Keeps P (add_pairs fuel now pairs)
  unfolding add_pairs any
  add_pairs-Keep fuel now [] t s h = h
  add_pairs-Keep fuel now ((p, a) ∷ rest) t s h =
      Keeps-then P (on_add_address fuel now p a) (add_pairs fuel now rest)
        (on_add_address-Keep fuel now p a (t a (ground (arith, same_addr_refl a))))
        (add_pairs-Keep fuel now rest (λ b e. t b (ground (arith, e)))) s h

  pub remove_pairs-Keep :
      (fuel now : ℕ) (pairs : List (PeerId × Multiaddr)) → Keeps P (remove_pairs fuel now pairs)
  unfolding remove_pairs
  remove_pairs-Keep fuel now [] s h = h
  remove_pairs-Keep fuel now ((p, a) ∷ rest) s h =
      Keeps-then P (on_remove_address fuel now p a) (remove_pairs fuel now rest)
        (on_remove_address-Keep fuel now p a) (remove_pairs-Keep fuel now rest) s h

  pub found_peers-Keep :
      (fuel now : ℕ) (peers : List (PeerId × List Multiaddr))
      → ((a : Multiaddr) → any (λ x. any (same_addr a) x.1) peers ≡ true → T a)
      → Keeps P (found_peers fuel now peers)
  unfolding found_peers any
  found_peers-Keep fuel now [] t s h = h
  found_peers-Keep fuel now ((p, addrs) ∷ rest) t s h =
      Keeps-then P (send_event (kad_found_peer p addrs))
        (add_all fuel now p addrs >> found_peers fuel now rest)
        (send_event-Keep (kad_found_peer p addrs) (refl, λ b q d. refl))
        (Keeps-then P (add_all fuel now p addrs) (found_peers fuel now rest)
          (add_all-Keep fuel now p addrs (λ b e. t b (ground (arith, e))))
          (found_peers-Keep fuel now rest (λ b e. t b (ground (arith, e)))))
        s h

  pub request_reservation-Keep : (p : PeerId) → Keeps P (request_reservation p)
  unfolding request_reservation
  request_reservation-Keep p s h = elim (Bool-cases (supports_hop s.view p)) [
    | inr e ↦ rw (e, request_reservation) h
    | inl e ↦ elim (Bool-cases (can_reserve s.relay_manager p)) [
      | inr r ↦ rw (e, r, request_reservation) h
      | inl r ↦ elim (Option-cases (first_addr s.view p)) [
        | inl a ↦ rw (e, r, a, request_reservation) h
        | inr (addr, a) ↦
            rw (e, r, a, request_reservation) (U.logs (listens _) s (refl, λ b q d. refl) h)
      ]
    ]
  ]

  pub on_ping-Keep :
      (p : PeerId) (c : ConnectionId) (result : Option ℕ) → Keeps P (on_ping p c result)
  unfolding on_ping step
  on_ping-Keep p c result s h = elim (Option-cases (info_of s.view p)) [
    | inl e ↦ rw (e, on_ping) h
    | inr (info, e) ↦ elim (Option-cases (get_connection_address info c)) [
      | inl n ↦ rw (e, on_ping, n) h
      | inr (addr, n) ↦ elim (Option-cases result) [
        | inl r ↦ rw (e, on_ping, n, r) h
        | inr (rtt, r) ↦ rw (e, on_ping, n, r) (U.neutral (pings p rtt) s refl h)
      ]
    ]
  ]
