-- ===== src/Relay/Open.antt =====
-- src/network/relay_manager.rs: the relays in use after `recompute_in_use`, and the connections that
-- are open in the view.
use saved.Base.{
  ◌≤◌, ◌≡◌, ◌↔◌, refl, sym, ap, ◌∙◌, Bool, true, false, inl, inr, Option, none, some, List, [], ◌∷◌,
  arith, Bool-cases, Option-cases,
}
use saved.Base.Lists.{
  any, find, total, find_of_any, find-holds, any_of_found, any-tally, All, total-remove_first,
}
use saved.Base.Assoc.{get, key_count, value_or, get_uncounted}
use saved.Libp2p.{
  Libp2p, PeerId, ConnectionId, Multiaddr, same_connection, same_peer, same_peer-eq, same_peer_refl,
}
use saved.View.Peer.{AddressMetadata, PeerInfoExt, holds, get_connection_address, default_info}
use saved.View.{NetworkView}
use saved.View.Count.{
  total-of_connection_at-le, of_connection_at, same_addr_refl, same_connection_refl,
}
use saved.View.Invariant.{IsValid}
use saved.View.Locate.{locate_of_count}
use saved.View.Spec.{connectivity}
use saved.View.Consistent.{IsConsistent}
use saved.Relay.Address.{extract_relay_peer}
use saved.Relay.{RelayManager, contains, recompute_in_use}
use saved.Relay.InUse.{uses, recompute_in_use-contains}

module _ ⦃L : Libp2p⦄ where
  -- The relay of an open connection.
  abbrev pub relay_of : Option Multiaddr → Option PeerId
  relay_of none = none
  relay_of (some a) = extract_relay_peer a

  -- An open connection over the relay, by the addresses of the open ones.
  abbrev pub OpenOver : PeerId → (PeerId → ConnectionId → Option Multiaddr) → Type 0
  OpenOver r at' = (p : PeerId) × (c : ConnectionId) × (relay_of (at' p c) ≡ some r)

  first_connection :
      (cs : List ConnectionId)
      → elim cs [ [] ↦ false | _ ∷ _ ↦ true ] ≡ true
      → (c : ConnectionId) × (any (same_connection c) cs ≡ true)
  unfolding any
  first_connection [] h = cc
  first_connection (c ∷ cs) h = (c, ground (arith, same_connection_refl c))

  -- A connection of an entry that is found has its address.
  located :
      (info : PeerInfoExt) (m : AddressMetadata) (c : ConnectionId) (p : AddressMetadata → Bool)
      → IsValid info
      → find p info.addresses ≡ some m
      → holds c m ≡ true
      → get_connection_address info c ≡ some m.address
  located info m c p v found h = locate_of_count info c m.address v (
      ground (
        arith,
        found,
        h,
        v.single c,
        same_addr_refl m.address,
        any-tally (same_connection c) m.active_connections,
        total-of_connection_at-le c m.address info.addresses,
        total-remove_first (of_connection_at c m.address) p info.addresses,
      ))

  relay_used :
      (r : PeerId) (m : AddressMetadata) (a : Option PeerId)
      → elim a [ none ↦ false | some q ↦ same_peer r q ] ≡ true
      → a ≡ some r
  relay_used r m none h = cc
  relay_used r m (some q) h = ap some (sym (same_peer-eq r q h))

  -- An entry with an active connection over the relay has an open one over it.
  open_in_entry :
      (r : PeerId) (info : PeerInfoExt)
      → IsValid info
      → any (uses r) info.addresses ≡ true
      → (c : ConnectionId) × (relay_of (get_connection_address info c) ≡ some r)
  open_in_entry r info v h =
      let (m, found) = find_of_any (uses r) info.addresses h in
      let used = find-holds (uses r) info.addresses m found in
      let (c, held) = first_connection m.active_connections (ground (arith, used)) in
      (
        c,
        ap relay_of (located info m c (uses r) v found held)
            ∙ relay_used r m (extract_relay_peer m.address) (ground (arith, used)),
      )

  -- And the other way.
  used_in_entry :
      (r : PeerId) (info : PeerInfoExt) (c : ConnectionId)
      → relay_of (get_connection_address info c) ≡ some r
      → any (uses r) info.addresses ≡ true
  unfolding get_connection_address any
  used_in_entry r info c h = elim (Option-cases (find (holds c) info.addresses)) [
    | inl e ↦ ground (arith, h, e)
    | inr (m, e) ↦
        any_of_found (uses r) (holds c) info.addresses m
          (ground (arith, h, e, find-holds (holds c) info.addresses m e, same_peer_refl r)) e
  ]

  abbrev entry_in : List (PeerId × PeerInfoExt) → PeerId → PeerInfoExt
  entry_in ps p = value_or L.peer_discrete default_info (get L.peer_discrete p ps)

  default-none : (c : ConnectionId) → get_connection_address default_info c ≡ none
  unfolding get_connection_address find
  default-none c = refl

  -- Of a list with one entry for each peer.
  open_in_peers :
      (r : PeerId) (ps : List (PeerId × PeerInfoExt))
      → ((p : PeerId) → key_count L.peer_discrete p ps ≤ 1)
      → All (λ e. IsValid e.1) ps
      → any (λ e. any (uses r) e.1.addresses) ps ≡ true
      → (p : PeerId) × (c : ConnectionId) × (relay_of (get_connection_address (entry_in ps p) c)
          ≡ some r)
  unfolding any get total
  open_in_peers r [] keys valid h = cc
  open_in_peers r ((p, info) ∷ ps) keys valid h = elim (Bool-cases (any (uses r) info.addresses)) [
    | inl here ↦ let (c, e) = open_in_entry r info valid.0 here in (p, c, ground (arith, e))
    | inr gone ↦
        let (q, c, e) =
          open_in_peers r ps (λ q. ground (arith, keys q)) valid.1 (ground (arith, h, gone)) in
        (q, c, ground (arith, e, keys q, default-none c, get_uncounted L.peer_discrete q ps))
  ]

  used_in_peers :
      (r : PeerId) (ps : List (PeerId × PeerInfoExt)) (p : PeerId) (c : ConnectionId)
      → relay_of (get_connection_address (entry_in ps p) c) ≡ some r
      → any (λ e. any (uses r) e.1.addresses) ps ≡ true
  unfolding any get
  used_in_peers r [] p c e = ground (arith, e, default-none c)
  used_in_peers r ((q, info) ∷ ps) p c e =
      ground (arith, e, used_in_entry r info c, used_in_peers r ps p c)

  -- Some entry has an active connection over the relay if and only if an open one is over it.
  pub used-open :
      (view : NetworkView) (r : PeerId)
      → IsConsistent view
      → (any (λ e. any (uses r) e.1.addresses) view.peers ≡ true)
        ↔ OpenOver r (connectivity view).at
  used-open view r v = (
    (λ h. open_in_peers r view.peers v.keys v.infos h),
    (λ (p, c, e). used_in_peers r view.peers p c e),
  )

  -- From a consistent view, whatever was in use before: after `recompute_in_use` a relay is in use
  -- if and only if some connection that is open in the view has an address over it.
  pub recompute_in_use-open :
      (m : RelayManager) (view : NetworkView) (r : PeerId)
      → IsConsistent view
      → (contains (recompute_in_use m view).in_use r ≡ true) ↔ OpenOver r (connectivity view).at
  recompute_in_use-open m view r v =
      let used = recompute_in_use-contains m view r in
      let (forth, back) = used-open view r v in ((λ h. forth (sym used ∙ h)), (λ o. used ∙ back o))
