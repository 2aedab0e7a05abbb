-- ===== src/Network/Reconcile.antt =====
-- src/network/mod.rs: `should_skip_for_dial`, `is_prune_leader` and `reconcile_peer_connections`.
use saved.Base.{
  ℕ, zero, suc, Bool, true, false, not, ◌&&◌, none, some, List, [], ◌∷◌, ◌++◌, ltb, ◌==◌,
  if◌then◌else◌,
}
use saved.Base.Lists.{find}
use saved.Libp2p.{Libp2p, Protocol, PeerId, ConnectionId, Multiaddr}
use saved.View.Classify.{is_unicast_link_local}
use saved.View.Peer.{AddressMetadata, PeerInfoExt, has_addr, is_active, mark_failure}
use saved.View.{info_of, update_peer, is_connected, is_connected_over}
use saved.Network.State.{Swarm, closes, ok, unfinished, M, ◌>>=◌, ◌>>◌, pure, emit}
use saved.Network.Api.{swarm_dial}

module _ {P : Type 0} where
  -- The loop of `should_skip_for_dial` over its two flags.
  unfoldable pub skip_loop : List (Protocol P) → Bool → Bool → Bool
  skip_loop [] has_ip6_ll has_zone = has_ip6_ll && not has_zone
  skip_loop (Protocol.ip6 octets ∷ ps) has_ip6_ll has_zone =
      skip_loop ps (if is_unicast_link_local octets then true else has_ip6_ll) has_zone
  skip_loop (Protocol.ip6zone ∷ ps) has_ip6_ll has_zone = skip_loop ps has_ip6_ll true
  skip_loop (_ ∷ ps) has_ip6_ll has_zone = skip_loop ps has_ip6_ll has_zone

-- `<` of `Vec<u8>`: lexicographic, a proper prefix first.
unfoldable pub bytes_lt : List ℕ → List ℕ → Bool
bytes_lt [] [] = false
bytes_lt [] (b ∷ bs) = true
bytes_lt (a ∷ as') [] = false
bytes_lt (a ∷ as') (b ∷ bs) = if ltb a b then true else (a == b) && bytes_lt as' bs

module _ ⦃L : Libp2p⦄ where
  unfoldable pub should_skip_for_dial : Multiaddr → Bool
  unfolding skip_loop
  should_skip_for_dial addr = skip_loop (L.iter addr) false false

  -- `me.to_bytes() < remote.to_bytes()`.
  unfoldable pub leads : PeerId → PeerId → Bool
  leads me remote = bytes_lt (L.to_bytes me) (L.to_bytes remote)

  -- The connections of all entries, in order.
  unfoldable pub connections_of : List AddressMetadata → List ConnectionId
  connections_of [] = []
  connections_of (m ∷ ms) = m.active_connections ++ connections_of ms

  unfoldable pub close_all : List ConnectionId → M (Unit {0})
  close_all [] = pure tt
  close_all (c ∷ cs) = do emit (closes c); close_all cs

module _ ⦃L : Libp2p⦄ ⦃S : Swarm⦄ where
  unfoldable pub is_prune_leader : PeerId → Bool
  unfolding leads
  is_prune_leader remote = leads S.local_peer_id remote

  -- `mark_failure` on the entry of the peer, where there is one.
  unfoldable pub note_failure : ℕ → PeerId → Multiaddr → M (Unit {0})
  note_failure now p addr s =
      (ok tt, record s { view = update_peer (λ info. mark_failure now info addr) s.view p })

  -- The branch with no connection at all: dial, and begin again after a failure.
  unfoldable pub dial_best : ℕ → PeerId → M (Unit {0}) → Multiaddr → M (Unit {0})
  dial_best now p again best_addr = do
    accepted ← swarm_dial best_addr
    if accepted then pure tt else (do note_failure now p best_addr; again)

  -- The branch with a connection, but not on the best address.
  unfoldable pub migrate : ℕ → PeerId → PeerInfoExt → Multiaddr → M (Unit {0})
  migrate now p info best_addr =
      if elim (find (has_addr best_addr) info.addresses) [ none ↦ false | some m ↦ is_active m ]
      then pure tt
      else if is_prune_leader p
      then (do
        accepted ← swarm_dial best_addr
        if accepted then pure tt else note_failure now p best_addr)
      else pure tt

  -- The body of `reconcile_peer_connections` for a peer with an entry, by its addresses, with the
  -- call of itself as an argument.
  unfoldable pub reconcile_entry :
      ℕ → PeerId → M (Unit {0}) → PeerInfoExt → List AddressMetadata → M (Unit {0})
  reconcile_entry now p again info [] s = (ok tt, s)
  reconcile_entry now p again info (best ∷ others) s =
      (if is_connected_over s.view p best.address
          then (if is_prune_leader p then close_all (connections_of others) else pure tt)
          else if is_connected s.view p
          then migrate now p info best.address
          else dial_best now p again best.address)
        s

  unfoldable pub reconcile_round : ℕ → PeerId → M (Unit {0}) → M (Unit {0})
  reconcile_round now p again s = elim (info_of s.view p) [
    | none ↦ (ok tt, s)
    | some info ↦ reconcile_entry now p again info info.addresses s
  ]

  unfoldable pub reconcile_peer_connections : ℕ → ℕ → PeerId → M (Unit {0})
  reconcile_peer_connections zero now p s = (unfinished, s)
  reconcile_peer_connections (suc fuel) now p s =
      reconcile_round now p (reconcile_peer_connections fuel now p) s
