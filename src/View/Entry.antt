-- ===== src/View/Entry.antt =====
-- src/view.rs: the methods of `NetworkView` seen peer by peer: which entry a peer has after each of
-- them. A peer that the map does not hold has the default entry.
use saved.Base.{ℕ, ◌≡◌, refl, inl, inr, none, some, List, [], arith, if◌then◌else◌, Option-cases}
use saved.Base.Lists.{remove_first, modify_first}
use saved.Base.Sort.{sort}
use saved.Base.Assoc.{
  upsert, modify, value_or, get-upsert_self, get-upsert_ne, get-modify_self, get-modify_ne,
  get-remove_self, get-remove_ne,
}
use saved.Libp2p.{
  Libp2p, PeerId, ConnectionId, Multiaddr, StreamProtocol, ConnectedPoint, same_peer, same_peer-eq,
}
use saved.View.Peer.{PeerInfoExt, default_info, resort}
use saved.View.{
  NetworkView, info_of, add_address, insert_address, prune_empty, drop_address, remove_address,
  add_connection, insert_connection, remote_addr, remove_connection, detach, set_protocols,
  with_protocols, from_iter, update_peer,
}

module _ ⦃L : Libp2p⦄ where
  abbrev pub entry : NetworkView → PeerId → PeerInfoExt
  entry view p = value_or L.peer_discrete default_info (info_of view p)

  entry-upsert :
      (view : NetworkView) (p q : PeerId) (f : PeerInfoExt → PeerInfoExt)
      → entry (record { peers = upsert L.peer_discrete p default_info f view.peers }) q
        ≡ (if same_peer q p then f (entry view p) else entry view q)
  entry-upsert view p q f = ground (
    arith,
    get-upsert_self L.peer_discrete p default_info f view.peers,
    get-upsert_ne L.peer_discrete p q default_info f view.peers,
  )

  -- An entry that holds nothing reads like none.
  entry-prune_empty :
      (view : NetworkView) (p q : PeerId)
      → (entry (prune_empty view p) q).addresses ≡ (entry view q).addresses
  unfolding prune_empty
  entry-prune_empty view p q = ground (
    arith,
    get-remove_self L.peer_discrete p view.peers,
    get-remove_ne L.peer_discrete p q view.peers,
  )

  entry-modify :
      (view : NetworkView) (p q : PeerId) (f : PeerInfoExt → PeerInfoExt) (info : PeerInfoExt)
      → info_of view p ≡ some info
      → entry (record { peers = modify L.peer_discrete p f view.peers }) q
        ≡ (if same_peer q p then f (entry view p) else entry view q)
  entry-modify view p q f info h = ground (
    arith,
    get-modify_self L.peer_discrete p f view.peers,
    get-modify_ne L.peer_discrete p q f view.peers,
  )

  -- What the lookup of a map entry, its change and the pruning amount to.
  addresses-change :
      (view : NetworkView) (p q : PeerId) (f : PeerInfoExt → PeerInfoExt)
      → (f default_info).addresses ≡ []
      → (entry
          (elim (info_of view p) [
            | none ↦ view
            | some _ ↦ prune_empty (record { peers = modify L.peer_discrete p f view.peers }) p
          ])
          q).addresses
        ≡ (if same_peer q p then (f (entry view p)).addresses else (entry view q).addresses)
  addresses-change view p q f h = elim (Option-cases (info_of view p)) [
    | inl e ↦ ground (arith, e)
    | inr (info, e) ↦ ground (
      arith,
      e,
      entry-modify view p q f info e,
      entry-prune_empty (record { peers = modify L.peer_discrete p f view.peers }) p q,
    )
  ]

  pub entry-add_address :
      (now : ℕ) (view : NetworkView) (p q : PeerId) (addr : Multiaddr)
      → entry (add_address now view p addr).0 q
        ≡ (if same_peer q p then (insert_address now addr (entry view p)).0 else entry view q)
  unfolding add_address
  entry-add_address now view p q addr =
      entry-upsert view p q (λ info. (insert_address now addr info).0)

  pub entry-add_connection :
      (now : ℕ) (view : NetworkView) (p q : PeerId) (c : ConnectionId) (e : ConnectedPoint)
      → entry (add_connection now view p c e) q ≡ (
          if same_peer q p
          then insert_connection now c (remote_addr e) (entry view p)
          else entry view q)
  unfolding add_connection
  entry-add_connection now view p q c e =
      entry-upsert view p q (insert_connection now c (remote_addr e))

  pub entry-remove_address :
      (now : ℕ) (view : NetworkView) (p q : PeerId) (addr : Multiaddr)
      → (entry (remove_address now view p addr) q).addresses ≡ (
          if same_peer q p
          then (drop_address now addr (entry view p)).addresses
          else (entry view q).addresses)
  unfolding remove_address drop_address resort sort remove_first
  entry-remove_address now view p q addr = addresses-change view p q (drop_address now addr) refl

  pub entry-remove_connection :
      (now : ℕ) (view : NetworkView) (p q : PeerId) (c : ConnectionId)
      → (entry (remove_connection now view p c) q).addresses ≡ (
          if same_peer q p
          then (resort now (detach c (entry view p))).addresses
          else (entry view q).addresses)
  unfolding remove_connection detach resort sort modify_first
  entry-remove_connection now view p q c =
      addresses-change view p q (λ i. resort now (detach c i)) refl

  pub entry-set_protocols :
      (view : NetworkView) (p q : PeerId) (ps : List StreamProtocol)
      → (entry (set_protocols view p ps) q).addresses ≡ (entry view q).addresses
  unfolding set_protocols with_protocols
  entry-set_protocols view p q ps =
      ground (arith, same_peer-eq q p, entry-upsert view p q (with_protocols (from_iter ps)))

  pub entry-update_peer :
      (f : PeerInfoExt → PeerInfoExt) (view : NetworkView) (p q : PeerId)
      → (f default_info).addresses ≡ []
      → (entry (update_peer f view p) q).addresses
        ≡ (if same_peer q p then (f (entry view p)).addresses else (entry view q).addresses)
  unfolding update_peer
  entry-update_peer f view p q h = ground (
    arith,
    get-modify_self L.peer_discrete p f view.peers,
    get-modify_ne L.peer_discrete p q f view.peers,
  )
