-- ===== src/View/Consistent.antt =====
-- src/view.rs: the invariant of the whole view, and the calls that change it.
use saved.Base.{
  ℕ, ◌≤◌, not, ◌&&◌, inl, inr, none, some, List, [], ◌∷◌, arith, Bool-cases, Option-cases,
}
use saved.Base.Lists.{All, all, is_empty, total}
use saved.Base.Assoc.{
  upsert, modify, remove, key_count, key_count-modify, key_count-remove, key_count-upsert_le,
  All-upsert, All-modify, All-remove, All-get,
}
use saved.Libp2p.{Libp2p, PeerId, ConnectionId, Multiaddr, StreamProtocol, ConnectedPoint}
use saved.View.Peer.{PeerInfoExt, default_info, resort, mark_failure, is_active}
use saved.View.{
  NetworkView, empty_view, info_of, add_address, prune_empty, drop_address, remove_address,
  add_connection, remote_addr, remove_connection, detach, set_protocols, with_protocols, from_iter,
  update_peer,
}
use saved.View.Invariant.{
  IsValid, default_info-IsValid, resort-IsValid, insert_address-IsValid, drop_address-IsValid,
  detach-IsValid, insert_connection-IsValid, mark_failure-IsValid,
}
use saved.View.Entry.{entry}

module _ ⦃L : Libp2p⦄ where
  -- No peer has two entries, and every entry is valid.
  pub record IsConsistent (view : NetworkView) : Type 0 where
    pub keys : (p : PeerId) → key_count L.peer_discrete p view.peers ≤ 1
    pub infos : All (λ e. IsValid e.1) view.peers

  -- The calls that change the view. `fails` is `mark_failure` on the entry, where there is one,
  -- and `pings` is the new round-trip time.
  pub data Call : Type 0 where
    adds_address removes_address fails : ℕ → PeerId → Multiaddr → Call
    connects : ℕ → PeerId → ConnectionId → ConnectedPoint → Call
    disconnects : ℕ → PeerId → ConnectionId → Call
    identifies : PeerId → List StreamProtocol → Call
    pings : PeerId → ℕ → Call

  abbrev pub with_rtt : ℕ → PeerInfoExt → PeerInfoExt
  with_rtt rtt info = record info { rtt = rtt }

  unfoldable pub step : NetworkView → Call → NetworkView
  step view (adds_address now p a) = (add_address now view p a).0
  step view (removes_address now p a) = remove_address now view p a
  step view (fails now p a) = update_peer (λ info. mark_failure now info a) view p
  step view (connects now p c e) = add_connection now view p c e
  step view (disconnects now p c) = remove_connection now view p c
  step view (identifies p ps) = set_protocols view p ps
  step view (pings p rtt) = update_peer (with_rtt rtt) view p

  unfoldable pub run : NetworkView → List Call → NetworkView
  run view [] = view
  run view (c ∷ cs) = run (step view c) cs

  pub empty_view-IsConsistent : IsConsistent empty_view
  unfolding total
  empty_view-IsConsistent = record { keys = λ p. omega arith; infos = tt }

  upsert-IsConsistent :
      (view : NetworkView) (p : PeerId) (f : PeerInfoExt → PeerInfoExt)
      → ((info : PeerInfoExt) → IsValid info → IsValid (f info))
      → IsConsistent view
      → IsConsistent (record { peers = upsert L.peer_discrete p default_info f view.peers })
  upsert-IsConsistent view p f h v = record {
    keys = λ q. key_count-upsert_le L.peer_discrete p q default_info f view.peers (v.keys q);
    infos =
        All-upsert L.peer_discrete IsValid p default_info f default_info-IsValid h view.peers
          v.infos;
  }

  update_peer-IsConsistent :
      (f : PeerInfoExt → PeerInfoExt) (view : NetworkView) (p : PeerId)
      → ((info : PeerInfoExt) → IsValid info → IsValid (f info))
      → IsConsistent view
      → IsConsistent (update_peer f view p)
  unfolding update_peer
  update_peer-IsConsistent f view p h v = record {
    keys = λ q. omega (arith, key_count-modify L.peer_discrete p q f view.peers, v.keys q);
    infos = All-modify L.peer_discrete IsValid p f h view.peers v.infos;
  }

  remove-IsConsistent :
      (view : NetworkView) (p : PeerId)
      → IsConsistent view
      → IsConsistent (record { peers = remove L.peer_discrete p view.peers })
  remove-IsConsistent view p v = record {
    keys = λ q. omega (arith, key_count-remove L.peer_discrete p q view.peers, v.keys q);
    infos = All-remove L.peer_discrete IsValid p view.peers v.infos;
  }

  with_protocols-IsValid :
      (seen : List StreamProtocol) (info : PeerInfoExt)
      → IsValid info
      → IsValid (with_protocols seen info)
  unfolding with_protocols
  with_protocols-IsValid seen info h = record {
    distinct = h.distinct;
    single = h.single;
    classified = h.classified;
  }

  prune_empty-IsConsistent :
      (view : NetworkView) (p : PeerId) → IsConsistent view → IsConsistent (prune_empty view p)
  unfolding prune_empty
  prune_empty-IsConsistent view p v = elim (Option-cases (info_of view p)) [
    | inl e ↦ rw (e, prune_empty) v
    | inr (info, e) ↦
        elim (Bool-cases (all (λ m. not (is_active m)) info.addresses && is_empty info.addresses)) [
          | inl gone ↦ rw (e, prune_empty, gone) (remove-IsConsistent view p v)
          | inr kept ↦ rw (e, prune_empty, kept) v
        ]
  ]

  -- A change of an entry that is there, and the pruning after it.
  pruned-IsConsistent :
      (f : PeerInfoExt → PeerInfoExt) (view : NetworkView) (p : PeerId)
      → ((info : PeerInfoExt) → IsValid info → IsValid (f info))
      → IsConsistent view
      → IsConsistent (elim (info_of view p) [
        | none ↦ view
        | some _ ↦ prune_empty (record { peers = modify L.peer_discrete p f view.peers }) p
      ])
  unfolding update_peer
  pruned-IsConsistent f view p h v =
      elim (info_of view p)
        as (λ o. IsConsistent (elim o [
          | none ↦ view
          | some _ ↦ prune_empty (record { peers = modify L.peer_discrete p f view.peers }) p
        ])) [
          | none ↦ v
          | some info ↦ prune_empty-IsConsistent _ p (update_peer-IsConsistent f view p h v)
        ]

  -- Every call keeps the view consistent.
  pub step-IsConsistent :
      (view : NetworkView) (c : Call) → IsConsistent view → IsConsistent (step view c)
  unfolding step add_address add_connection remove_address remove_connection set_protocols
  step-IsConsistent view (adds_address now p a) v =
      upsert-IsConsistent view p _ (insert_address-IsValid now a) v
  step-IsConsistent view (removes_address now p a) v =
      pruned-IsConsistent (drop_address now a) view p (drop_address-IsValid now a) v
  step-IsConsistent view (fails now p a) v =
      update_peer-IsConsistent _ view p (λ info h. mark_failure-IsValid now info a h) v
  step-IsConsistent view (connects now p c e) v =
      upsert-IsConsistent view p _ (insert_connection-IsValid now c (remote_addr e)) v
  step-IsConsistent view (disconnects now p c) v =
      pruned-IsConsistent (λ i. resort now (detach c i)) view p
        (λ info h. resort-IsValid now _ (detach-IsValid c info h)) v
  step-IsConsistent view (identifies p ps) v =
      upsert-IsConsistent view p _ (with_protocols-IsValid (from_iter ps)) v
  step-IsConsistent view (pings p rtt) v =
      update_peer-IsConsistent (with_rtt rtt) view p
        (λ info h. record { distinct = h.distinct; single = h.single; classified = h.classified }) v

  -- From a consistent view, the view is consistent after every sequence of calls: no peer has
  -- two entries, no entry an address or a connection twice, and every address is classified as
  -- `classify_addr` says.
  pub run-IsConsistent :
      (view : NetworkView) (cs : List Call) → IsConsistent view → IsConsistent (run view cs)
  unfolding run
  run-IsConsistent view [] v = v
  run-IsConsistent view (c ∷ cs) v = run-IsConsistent (step view c) cs (step-IsConsistent view c v)

  -- In a consistent view every peer has a valid entry, if the default one.
  pub entry-IsValid : (view : NetworkView) (p : PeerId) → IsConsistent view → IsValid (entry view p)
  entry-IsValid view p v = elim (Option-cases (info_of view p)) [
    | inl e ↦ rw e default_info-IsValid
    | inr (info, e) ↦ rw e (All-get L.peer_discrete IsValid p view.peers info v.infos e)
  ]
