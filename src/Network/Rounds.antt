-- ===== src/Network/Rounds.antt =====
-- src/network/mod.rs: one round of `reconcile_peer_connections` for a peer without a connection.
use saved.Base.{
  ℕ, zero, suc, ◌+◌, ◌^◌, ◌≤◌, ◌≡◌, min, ◌∙◌, true, false, inl, inr, some, List, ◌∷◌, arith,
  if◌then◌else◌, Option-cases,
}
use saved.Base.Lists.{any, find, modify_first, total, any-tally, find-any-false}
use saved.Base.Sort.{sort, IsSorted, total-sort}
use saved.Base.Assoc.{get-modify_self}
use saved.Libp2p.{Libp2p, PeerId, Multiaddr}
use saved.View.Peer.{
  AddressMetadata, PeerInfoExt, has_addr, is_active, is_in_cooldown, failed_at, key_le, resort,
  mark_failure,
}
use saved.View.{NetworkView, info_of, update_peer, is_connected, is_connected_over}
use saved.View.Count.{same_addr_refl}
use saved.View.Order.{failed_at-cooldown, resort-IsSorted}
use saved.Network.State.{SavedNetwork, Swarm, dials, ok}
use saved.Network.Api.{swarm_dial}
use saved.Network.Reconcile.{
  note_failure, dial_best, reconcile_entry, reconcile_round, reconcile_peer_connections,
}

pub pow_pos : (k : ℕ) → 1 ≤ 2 ^ k
pow_pos zero = omega arith
pow_pos (suc k) = omega (arith, pow_pos k)

module _ ⦃L : Libp2p⦄ where
  pub failed_is_in_cooldown :
      (now : ℕ) (m : AddressMetadata) → is_in_cooldown now (failed_at now m) ≡ true
  failed_is_in_cooldown now m =
      failed_at-cooldown now now m ∙ ground (arith, pow_pos (min (m.err_count + 1) 6))

  -- A failure of the best address: it is marked, and the entries are sorted again.
  pub mark_failure-best :
      (now : ℕ) (info : PeerInfoExt) (best : AddressMetadata) (others : List AddressMetadata)
      → info.addresses ≡ best ∷ others
      → (mark_failure now info best.address).addresses
        ≡ sort (key_le now) (failed_at now best ∷ others)
  unfolding mark_failure resort any modify_first
  mark_failure-best now info best others h = ground (arith, same_addr_refl best.address)

  pub mark_failure-IsSorted :
      (now : ℕ) (info : PeerInfoExt) (best : AddressMetadata) (others : List AddressMetadata)
      → info.addresses ≡ best ∷ others
      → IsSorted (key_le now) (mark_failure now info best.address).addresses
  unfolding resort
  mark_failure-IsSorted now info best others h =
      rw (mark_failure-best now info best others h)
        (resort-IsSorted now (record info { addresses = failed_at now best ∷ others }))

  pub unconnected_over :
      (view : NetworkView) (p : PeerId) (a : Multiaddr)
      → is_connected view p ≡ false
      → is_connected_over view p a ≡ false
  unfolding is_connected is_connected_over
  unconnected_over view p a h = elim (Option-cases (info_of view p)) [
    | inl e ↦ ground arith
    | inr (info, e) ↦ elim (Option-cases (find (has_addr a) info.addresses)) [
      | inl n ↦ ground arith
      | inr (m, n) ↦ ground (arith, e, n, find-any-false is_active (has_addr a) info.addresses m)
    ]
  ]

module _ ⦃L : Libp2p⦄ ⦃S : Swarm⦄ where
  -- The state after the best address was dialed in vain.
  abbrev pub refused : ℕ → PeerId → Multiaddr → SavedNetwork → SavedNetwork
  refused now p addr s = record s {
    view = update_peer (λ info. mark_failure now info addr) s.view p;
    log = dials addr ∷ s.log;
  }

  pub round-refused :
      (fuel now : ℕ) (p : PeerId) (s : SavedNetwork) (info : PeerInfoExt) (best : AddressMetadata)
      (others : List AddressMetadata)
      → info_of s.view p ≡ some info
      → info.addresses ≡ best ∷ others
      → is_connected s.view p ≡ false
      → S.dial_ok s.log best.address ≡ false
      → reconcile_peer_connections (suc fuel) now p s
        ≡ reconcile_peer_connections fuel now p (refused now p best.address s)
  unfolding reconcile_peer_connections reconcile_round reconcile_entry dial_best swarm_dial
      note_failure
  round-refused fuel now p s info best others e h out refuses =
      ground (arith, unconnected_over s.view p best.address out)

  pub round-accepted :
      (fuel now : ℕ) (p : PeerId) (s : SavedNetwork) (info : PeerInfoExt) (best : AddressMetadata)
      (others : List AddressMetadata)
      → info_of s.view p ≡ some info
      → info.addresses ≡ best ∷ others
      → is_connected s.view p ≡ false
      → S.dial_ok s.log best.address ≡ true
      → (reconcile_peer_connections (suc fuel) now p s).0 ≡ ok tt
  unfolding reconcile_peer_connections reconcile_round reconcile_entry dial_best swarm_dial
      note_failure
  round-accepted fuel now p s info best others e h out accepts =
      ground (arith, unconnected_over s.view p best.address out)

  pub info_of-refused :
      (now : ℕ) (p : PeerId) (addr : Multiaddr) (s : SavedNetwork) (info : PeerInfoExt)
      → info_of s.view p ≡ some info
      → info_of (refused now p addr s).view p ≡ some (mark_failure now info addr)
  unfolding update_peer
  info_of-refused now p addr s info e =
      ground
        (arith, e, get-modify_self L.peer_discrete p (λ i. mark_failure now i addr) s.view.peers)

  pub is_connected-refused :
      (now : ℕ) (p : PeerId) (s : SavedNetwork) (info : PeerInfoExt) (best : AddressMetadata)
      (others : List AddressMetadata)
      → info_of s.view p ≡ some info
      → info.addresses ≡ best ∷ others
      → is_connected s.view p ≡ false
      → is_connected (refused now p best.address s).view p ≡ false
  unfolding is_connected total
  is_connected-refused now p s info best others e h out = ground (
    arith,
    info_of-refused now p best.address s info e,
    mark_failure-best now info best others h,
    any-tally is_active (mark_failure now info best.address).addresses,
    any-tally is_active info.addresses,
    total-sort (key_le now) (λ m. if is_active m then 1 else 0) (failed_at now best ∷ others),
  )
