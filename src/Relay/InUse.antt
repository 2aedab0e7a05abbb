-- ===== src/Relay/InUse.antt =====
-- src/network/relay_manager.rs: `recompute_in_use` and the relays of the active connections of the
-- view.
use saved.Base.{◌≡◌, refl, Bool, false, ◌&&◌, ◌||◌, none, some, List, [], ◌∷◌, arith, ◌∙◌}
use saved.Base.Lists.{any, total}
use saved.Libp2p.{Libp2p, PeerId, same_peer, same_peer-eq}
use saved.View.Peer.{AddressMetadata, PeerInfoExt, is_active}
use saved.View.{NetworkView}
use saved.Relay.Address.{extract_relay_peer, extract_relay_peer-direct}
use saved.Relay.{
  RelayManager, contains, set_insert, note_address, note_addresses, note_peers, recompute_in_use,
}
use saved.Relay.Reserve.{IsDistinct, IsSound, contains-occurrences}

module _ ⦃L : Libp2p⦄ where
  -- An entry with an active connection over a given relay.
  abbrev pub uses : PeerId → AddressMetadata → Bool
  uses r m =
      is_active m && elim (extract_relay_peer m.address) [ none ↦ false | some q ↦ same_peer r q ]

  note_address-contains :
      (m : AddressMetadata) (s : List PeerId) (r : PeerId)
      → contains (note_address m s) r ≡ (contains s r || uses r m)
  unfolding note_address set_insert any
  note_address-contains m s r = ground (
    arith,
    extract_relay_peer-direct m.address,
    same_peer-eq r (elim (extract_relay_peer m.address) [ none ↦ r | some q ↦ q ]),
  )

  note_addresses-contains :
      (ms : List AddressMetadata) (s : List PeerId) (r : PeerId)
      → contains (note_addresses ms s) r ≡ (contains s r || any (uses r) ms)
  unfolding note_addresses any
  note_addresses-contains [] s r = ground arith
  note_addresses-contains (m ∷ ms) s r =
      ground (arith, note_addresses-contains ms (note_address m s) r, note_address-contains m s r)

  note_peers-contains :
      (ps : List (PeerId × PeerInfoExt)) (s : List PeerId) (r : PeerId)
      → contains (note_peers ps s) r ≡ (contains s r || any (λ e. any (uses r) e.1.addresses) ps)
  unfolding note_peers any
  note_peers-contains [] s r = ground arith
  note_peers-contains ((p, info) ∷ ps) s r = ground (
    arith,
    note_peers-contains ps (note_addresses info.addresses s) r,
    note_addresses-contains info.addresses s r,
  )

  nothing_in_use : (b : Bool) (r : PeerId) → (contains [] r || b) ≡ b
  unfolding any
  nothing_in_use b r = refl

  -- After `recompute_in_use` a relay is in use exactly when some peer has an active connection
  -- over it, whatever was in use before.
  pub recompute_in_use-contains :
      (m : RelayManager) (view : NetworkView) (r : PeerId)
      → contains (recompute_in_use m view).in_use r
        ≡ any (λ e. any (uses r) e.1.addresses) view.peers
  unfolding recompute_in_use
  recompute_in_use-contains m view r =
      note_peers-contains view.peers [] r
      ∙ nothing_in_use (any (λ e. any (uses r) e.1.addresses) view.peers) r

  pub set_insert-IsDistinct :
      (r : PeerId) (s : List PeerId) → IsDistinct s → IsDistinct (set_insert r s)
  unfolding set_insert total
  set_insert-IsDistinct r s d = λ p. ground (arith, d p, contains-occurrences s r, same_peer-eq p r)

  note_address-IsDistinct :
      (m : AddressMetadata) (s : List PeerId) → IsDistinct s → IsDistinct (note_address m s)
  unfolding note_address
  note_address-IsDistinct m s d = λ p. ground (
    arith,
    d p,
    set_insert-IsDistinct (elim (extract_relay_peer m.address) [ none ↦ p | some q ↦ q ]) s d p,
  )

  note_addresses-IsDistinct :
      (ms : List AddressMetadata) (s : List PeerId)
      → IsDistinct s
      → IsDistinct (note_addresses ms s)
  unfolding note_addresses
  note_addresses-IsDistinct [] s d = d
  note_addresses-IsDistinct (m ∷ ms) s d =
      note_addresses-IsDistinct ms (note_address m s) (note_address-IsDistinct m s d)

  note_peers-IsDistinct :
      (ps : List (PeerId × PeerInfoExt)) (s : List PeerId)
      → IsDistinct s
      → IsDistinct (note_peers ps s)
  unfolding note_peers
  note_peers-IsDistinct [] s d = d
  note_peers-IsDistinct ((p, info) ∷ ps) s d =
      note_peers-IsDistinct ps (note_addresses info.addresses s)
        (note_addresses-IsDistinct info.addresses s d)

  pub recompute_in_use-IsSound :
      (m : RelayManager) (view : NetworkView) → IsSound m → IsSound (recompute_in_use m view)
  unfolding recompute_in_use total
  recompute_in_use-IsSound m view v = record {
    reserved_distinct = v.reserved_distinct;
    in_use_distinct = note_peers-IsDistinct view.peers [] (λ p. omega arith);
  }
