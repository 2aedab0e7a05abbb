-- ===== src/View/Attach.antt =====
-- src/view.rs: the part of `add_connection` that records a connection: what it changes of every
-- count.
use saved.Base.{◌∙◌, ℕ, ◌+◌, ◌≡◌, refl, true, false, not, ◌&&◌, [], ◌∷◌, arith, if◌then◌else◌}
use saved.Base.Lists.{
  any, modify_first, total, any-append, total-append, total-modify_first, find-holds, find_of_any,
  find-any-false, total-modify_first_same,
}
use saved.Libp2p.{Libp2p, ConnectionId, Multiaddr, same_connection, same_addr}
use saved.View.Peer.{
  AddressMetadata, PeerInfoExt, has_addr, holds, new_metadata, clear_backoff_on_success, cleared,
}
use saved.View.{ensure_address, push_connection, attach}
use saved.View.Count.{
  at_addr, of_connection, of_connection_at, same_addr-eq, total-resort, total-clear_backoff,
  total-ensure_address, any-ensure_address,
}

module _ ⦃L : Libp2p⦄ where
  any-holds-ensure_address :
      (d : ConnectionId) (addr : Multiaddr) (info : PeerInfoExt)
      → any (holds d) (ensure_address addr info).addresses ≡ any (holds d) info.addresses
  unfolding ensure_address any new_metadata
  any-holds-ensure_address d addr info =
      ground (arith, any-append (holds d) info.addresses (new_metadata addr ∷ []))

  -- A weight that the entry for the remote address gains by one more connection is gained by all.
  pub total-attach :
      (w : AddressMetadata → ℕ) (k now : ℕ) (d : ConnectionId) (remote : Multiaddr)
      (info : PeerInfoExt)
      → w (new_metadata remote) ≡ 0
      → ((m : AddressMetadata) → w (cleared m) ≡ w m)
      → ((m : AddressMetadata)
          → has_addr remote m ≡ true
          → holds d m ≡ false
          → w (push_connection d m) ≡ w m + k)
      → any (holds d) info.addresses ≡ false
      → total w (attach now d remote info).addresses ≡ total w info.addresses + k
  unfolding attach
  total-attach w k now d remote info new clear push free =
      let known = ensure_address remote info in
      let (m, found) =
        find_of_any (has_addr remote) known.addresses (any-ensure_address remote info) in
      let free' : any (holds d) known.addresses ≡ false =
        any-holds-ensure_address d remote info ∙ free in
      let pushed = record known {
        addresses = modify_first (has_addr remote) (push_connection d) known.addresses;
      } in
      ground (
        arith,
        found,
        total-resort w now (clear_backoff_on_success pushed remote),
        total-clear_backoff w pushed remote clear,
        total-modify_first w (has_addr remote) (push_connection d) known.addresses,
        total-ensure_address w remote info,
        push m (find-holds (has_addr remote) known.addresses m found)
            (find-any-false (holds d) (has_addr remote) known.addresses m free' found),
      )

  -- A connection that is recorded nowhere is recorded once, under the remote address.
  pub attach-of_connection_at :
      (c d : ConnectionId) (a remote : Multiaddr) (now : ℕ) (info : PeerInfoExt)
      → any (holds d) info.addresses ≡ false
      → total (of_connection_at c a) (attach now d remote info).addresses
        ≡ total (of_connection_at c a) info.addresses
          + (if same_connection c d && same_addr a remote then 1 else 0)
  unfolding new_metadata total
  attach-of_connection_at c d a remote now info free =
      total-attach (of_connection_at c a) _ now d remote info (ground arith) (λ m. refl)
        (λ m at off. ground (
          arith,
          total-append (λ x. if same_connection c x then 1 else 0) m.active_connections (d ∷ []),
          same_addr-eq remote m.address at,
        ))
        free

  pub attach-of_connection :
      (c d : ConnectionId) (remote : Multiaddr) (now : ℕ) (info : PeerInfoExt)
      → any (holds d) info.addresses ≡ false
      → total (of_connection c) (attach now d remote info).addresses
        ≡ total (of_connection c) info.addresses + (if same_connection c d then 1 else 0)
  unfolding new_metadata total
  attach-of_connection c d remote now info free =
      total-attach (of_connection c) _ now d remote info (ground arith) (λ m. refl)
        (λ m at off. ground (
          arith,
          total-append (λ x. if same_connection c x then 1 else 0) m.active_connections (d ∷ []),
        ))
        free

  -- The addresses that are recorded after it: the old ones and the remote one.
  pub attach-at_addr :
      (a remote : Multiaddr) (d : ConnectionId) (now : ℕ) (info : PeerInfoExt)
      → any (holds d) info.addresses ≡ false
      → total (at_addr a) (attach now d remote info).addresses
        ≡ total (at_addr a) info.addresses
          + (if same_addr a remote && not (any (has_addr remote) info.addresses) then 1 else 0)
  unfolding attach new_metadata
  attach-at_addr a remote d now info free =
      let known = ensure_address remote info in
      let pushed = record known {
        addresses = modify_first (has_addr remote) (push_connection d) known.addresses;
      } in
      ground (
        arith,
        total-resort (at_addr a) now (clear_backoff_on_success pushed remote),
        total-clear_backoff (at_addr a) pushed remote (λ m. refl),
        total-modify_first_same (at_addr a) (has_addr remote) (push_connection d)
            (λ m. ground arith) known.addresses,
        total-ensure_address (at_addr a) remote info,
      )
