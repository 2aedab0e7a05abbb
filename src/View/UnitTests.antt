-- ===== src/View/UnitTests.antt =====
-- src/view.rs: unit tests of `NetworkView`, for every peer, address and connection where the test
-- takes fixed or random ones.
pub mod Passes
pub mod Endpoints
use saved.Base.{Bool, true, false, not, ◌&&◌, ◌==◌, Option, none, some}
use saved.Libp2p.{Libp2p, Protocol, PeerId, ConnectionId, Multiaddr, dialer, listener, same_addr}
use saved.View.{
  NetworkView, empty_view, info_of, add_address, remove_address, add_connection, remove_connection,
  is_connected_over,
}
use saved.View.Peer.{has_addr, get_connection_address}
use saved.Base.Lists.{any, total, length}

module _ ⦃L : Libp2p⦄ where
  -- `multiple_connections_same_addr_refcounted_exact`.
  unfoldable pub multiple_connections_same_addr :
      PeerId → Multiaddr → ConnectionId → ConnectionId → Bool
  multiple_connections_same_addr peer remote c d =
      let one = add_connection 0 empty_view peer c (dialer remote) in
      let both = add_connection 1 one peer d (dialer remote) in
      let second = remove_connection 2 both peer c in
      let neither = remove_connection 3 second peer d in
      is_connected_over both peer remote
      && is_connected_over second peer remote
      && not (is_connected_over neither peer remote)

  -- `address_change_on_same_connection_updates_refcounts_exact`.
  unfoldable pub address_change_on_same_connection :
      PeerId → Multiaddr → Multiaddr → ConnectionId → Bool
  address_change_on_same_connection peer a b c =
      let before = add_connection 0 empty_view peer c (dialer a) in
      let after = add_connection 1 before peer c (dialer b) in
      is_connected_over before peer a
      && not (is_connected_over before peer b)
      && (not (is_connected_over after peer a) && is_connected_over after peer b)

  -- `view.peers.contains_key(&peer)`.
  abbrev pub contains_key : NetworkView → PeerId → Bool
  contains_key view peer = elim (info_of view peer) [ none ↦ false | some info ↦ true ]

  -- `remove_connection_updates_flags_exact`.
  unfoldable pub remove_connection_updates_flags : PeerId → Multiaddr → ConnectionId → Bool
  remove_connection_updates_flags peer remote c =
      let up = add_connection 0 empty_view peer c (dialer remote) in
      let down = remove_connection 1 up peer c in
      is_connected_over up peer remote
      && (not (is_connected_over down peer remote) && contains_key down peer)

  -- `add_and_remove_address_exact`.
  unfoldable pub add_and_remove_address : PeerId → Multiaddr → Bool
  add_and_remove_address peer a =
      let added = (add_address 0 empty_view peer a).0 in
      elim (info_of added peer) [
        | none ↦ false
        | some info ↦
            any (has_addr a) info.addresses
            && not (contains_key (remove_address 1 added peer a) peer)
      ]

  -- `add_address_keeps_p2p_suffix`.
  unfoldable pub add_address_keeps_p2p : PeerId → Multiaddr → Bool
  add_address_keeps_p2p peer base =
      let with_p2p = L.with_protocol base (Protocol.p2p peer) in
      elim (info_of (add_address 0 empty_view peer with_p2p).0 peer) [
        | none ↦ false
        | some info ↦
            any (has_addr with_p2p) info.addresses && not (any (has_addr base) info.addresses)
      ]

  -- `assert_eq!(addr.unwrap(), expected)`.
  abbrev pub is_addr : Option Multiaddr → Multiaddr → Bool
  is_addr none expected = false
  is_addr (some addr) expected = same_addr addr expected

  -- `add_connection_dialer_and_listener_exact`.
  unfoldable pub dialer_and_listener :
      PeerId → Multiaddr → Multiaddr → Multiaddr → ConnectionId → ConnectionId → Bool
  dialer_and_listener peer remote local_addr send_back c d =
      let one = add_connection 0 empty_view peer c (dialer remote) in
      let both = add_connection 1 one peer d (listener local_addr send_back) in
      is_connected_over one peer remote
      && is_connected_over both peer send_back
      && elim (info_of both peer) [
        | none ↦ false
        | some info ↦
            total (λ m. length m.active_connections) info.addresses == 2
            && is_addr (get_connection_address info c) remote
            && is_addr (get_connection_address info d) send_back
      ]
