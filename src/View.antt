-- ===== src/View.antt =====
-- src/view.rs: `NetworkView` and its methods. Each method is the work on the peer's entry, and the
-- change of the map.
pub mod Classify
pub mod Scope
pub mod Peer
pub mod Count
pub mod Attach
pub mod Insert
pub mod Invariant
pub mod Locate
pub mod Entry
pub mod Order
pub mod Ranked
pub mod Knows
pub mod Spec
pub mod Observe
pub mod UnitTests
pub mod Consistent
use mathlib.Core.Option
use text.Mathlib.Text.{◌==◌ as str_eq}
use saved.Base.{
  ℕ, Bool, true, false, not, ◌&&◌, ◌||◌, Option, none, some, List, [], ◌∷◌, ◌++◌, if◌then◌else◌,
  test,
}
use saved.Base.Lists.{any, all, find, modify_first, remove_first, swap_remove_first, is_empty}
use saved.Base.Assoc.{get, upsert, modify, remove, value_or}
use saved.Libp2p.{
  Libp2p, PeerId, ConnectionId, Multiaddr, StreamProtocol, ConnectedPoint, dialer, listener,
  same_connection, same_addr,
}
use Peer.{
  AddressMetadata, PeerInfoExt, default_info, new_metadata, has_addr, holds, is_active, resort,
  clear_backoff_on_success,
}

module _ ⦃L : Libp2p⦄ where
  pub record NetworkView : Type 0 where
    pub peers : List (PeerId × PeerInfoExt)

  abbrev pub info_of : NetworkView → PeerId → Option PeerInfoExt
  info_of view p = get L.peer_discrete p view.peers

  abbrev pub empty_view : NetworkView
  empty_view = record { peers = [] }

  -- `add_address` on the peer's entry; the Boolean says whether the address is new.
  unfoldable pub insert_address : ℕ → Multiaddr → PeerInfoExt → PeerInfoExt × Bool
  insert_address now addr info =
      if any (has_addr addr) info.addresses
      then (resort now info, false)
      else (resort now (record info { addresses = info.addresses ++ new_metadata addr ∷ [] }), true)

  unfoldable pub add_address : ℕ → NetworkView → PeerId → Multiaddr → NetworkView × Bool
  add_address now view p addr = (
    record {
      peers =
          upsert L.peer_discrete p default_info (λ info. (insert_address now addr info).0)
            view.peers;
    },
    (insert_address now addr (value_or L.peer_discrete default_info (info_of view p))).1,
  )

  unfoldable pub prune_empty : NetworkView → PeerId → NetworkView
  prune_empty view p = elim (info_of view p) [
    | none ↦ view
    | some info ↦
        if all (λ m. not (is_active m)) info.addresses && is_empty info.addresses
        then record { peers = remove L.peer_discrete p view.peers }
        else view
  ]

  unfoldable pub drop_address : ℕ → Multiaddr → PeerInfoExt → PeerInfoExt
  drop_address now addr info =
      resort now (record info { addresses = remove_first (has_addr addr) info.addresses })

  unfoldable pub remove_address : ℕ → NetworkView → PeerId → Multiaddr → NetworkView
  remove_address now view p addr = elim (info_of view p) [
    | none ↦ view
    | some _ ↦
        prune_empty (record { peers = modify L.peer_discrete p (drop_address now addr) view.peers })
          p
  ]

  unfoldable pub remote_addr : ConnectedPoint → Multiaddr
  remote_addr (dialer address) = address
  remote_addr (listener local_addr send_back_addr) = send_back_addr

  -- The connection leaves the first entry that holds it.
  unfoldable pub detach : ConnectionId → PeerInfoExt → PeerInfoExt
  detach c info = record info {
    addresses =
        modify_first (holds c)
          (λ m. record m {
            active_connections = swap_remove_first (same_connection c) m.active_connections;
          })
          info.addresses;
  }

  unfoldable pub ensure_address : Multiaddr → PeerInfoExt → PeerInfoExt
  ensure_address addr info =
      if any (has_addr addr) info.addresses
      then info
      else record info { addresses = info.addresses ++ new_metadata addr ∷ [] }

  abbrev pub push_connection : ConnectionId → AddressMetadata → AddressMetadata
  push_connection c m =
      if holds c m then m else record m { active_connections = m.active_connections ++ c ∷ [] }

  -- `add_connection` from "Ensure we have metadata for the remote address" on.
  unfoldable pub attach : ℕ → ConnectionId → Multiaddr → PeerInfoExt → PeerInfoExt
  attach now c remote info =
      let known = ensure_address remote info in
      let pushed = record known {
        addresses = modify_first (has_addr remote) (push_connection c) known.addresses;
      } in
      resort now (clear_backoff_on_success pushed remote)

  -- `add_connection` on the peer's entry.
  unfoldable pub insert_connection : ℕ → ConnectionId → Multiaddr → PeerInfoExt → PeerInfoExt
  insert_connection now c remote info = elim (find (holds c) info.addresses) [
    | none ↦ attach now c remote info
    | some old ↦
        if same_addr remote old.address
        then resort now (clear_backoff_on_success info old.address)
        else attach now c remote (detach c info)
  ]

  unfoldable pub add_connection :
      ℕ → NetworkView → PeerId → ConnectionId → ConnectedPoint → NetworkView
  add_connection now view p c endpoint = record {
    peers =
        upsert L.peer_discrete p default_info (insert_connection now c (remote_addr endpoint))
          view.peers;
  }

  unfoldable pub remove_connection : ℕ → NetworkView → PeerId → ConnectionId → NetworkView
  remove_connection now view p c = elim (info_of view p) [
    | none ↦ view
    | some _ ↦
        prune_empty
          (record { peers = modify L.peer_discrete p (λ i. resort now (detach c i)) view.peers }) p
  ]

  unfoldable pub is_connected_over : NetworkView → PeerId → Multiaddr → Bool
  is_connected_over view p addr = elim (info_of view p) [
    | none ↦ false
    | some info ↦ elim (find (has_addr addr) info.addresses) [ none ↦ false | some m ↦ is_active m ]
  ]

  unfoldable pub is_connected : NetworkView → PeerId → Bool
  is_connected view p = elim (info_of view p) [
    | none ↦ false
    | some info ↦ any is_active info.addresses
  ]

  -- `HashSet::from_iter`.
  abbrev pub from_iter : List StreamProtocol → List StreamProtocol
  from_iter [] = []
  from_iter (p ∷ ps) =
      let rest = from_iter ps in
      if any (λ q. test (L.stream_discrete q p)) rest then rest else p ∷ rest

  abbrev pub is_hop_v2 : StreamProtocol → Bool
  is_hop_v2 p =
      let s = L.as_ref p in
      str_eq s "/libp2p/circuit/relay/0.2.0/hop" || str_eq s "/libp2p/circuit/relay/0.2.0"

  -- What `set_protocols` writes into the entry.
  unfoldable pub with_protocols : List StreamProtocol → PeerInfoExt → PeerInfoExt
  with_protocols seen info = record info {
    protocols = seen;
    supports_relay_hop_v2 = any is_hop_v2 seen;
  }

  unfoldable pub set_protocols : NetworkView → PeerId → List StreamProtocol → NetworkView
  set_protocols view p protocols = record {
    peers = upsert L.peer_discrete p default_info (with_protocols (from_iter protocols)) view.peers;
  }

  -- `if let Some(info) = view.peers.get_mut(p)` and a change of the entry.
  unfoldable pub update_peer : (PeerInfoExt → PeerInfoExt) → NetworkView → PeerId → NetworkView
  update_peer f view p = record { peers = modify L.peer_discrete p f view.peers }
