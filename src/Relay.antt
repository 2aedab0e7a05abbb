-- ===== src/Relay.antt =====
-- src/network/relay_manager.rs: `RelayManager`, and the loop of `prune_relays` in
-- src/network/mod.rs, which drives it. A `HashSet` is a list without duplicates.
pub mod Address
pub mod UnitTests
pub mod Reserve
pub mod InUse
pub mod Open
pub mod Prune
use mathlib.Core.Option
use saved.Base.{
  ℕ, zero, suc, ◌+◌, ◌*◌, Bool, true, false, not, ◌&&◌, Option, none, some, List, [], ◌∷◌, ◌++◌,
  ltb, if◌then◌else◌,
}
use saved.Base.Lists.{length, any, filter, max_by_key, remove_first}
use saved.Libp2p.{Libp2p, PeerId, same_peer}
use saved.View.Peer.{AddressMetadata, PeerInfoExt, is_active}
use saved.View.{NetworkView, info_of}
use Address.{addr_is_relay, extract_relay_peer}

-- `Duration::MAX`, in nanoseconds.
abbrev pub duration_max : ℕ
duration_max = 18_446_744_073_709_551_615 * 1_000_000_000 + 999_999_999

module _ ⦃L : Libp2p⦄ where
  pub record RelayManager : Type 0 where
    pub reserved : List PeerId
    pub in_use : List PeerId
    pub max_relays : ℕ

  pub record RelayStats : Type 0 where
    pub reserved_count : ℕ
    pub in_use_count : ℕ
    pub max_relays : ℕ

  abbrev pub contains : List PeerId → PeerId → Bool
  contains ps p = any (same_peer p) ps

  abbrev pub new : ℕ → RelayManager
  new max_relays = record { reserved = []; in_use = []; max_relays = max_relays }

  -- `Default for RelayManager`.
  abbrev default_manager : RelayManager
  default_manager = new 2

  unfoldable pub can_reserve : RelayManager → PeerId → Bool
  can_reserve m r =
      if contains m.reserved r
      then true
      else ltb (length m.reserved) (length m.in_use + m.max_relays)

  unfoldable pub register : RelayManager → PeerId → RelayManager
  register m r = if contains m.reserved r then m else record m { reserved = m.reserved ++ r ∷ [] }

  -- `HashSet::insert`.
  unfoldable pub set_insert : PeerId → List PeerId → List PeerId
  set_insert p s = if contains s p then s else p ∷ s

  -- One round of the inner loop of `recompute_in_use`.
  unfoldable pub note_address : AddressMetadata → List PeerId → List PeerId
  note_address meta s =
      if is_active meta && addr_is_relay meta.address
      then elim (extract_relay_peer meta.address) [ none ↦ s | some r ↦ set_insert r s ]
      else s

  unfoldable pub note_addresses : List AddressMetadata → List PeerId → List PeerId
  note_addresses [] s = s
  note_addresses (m ∷ ms) s = note_addresses ms (note_address m s)

  unfoldable pub note_peers : List (PeerId × PeerInfoExt) → List PeerId → List PeerId
  note_peers [] s = s
  note_peers ((p, info) ∷ ps) s = note_peers ps (note_addresses info.addresses s)

  unfoldable pub recompute_in_use : RelayManager → NetworkView → RelayManager
  recompute_in_use m view = record m { in_use = note_peers view.peers [] }

  unfoldable pub should_prune : RelayManager → Bool
  should_prune m = ltb (length m.in_use + m.max_relays) (length m.reserved)

  -- The key of `get_worst_unused`.
  unfoldable pub rtt_or_max : NetworkView → PeerId → ℕ
  rtt_or_max view r = elim (info_of view r) [ none ↦ duration_max | some info ↦ info.rtt ]

  abbrev pub is_unused : RelayManager → PeerId → Bool
  is_unused m r = not (contains m.in_use r)

  unfoldable pub get_worst_unused : RelayManager → NetworkView → Option PeerId
  get_worst_unused m view = max_by_key (rtt_or_max view) (filter (is_unused m) m.reserved)

  unfoldable pub remove : RelayManager → PeerId → RelayManager × Bool
  remove m r =
      if contains m.reserved r
      then (record m { reserved = remove_first (same_peer r) m.reserved }, true)
      else (m, false)

  unfoldable pub get_relay_rtt : NetworkView → PeerId → Option ℕ
  get_relay_rtt view r = Option.map (λ info. info.rtt) (info_of view r)

  unfoldable pub stats : RelayManager → RelayStats
  stats m = record {
    reserved_count = length m.reserved;
    in_use_count = length m.in_use;
    max_relays = m.max_relays;
  }

  -- The `while` of `prune_relays`: the manager after it, and the peers that it disconnects.
  unfoldable pub prune_loop : ℕ → NetworkView → RelayManager → RelayManager × List PeerId
  prune_loop zero view m = (m, [])
  prune_loop (suc fuel) view m = elim (should_prune m) [
    | false ↦ (m, [])
    | true ↦ elim (get_worst_unused m view) [
      | none ↦ (m, [])
      | some worst ↦
          let (m', pruned) = prune_loop fuel view (remove m worst).0 in (m', worst ∷ pruned)
    ]
  ]

  -- Each round removes a reserved relay, so the number of reservations is fuel enough.
  unfoldable pub prune_relays : NetworkView → RelayManager → RelayManager × List PeerId
  prune_relays view m = prune_loop (length m.reserved) view m
