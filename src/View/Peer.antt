-- ===== src/View/Peer.antt =====
-- src/view.rs: `AddressMetadata`, `PeerInfoExt` and their methods. A method that reads the clock
-- takes the instant that it reads; instants and durations are nanoseconds.
use mathlib.Core.Option
use saved.Base.{
  ℕ, ◌+◌, ◌-◌, ◌*◌, ◌^◌, min, Bool, true, false, Option, none, some, List, [], ◌∷◌, ltb, compare,
  Ordering, if◌then◌else◌,
}
use saved.Base.Lists.{any, find, modify_first}
use saved.Base.Sort.{sort}
use saved.Libp2p.{Libp2p, ConnectionId, Multiaddr, StreamProtocol, same_connection, same_addr}
use saved.View.Classify.{Transport, NetScope, transport_rank, scope_rank, classify_addr}

-- `Duration::from_secs`.
abbrev pub from_secs : ℕ → ℕ
from_secs s = s * 1_000_000_000

-- The order of two entries by the first part of the key that differs.
abbrev pub lex : Ordering → Bool → Bool
lex Ordering.lt next = true
lex Ordering.eq next = next
lex Ordering.gt next = false

abbrev pub flag : Bool → ℕ
flag false = 0
flag true = 1

module _ ⦃L : Libp2p⦄ where
  pub record AddressMetadata : Type 0 where
    pub address : Multiaddr
    pub active_connections : List ConnectionId
    pub transport : Transport
    pub scope : NetScope
    pub last_err : Option ℕ
    pub err_count : ℕ

  pub record PeerInfoExt : Type 0 where
    pub addresses : List AddressMetadata
    pub protocols : List StreamProtocol
    pub supports_relay_hop_v2 : Bool
    pub rtt : ℕ

  -- `PeerInfoExt::default()`.
  abbrev pub default_info : PeerInfoExt
  default_info = record { addresses = []; protocols = []; supports_relay_hop_v2 = false; rtt = 0 }

  -- A freshly classified entry: `AddressMetadata { address, transport, scope, ..Default }`.
  unfoldable pub new_metadata : Multiaddr → AddressMetadata
  new_metadata addr = record {
    address = addr;
    active_connections = [];
    transport = (classify_addr addr).1;
    scope = (classify_addr addr).0;
    last_err = none;
    err_count = 0;
  }

  abbrev pub has_addr : Multiaddr → AddressMetadata → Bool
  has_addr addr m = same_addr addr m.address

  abbrev pub holds : ConnectionId → AddressMetadata → Bool
  holds c m = any (same_connection c) m.active_connections

  abbrev pub is_active : AddressMetadata → Bool
  is_active m = elim m.active_connections [ [] ↦ false | _ ∷ _ ↦ true ]

  -- `Duration::from_secs(1 << self.err_count.min(6))`.
  unfoldable pub backoff : ℕ → ℕ
  backoff err_count = from_secs (2 ^ min err_count 6)

  unfoldable pub is_in_cooldown : ℕ → AddressMetadata → Bool
  is_in_cooldown now m = elim m.last_err [
    | none ↦ false
    | some at ↦ ltb (now - at) (backoff m.err_count)
  ]

  -- The key of `resort`: cooldown, scope, transport, address, in this order.
  unfoldable pub key_le : ℕ → AddressMetadata → AddressMetadata → Bool
  unfolding scope_rank transport_rank
  key_le now m n = lex (compare (flag (is_in_cooldown now m)) (flag (is_in_cooldown now n))) (
      lex (compare (scope_rank m.scope) (scope_rank n.scope)) (
        lex (compare (transport_rank m.transport) (transport_rank n.transport))
          (L.addr_le m.address n.address)))

  unfoldable pub resort : ℕ → PeerInfoExt → PeerInfoExt
  resort now info = record info { addresses = sort (key_le now) info.addresses }

  unfoldable pub get_connection_address : PeerInfoExt → ConnectionId → Option Multiaddr
  get_connection_address info c = Option.map (λ m. m.address) (find (holds c) info.addresses)

  -- `u32::saturating_add(1)`.
  abbrev pub saturating_suc : ℕ → ℕ
  saturating_suc n = min (n + 1) (2 ^ 32 - 1)

  abbrev pub failed_at : ℕ → AddressMetadata → AddressMetadata
  failed_at now m = record m { err_count = saturating_suc m.err_count; last_err = some now }

  unfoldable pub mark_failure : ℕ → PeerInfoExt → Multiaddr → PeerInfoExt
  mark_failure now info addr =
      if any (has_addr addr) info.addresses
      then resort now
          (record info { addresses = modify_first (has_addr addr) (failed_at now) info.addresses })
      else info

  abbrev pub cleared : AddressMetadata → AddressMetadata
  cleared m = record m { err_count = 0; last_err = none }

  unfoldable pub clear_backoff_on_success : PeerInfoExt → Multiaddr → PeerInfoExt
  clear_backoff_on_success info addr = record info {
    addresses = modify_first (has_addr addr) cleared info.addresses;
  }
