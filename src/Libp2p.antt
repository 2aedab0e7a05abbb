-- ===== src/Libp2p.antt =====
-- What the program uses of the libp2p crates, which are not part of the repository: peer ids,
-- connection ids, multiaddresses and stream protocols are parameters with the operations that the
-- program calls, and the documented behaviour of those operations is stated as laws.
use Prim.Native.String.{String}
use saved.Base.{ℕ, ◌≡◌, Bool, true, false, List, [], ◌∷◌, ◌++◌, arith, test}

-- One component of a multiaddress. The constructors are the ones that the program matches on;
-- `other` stands for each of the rest.
pub data Protocol (P : Type 0) : Type 0 where
  ip4 : ℕ → ℕ → ℕ → ℕ → Protocol P
  ip6 : List ℕ → Protocol P
  ip6zone quic quic_v1 p2p_circuit : Protocol P
  tcp : ℕ → Protocol P
  p2p : P → Protocol P
  other : ℕ → Protocol P

pub record Libp2p : Type 1 where
  pub PeerId : Type 0
  pub peer_discrete : Discrete PeerId
  pub to_bytes : PeerId → List ℕ
  pub to_bytes_injective : (p q : PeerId) → to_bytes p ≡ to_bytes q → p ≡ q
  pub ConnectionId : Type 0
  pub connection_discrete : Discrete ConnectionId
  pub Multiaddr : Type 0
  pub addr_discrete : Discrete Multiaddr
  pub addr_le : Multiaddr → Multiaddr → Bool
  pub addr_le_trans :
      (a b c : Multiaddr) → addr_le a b ≡ true → addr_le b c ≡ true → addr_le a c ≡ true
  pub addr_le_connex : (a b : Multiaddr) → addr_le a b ≡ false → addr_le b a ≡ true
  pub iter : Multiaddr → List (Protocol PeerId)
  pub with_protocol : Multiaddr → Protocol PeerId → Multiaddr
  pub iter-with_protocol :
      (a : Multiaddr) (p : Protocol PeerId) → iter (with_protocol a p) ≡ iter a ++ p ∷ []
  pub StreamProtocol : Type 0
  pub stream_discrete : Discrete StreamProtocol
  pub as_ref : StreamProtocol → String

module _ ⦃L : Libp2p⦄ where
  abbrev pub PeerId : Type 0
  PeerId = L.PeerId

  abbrev pub ConnectionId : Type 0
  ConnectionId = L.ConnectionId

  abbrev pub Multiaddr : Type 0
  Multiaddr = L.Multiaddr

  abbrev pub StreamProtocol : Type 0
  StreamProtocol = L.StreamProtocol

  -- `ConnectedPoint` of libp2p-core, less the fields that the program ignores.
  pub data ConnectedPoint : Type 0 where
    dialer : Multiaddr → ConnectedPoint
    listener : Multiaddr → Multiaddr → ConnectedPoint

  -- Equality of ids and addresses, as the Boolean that `==` gives.
  abbrev pub same_peer : PeerId → PeerId → Bool
  same_peer p q = test (L.peer_discrete q p)

  abbrev pub same_connection : ConnectionId → ConnectionId → Bool
  same_connection c d = test (L.connection_discrete d c)

  abbrev pub same_addr : Multiaddr → Multiaddr → Bool
  same_addr a b = test (L.addr_discrete b a)

  pub same_peer_refl : (p : PeerId) → same_peer p p ≡ true
  same_peer_refl p = ground arith

  pub same_peer-eq : (p q : PeerId) → same_peer p q ≡ true → p ≡ q
  same_peer-eq p q h = ground arith
