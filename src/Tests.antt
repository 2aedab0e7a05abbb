-- ===== src/Tests.antt =====
-- A concrete libp2p and a concrete swarm, on which the development is evaluated.
pub mod View
pub mod Relay
pub mod Network
pub mod Program
pub mod Node
use mathlib.Core.List.{List-discrete}
use saved.Base.{
  ℕ, ◌≡◌, refl, Bool, true, false, List, [], ◌∷◌, ◌++◌, arith, compare, if◌then◌else◌, ◌==◌,
  ℕ_discrete,
}
use saved.Libp2p.{Libp2p, Protocol, ip4, ip6, ip6zone, quic, quic_v1, p2p_circuit, tcp, p2p, other}
use saved.View.Peer.{lex}
use saved.Base.{Option, none, some}
use saved.Base.Lists.{length}
use saved.Keygen.{Crypto, zeros}
use saved.Network.State.{Swarm}
use saved.Network.External.{Platform}
use Prim.Native.String.{String}
use text.Mathlib.Text.{◌==◌ as str_eq}

-- A protocol as a list of numbers, its kind first.
abbrev pub code : Protocol ℕ → List ℕ
code (ip4 a b c d) = 0 ∷ a ∷ b ∷ c ∷ d ∷ []
code (ip6 octets) = 1 ∷ octets
code ip6zone = 2 ∷ []
code quic = 3 ∷ []
code quic_v1 = 4 ∷ []
code p2p_circuit = 5 ∷ []
code (tcp port) = 6 ∷ port ∷ []
code (p2p p) = 7 ∷ p ∷ []
code (other n) = 8 ∷ n ∷ []

abbrev pub codes : List (Protocol ℕ) → List ℕ
codes [] = []
codes (p ∷ ps) = code p ++ codes ps

abbrev pub code_le : List ℕ → List ℕ → Bool
code_le [] b = true
code_le (x ∷ a) [] = false
code_le (x ∷ a) (y ∷ b) = lex (compare x y) (code_le a b)

pub code_le_trans : (a b c : List ℕ) → code_le a b ≡ true → code_le b c ≡ true → code_le a c ≡ true
code_le_trans [] b c h k = refl
code_le_trans (x ∷ a) [] c h k = cc
code_le_trans (x ∷ a) (y ∷ b) [] h k = cc
code_le_trans (x ∷ a) (y ∷ b) (z ∷ c) h k = ground (arith, code_le_trans a b c)

pub code_le_connex : (a b : List ℕ) → code_le a b ≡ false → code_le b a ≡ true
code_le_connex [] b h = cc
code_le_connex (x ∷ a) [] h = refl
code_le_connex (x ∷ a) (y ∷ b) h = ground (arith, code_le_connex a b)

abbrev pub protocol-discrete : Discrete (Protocol ℕ)
protocol-discrete = hlevel (ℕ_discrete, List-discrete ℕ_discrete)

pub bytes_injective : (p q : ℕ) → p ∷ [] ≡ q ∷ [] → p ≡ q
bytes_injective p q h = ground arith

-- Peers and connections are numbers, addresses lists of protocols in lexicographic order.
instance abbrev pub sample : Libp2p
sample = record {
  PeerId = ℕ;
  peer_discrete = ℕ_discrete;
  to_bytes = λ p. p ∷ [];
  to_bytes_injective = bytes_injective;
  ConnectionId = ℕ;
  connection_discrete = ℕ_discrete;
  Multiaddr = List (Protocol ℕ);
  addr_discrete = List-discrete protocol-discrete;
  addr_le = λ a b. code_le (codes a) (codes b);
  addr_le_trans = λ a b c. code_le_trans (codes a) (codes b) (codes c);
  addr_le_connex = λ a b. code_le_connex (codes a) (codes b);
  iter = λ a. a;
  with_protocol = λ a p. a ++ p ∷ [];
  iter-with_protocol = λ a p. refl;
  StreamProtocol = ℕ;
  stream_discrete = ℕ_discrete;
  as_ref = λ n. if n == 0 then "/libp2p/circuit/relay/0.2.0/hop" else "/ipfs/ping/1.0.0";
}

-- The local peer is 1, and the swarm accepts every dial but those of an empty address.
instance abbrev pub willing : Swarm
willing = record {
  local_peer_id = 1;
  dial_ok = λ calls a. elim a [ [] ↦ false | p ∷ ps ↦ true ];
  mdns_ok = λ calls. true;
  bootstrap_ok = λ calls. true;
  has_receiver = λ calls. true;
}

-- The same swarm, where every dial is refused.
abbrev pub refusing : Swarm
refusing = record willing { dial_ok = λ calls a. false }

abbrev pub lan_quic : List (Protocol ℕ)
lan_quic = ip4 192 168 1 2 ∷ quic_v1 ∷ []

abbrev pub wan_tcp : List (Protocol ℕ)
wan_tcp = ip4 8 8 8 8 ∷ tcp 4_001 ∷ []

abbrev pub relayed : List (Protocol ℕ)
relayed = ip4 1 2 3 4 ∷ tcp 4_001 ∷ p2p 9 ∷ p2p_circuit ∷ []

abbrev pub any_ip4 : List (Protocol ℕ)
any_ip4 = ip4 0 0 0 0 ∷ tcp 0 ∷ []

abbrev pub any_ip6 : List (Protocol ℕ)
any_ip6 = ip6 (zeros 16) ∷ tcp 0 ∷ []

-- The addresses to listen on; every other text is an address of the peer 5.
abbrev pub read_addr : String → List (Protocol ℕ)
read_addr text =
    if str_eq text "/ip4/0.0.0.0/tcp/0"
    then any_ip4
    else if str_eq text "/ip6/::/tcp/0"
    then any_ip6
    else ip4 104 131 131 82 ∷ tcp 4_001 ∷ p2p 5 ∷ []

-- The builder, the listening and the parsing succeed, and the task is the number 0.
instance abbrev pub linux : Platform
linux = record {
  tcp_ok = true;
  dns_ok = true;
  relay_ok = true;
  listen_ok = λ calls a. true;
  parse_addr = λ text. some (read_addr text);
  parse_peer =
      λ text. some (if str_eq text "QmUh4bvMXKXepae9V5pbRwmhd2XqcPHDLrfrAEwpJ6J8os" then 6 else 7);
  JoinHandle = ℕ;
  spawned = 0;
  join_ok = λ task. true;
}

-- A key is the state of its generator and the number of its bits, and so is a keypair.
abbrev pub encode_key : List ℕ × ℕ → Option (List ℕ)
encode_key (bytes, n) = some (n ∷ bytes)

abbrev pub decode_key : List ℕ → Option (List ℕ × ℕ)
decode_key [] = none
decode_key (n ∷ bytes) = some (bytes, n)

pub same_bits : (rng : List ℕ) (n : ℕ) (key : List ℕ × ℕ) → some (rng, n) ≡ some key → key.1 ≡ n
same_bits rng n (bytes, m) h = ground arith

pub decode_of_encode :
    (key : List ℕ × ℕ) (der : List ℕ)
    → key.1 ≡ 2_048
    → encode_key key ≡ some der
    → decode_key der ≡ some key
decode_of_encode (bytes, n) [] b h = ground arith
decode_of_encode (bytes, n) (m ∷ ms) b h = ground arith

-- The hash is the length of the text.
instance abbrev pub toy_keys : Crypto
toy_keys = record {
  sha256 = λ bytes. length bytes ∷ zeros 31;
  Rng = List ℕ;
  from_seed = λ bytes. bytes;
  RsaPrivateKey = List ℕ × ℕ;
  bits = λ key. key.1;
  rsa_new = λ rng n. some (rng, n);
  to_pkcs8_der = encode_key;
  Keypair = List ℕ × ℕ;
  try_decode_pkcs8 = decode_key;
  to_peer_id = λ key. 1;
  of_rsa = λ key. key;
  length-sha256 = λ bytes. refl;
  bits-rsa_new = same_bits;
  decode-encode = decode_of_encode;
}

abbrev pub keypair : List ℕ × ℕ
keypair = (4 ∷ [], 2_048)
