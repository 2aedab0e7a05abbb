-- ===== src/Network/Announced.antt =====
-- src/network/mod.rs: the events that a subscriber of the node receives, and which connections are
-- open by them.
pub mod Silent
pub mod Calls
pub mod Told
pub mod Events
pub mod Loop
use saved.Base.{◌≡◌, Bool, true, false, ◌&&◌, List, [], ◌∷◌, if◌then◌else◌}
use saved.Libp2p.{Libp2p, PeerId, ConnectionId, same_peer, same_connection}
use saved.Network.State.{SavedNetwork, connected, disconnected, Effect, broadcasts}

module _ ⦃L : Libp2p⦄ where
  -- What a call tells a subscriber of whether a connection is open, by what was known before.
  abbrev pub hears : Effect → Bool → PeerId → ConnectionId → Bool
  hears (broadcasts (connected q d)) before p c =
      if same_peer p q && same_connection c d then true else before
  hears (broadcasts (disconnected q d)) before p c =
      if same_peer p q && same_connection c d then false else before
  hears _ before p c = before

  -- A connection is open by the events: the last one about it is `Connected`.
  abbrev pub heard : List Effect → PeerId → ConnectionId → Bool
  heard [] p c = false
  heard (e ∷ log) p c = hears e (heard log p c) p c

  -- The connections that are open by the events are the given ones.
  abbrev pub Hears : (PeerId → ConnectionId → Bool) → SavedNetwork → Type 0
  Hears f s = (p : PeerId) (c : ConnectionId) → heard s.log p c ≡ f p c
