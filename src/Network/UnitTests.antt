-- ===== src/Network/UnitTests.antt =====
-- src/network/mod.rs: the helper of the unit tests that waits for a connection, over the sequence of
-- what the receiver of the events returns.
use saved.Base.{
  ℕ, ◌≡◌, refl, ap, ◌∙◌, Bool, true, false, List, [], ◌∷◌, ◌++◌, ◌||◌, arith, is_some,
  if◌then◌else◌,
}
use saved.Libp2p.{Libp2p, PeerId, ConnectionId, same_peer}
use saved.Keygen.{Crypto}
use saved.View.Spec.{connectivity}
use saved.Network.State.{
  SavedNetworkEvent, connected, disconnected, kad_found_peer, listening_on, Swarm, Effect,
  broadcasts,
}
use saved.Network.External.{Platform}
use saved.Network.{Ready, event_loop, new}
use saved.Network.Announced.{heard}
use saved.Network.Announced.Told.{IsListened}
use saved.Network.Announced.Loop.{event_loop-IsHeard}

-- How the wait ends, or that nothing more has been received.
pub data Wait : Type 0 where
  returns panics waits : Wait

module _ ⦃L : Libp2p⦄ where
  -- What `rx.recv()` returns: an event, or one of the two errors of a broadcast channel.
  pub data Received : Type 0 where
    event : SavedNetworkEvent → Received
    lagged closed : Received

  abbrev pub is_connected_event : PeerId → SavedNetworkEvent → Bool
  is_connected_event target (connected peer_id c) = same_peer peer_id target
  is_connected_event target _ = false

  -- `wait_for_connected`: a turn of the loop for each result.
  unfoldable pub wait_for_connected : List Received → PeerId → Wait
  wait_for_connected [] target = waits
  wait_for_connected (event e ∷ rx) target =
      let rest = wait_for_connected rx target in
      if is_connected_event target e then returns else rest
  wait_for_connected (lagged ∷ rx) target = wait_for_connected rx target
  wait_for_connected (closed ∷ rx) target = panics

  -- What a receiver that was there from the start and does not lag has received.
  abbrev pub sent : List Effect → List Received
  sent [] = []
  sent (broadcasts e ∷ log) = sent log ++ (event e ∷ [])
  sent (_ ∷ log) = sent log

  -- A `Connected` of the peer is among the calls.
  abbrev pub announced : PeerId → List Effect → Bool
  announced target [] = false
  announced target (broadcasts e ∷ log) = announced target log || is_connected_event target e
  announced target (_ ∷ log) = announced target log

  abbrev pub returns_if : Bool → Wait
  returns_if b = if b then returns else waits

  -- A receiver to which one more event is sent.
  wait-append :
      (rx : List Received) (e : SavedNetworkEvent) (target : PeerId) (b : Bool)
      → wait_for_connected rx target ≡ returns_if b
      → wait_for_connected (rx ++ (event e ∷ [])) target
        ≡ returns_if (b || is_connected_event target e)
  unfolding wait_for_connected
  wait-append [] e target b h = ground (arith, h)
  wait-append (event a ∷ rx) e target b h = ground (arith, h, wait-append rx e target b)
  wait-append (lagged ∷ rx) e target b h = wait-append rx e target b h
  wait-append (closed ∷ rx) e target b h = ground (arith, h)

  -- The wait returns exactly if a `Connected` of the peer was sent, and goes on otherwise.
  pub wait_for_connected-sent :
      (log : List Effect) (target : PeerId)
      → wait_for_connected (sent log) target ≡ returns_if (announced target log)
  unfolding wait_for_connected
  wait_for_connected-sent [] target = refl
  wait_for_connected-sent (broadcasts e ∷ log) target =
      wait-append (sent log) e target (announced target log) (wait_for_connected-sent log target)
  wait_for_connected-sent (Effect.dials a ∷ log) target = wait_for_connected-sent log target
  wait_for_connected-sent (Effect.listens a ∷ log) target = wait_for_connected-sent log target
  wait_for_connected-sent (Effect.closes c ∷ log) target = wait_for_connected-sent log target
  wait_for_connected-sent (Effect.disconnects p ∷ log) target = wait_for_connected-sent log target
  wait_for_connected-sent (Effect.kad_queries p ∷ log) target = wait_for_connected-sent log target
  wait_for_connected-sent (Effect.kad_adds p a ∷ log) target = wait_for_connected-sent log target
  wait_for_connected-sent (Effect.kad_removes p a ∷ log) target = wait_for_connected-sent log target
  wait_for_connected-sent (Effect.kad_bootstraps ∷ log) target = wait_for_connected-sent log target

  -- A connection that is open by the events had its `Connected`.
  heard-announced :
      (log : List Effect) (p : PeerId) (c : ConnectionId)
      → heard log p c ≡ true
      → announced p log ≡ true
  heard-announced [] p c h = h
  heard-announced (broadcasts (connected q d) ∷ log) p c h =
      ground (arith, h, heard-announced log p c)
  heard-announced (broadcasts (disconnected q d) ∷ log) p c h =
      ground (arith, h, heard-announced log p c)
  heard-announced (broadcasts (kad_found_peer q a) ∷ log) p c h =
      ground (arith, heard-announced log p c h)
  heard-announced (broadcasts (listening_on a) ∷ log) p c h =
      ground (arith, heard-announced log p c h)
  heard-announced (Effect.dials a ∷ log) p c h = heard-announced log p c h
  heard-announced (Effect.listens a ∷ log) p c h = heard-announced log p c h
  heard-announced (Effect.closes d ∷ log) p c h = heard-announced log p c h
  heard-announced (Effect.disconnects q ∷ log) p c h = heard-announced log p c h
  heard-announced (Effect.kad_queries q ∷ log) p c h = heard-announced log p c h
  heard-announced (Effect.kad_adds q a ∷ log) p c h = heard-announced log p c h
  heard-announced (Effect.kad_removes q a ∷ log) p c h = heard-announced log p c h
  heard-announced (Effect.kad_bootstraps ∷ log) p c h = heard-announced log p c h

module _ ⦃L : Libp2p⦄ ⦃S : Swarm⦄ ⦃C : Crypto⦄ ⦃T : Platform⦄ where
  -- From the start of the node, where the events always have a receiver, and this one does not
  -- lag: after any turns of the event loop, the wait for a peer with a connection that is open in
  -- the view returns.
  pub wait_for_connected-open :
      (fuel : ℕ) (turns : List Ready) (keypair : C.Keypair) (p : PeerId) (c : ConnectionId)
      → IsListened
      → let s = (event_loop fuel turns (new keypair).1).1 in
        is_some ((connectivity s.view).at p c) ≡ true → wait_for_connected (sent s.log) p ≡ returns
  wait_for_connected-open fuel turns keypair p c l k =
      let s = (event_loop fuel turns (new keypair).1).1 in
      wait_for_connected-sent s.log p
      ∙ ap returns_if (heard-announced s.log p c (event_loop-IsHeard fuel turns keypair l p c k))
