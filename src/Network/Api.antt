-- ===== src/Network/Api.antt =====
-- src/network/mod.rs: `impl SavedNetworkApi for SavedNetwork`, and `set_active_mode`, which is made
-- of its methods.
use mathlib.Core.Option
use saved.Base.{Bool, true, false, not, Option, none, some, List, [], ◌∷◌, if◌then◌else◌}
use saved.Base.Lists.{any, remove_first}
use saved.Libp2p.{Libp2p, PeerId, Multiaddr, same_peer}
use saved.Relay.Address.{is_p2p}
use saved.Relay.{contains, set_insert}
use saved.Network.State.{
  KadMode, auto, client, SavedError, io, kad_disabled, kad_no_known_peers, dial_addr_missing_p2p,
  Swarm, dials, kad_queries, kad_bootstraps, ok, err, M, ◌>>=◌, ◌>>◌, pure, throw, emit,
}

module _ ⦃L : Libp2p⦄ ⦃S : Swarm⦄ where
  unfoldable pub set_mdns_enabled : Bool → M (Unit {0})
  set_mdns_enabled enabled s =
      if enabled
      then (if s.mdns
          then (ok tt, s)
          else if S.mdns_ok s.log
          then (ok tt, record s { mdns = true })
          else (err io, s))
      else (ok tt, record s { mdns = false })

  -- Kademlia is started, in automatic mode, where it does not run, and then set to the mode.
  unfoldable pub set_kad_enabled : Bool → KadMode → M (Unit {0})
  set_kad_enabled enabled mode s =
      let started : Option KadMode = elim s.kad [ none ↦ some auto | some m ↦ some m ] in
      if enabled
      then (ok tt, record s { kad = Option.map (λ _. mode) started })
      else (ok tt, record s { kad = none })

  unfoldable pub kad_find_peer : PeerId → M (Unit {0})
  kad_find_peer target s = elim s.kad [
    | some _ ↦ emit (kad_queries target) s
    | none ↦ throw kad_disabled s
  ]

  unfoldable pub kad_bootstrap : M (Unit {0})
  kad_bootstrap s = elim s.kad [
    | some _ ↦
        let called = record s { log = kad_bootstraps ∷ s.log } in
        if S.bootstrap_ok s.log then (ok tt, called) else (err kad_no_known_peers, called)
    | none ↦ throw kad_disabled s
  ]

  -- `swarm.dial(addr)`: whether the swarm accepts it.
  unfoldable pub swarm_dial : Multiaddr → M Bool
  swarm_dial addr s = (ok (S.dial_ok s.log addr), record s { log = dials addr ∷ s.log })

  unfoldable pub dial : Multiaddr → M (Unit {0})
  dial addr =
      if any is_p2p (L.iter addr)
      then (do accepted ← swarm_dial addr; if accepted then pure tt else throw SavedError.dial)
      else throw (dial_addr_missing_p2p addr)

  unfoldable pub add_target_peer : PeerId → M Bool
  add_target_peer target s = (
    ok (not (contains s.target_peers target)),
    record s { target_peers = set_insert target s.target_peers },
  )

  unfoldable pub remove_target_peer : PeerId → M Bool
  remove_target_peer target s = (
    ok (contains s.target_peers target),
    record s { target_peers = remove_first (same_peer target) s.target_peers },
  )

  -- The `for` of `set_active_mode` over the target peers.
  unfoldable pub find_targets : List PeerId → M (Unit {0})
  find_targets [] = pure tt
  find_targets (t ∷ ts) = do kad_find_peer t; find_targets ts

  abbrev with_active_mode : Bool → M (Unit {0})
  with_active_mode active s = (ok tt, record s { active_mode = active })

  abbrev find_all_targets : M (Unit {0})
  find_all_targets s = find_targets s.target_peers s

  unfoldable pub set_active_mode : Bool → M (Unit {0})
  set_active_mode active =
      with_active_mode active
      >> (if active
          then (do set_kad_enabled true client; set_mdns_enabled true; find_all_targets)
          else set_kad_enabled false auto)
