-- ===== src/Network/Invariant.antt =====
-- src/network/mod.rs: the invariant of the network, the methods of its API and the steps of its
-- handlers.
pub mod Loop
pub mod Steady
pub mod Connectivity
pub mod Does
pub mod Events
use saved.Base.{◌≡◌, refl, Bool, true, false, List, [], ◌∷◌, arith, if◌then◌else◌}
use saved.Base.Lists.{total-remove_first}
use saved.Libp2p.{Libp2p, PeerId, Multiaddr, same_peer}
use saved.View.Consistent.{IsConsistent, step, step-IsConsistent, fails}
use saved.Relay.{register, recompute_in_use}
use saved.Relay.Reserve.{IsSound, IsDistinct, register-IsSound}
use saved.Relay.InUse.{recompute_in_use-IsSound, set_insert-IsDistinct}
use saved.Relay.Prune.{prune_relays-IsSound}
use saved.Network.State.{KadMode, auto, client, SavedNetwork, Swarm, M}
use saved.Network.Api.{
  set_mdns_enabled, set_kad_enabled, kad_find_peer, kad_bootstrap, swarm_dial, dial,
  add_target_peer, remove_target_peer, find_targets, set_active_mode,
}
use saved.Network.Closed.{IsClosedRound, IsClosed, Keeps-then, Keeps-if}
use saved.Network.Closed

module _ ⦃L : Libp2p⦄ where
  pub record IsValid (s : SavedNetwork) : Type 0 where
    pub view_ok : IsConsistent s.view
    pub relays_ok : IsSound s.relay_manager
    pub targets_ok : IsDistinct s.target_peers

  -- A method keeps the invariant, whatever it returns.
  abbrev pub Keeps : {A : Type 0} → M A → Type 0
  Keeps m = Closed.Keeps IsValid m

  -- A change of fields that the invariant does not read.
  pub same_parts :
      (s t : SavedNetwork)
      → IsValid s
      → t.view ≡ s.view
      → t.relay_manager ≡ s.relay_manager
      → t.target_peers ≡ s.target_peers
      → IsValid t
  same_parts s t h a b c = record {
    view_ok = rw a h.view_ok;
    relays_ok = rw b h.relays_ok;
    targets_ok = rw c h.targets_ok;
  }

  pub IsValid-marked : IsClosedRound IsValid
  unfolding step
  IsValid-marked = record {
    same = λ s t h a b c _. same_parts s t h a b c;
    marks = λ now p addr s h. record {
      view_ok = step-IsConsistent s.view (fails now p addr) h.view_ok;
      relays_ok = h.relays_ok;
      targets_ok = h.targets_ok;
    };
  }

module _ ⦃L : Libp2p⦄ ⦃S : Swarm⦄ where
  pub set_mdns_enabled-Keeps : (b : Bool) → Keeps (set_mdns_enabled b)
  unfolding set_mdns_enabled
  set_mdns_enabled-Keeps b s h = same_parts s _ h (ground arith) (ground arith) (ground arith)

  pub set_kad_enabled-Keeps : (b : Bool) (mode : KadMode) → Keeps (set_kad_enabled b mode)
  unfolding set_kad_enabled
  set_kad_enabled-Keeps b mode s h = same_parts s _ h (ground arith) (ground arith) (ground arith)

  pub kad_find_peer-Keeps : (p : PeerId) → Keeps (kad_find_peer p)
  unfolding kad_find_peer
  kad_find_peer-Keeps p s h = same_parts s _ h (ground arith) (ground arith) (ground arith)

  pub kad_bootstrap-Keeps : Keeps kad_bootstrap
  unfolding kad_bootstrap
  kad_bootstrap-Keeps s h = same_parts s _ h (ground arith) (ground arith) (ground arith)

  pub dial-Keeps : (addr : Multiaddr) → Keeps (dial addr)
  unfolding dial swarm_dial
  dial-Keeps addr s h = same_parts s _ h (ground arith) (ground arith) (ground arith)

  pub add_target_peer-Keeps : (p : PeerId) → Keeps (add_target_peer p)
  unfolding add_target_peer
  add_target_peer-Keeps p s h = record {
    view_ok = h.view_ok;
    relays_ok = h.relays_ok;
    targets_ok = set_insert-IsDistinct p s.target_peers h.targets_ok;
  }

  pub remove_target_peer-Keeps : (p : PeerId) → Keeps (remove_target_peer p)
  unfolding remove_target_peer
  remove_target_peer-Keeps p s h = record {
    view_ok = h.view_ok;
    relays_ok = h.relays_ok;
    targets_ok = λ q. omega (
      arith,
      h.targets_ok q,
      total-remove_first (λ z. if same_peer q z then 1 else 0) (same_peer p) s.target_peers,
    );
  }

  find_targets-Keeps : (ts : List PeerId) → Keeps (find_targets ts)
  unfolding find_targets
  find_targets-Keeps [] s h = h
  find_targets-Keeps (t ∷ ts) s h =
      Keeps-then IsValid (kad_find_peer t) (find_targets ts) (kad_find_peer-Keeps t)
        (find_targets-Keeps ts) s h

  pub set_active_mode-Keeps : (b : Bool) → Keeps (set_active_mode b)
  unfolding set_active_mode
  set_active_mode-Keeps b s h =
      Keeps-if IsValid b _ (set_kad_enabled false auto)
        (Keeps-then IsValid (set_kad_enabled true client) _ (set_kad_enabled-Keeps true client) (
          Keeps-then IsValid (set_mdns_enabled true) _ (set_mdns_enabled-Keeps true)
            (λ t k. find_targets-Keeps t.target_peers t k)))
        (set_kad_enabled-Keeps false auto) (record s { active_mode = b })
        (same_parts s _ h refl refl refl)

  -- Every step of the network keeps it valid.
  pub IsValid-kept : IsClosed IsValid
  IsValid-kept = record {
    round = IsValid-marked;
    calls = λ call s h. record {
      view_ok = step-IsConsistent s.view call h.view_ok;
      relays_ok = h.relays_ok;
      targets_ok = h.targets_ok;
    };
    tracks = λ r s h. record {
      view_ok = h.view_ok;
      relays_ok =
          prune_relays-IsSound s.view (recompute_in_use (register s.relay_manager r) s.view) (
            recompute_in_use-IsSound (register s.relay_manager r) s.view
              (register-IsSound s.relay_manager r h.relays_ok));
      targets_ok = h.targets_ok;
    };
    prunes = λ s h. record {
      view_ok = h.view_ok;
      relays_ok =
          prune_relays-IsSound s.view (recompute_in_use s.relay_manager s.view)
            (recompute_in_use-IsSound s.relay_manager s.view h.relays_ok);
      targets_ok = h.targets_ok;
    };
    modes = λ active p s _ h. set_active_mode-Keeps active s h;
  }
