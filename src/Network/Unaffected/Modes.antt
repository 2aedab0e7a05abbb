-- ===== src/Network/Unaffected/Modes.antt =====
-- src/network/mod.rs: a property of the network that reads the view and the calls alone, and of the
-- calls not the queries of Kademlia, is kept by the changes of the active mode.
use mathlib.Core.Path.{subst}
use saved.Base.{
  ◌≡◌, refl, Bool, true, false, not, inl, inr, Option, none, some, List, [], ◌∷◌, arith, Bool-cases,
  Option-cases,
}
use saved.Base.Lists.{find}
use saved.Libp2p.{Libp2p, PeerId}
use saved.View.{is_connected}
use saved.Relay.{contains}
use saved.Network.State.{KadMode, auto, client, SavedNetwork, Swarm, kad_queries}
use saved.Network.Api.{
  set_mdns_enabled, set_kad_enabled, kad_find_peer, find_targets, set_active_mode,
}
use saved.Network.Handlers.{leave_target, meet_target}
use saved.Network.Closed.{Keeps, Keeps-then, Keeps-if}

module _ ⦃L : Libp2p⦄ where
  pub record IsModeFree (P : SavedNetwork → Type 0) : Type 0 where
    pub same : (s t : SavedNetwork) → P s → t.view ≡ s.view → t.log ≡ s.log → P t
    pub asks : (t : PeerId) (s : SavedNetwork) → P s → P (record s { log = kad_queries t ∷ s.log })

module _ ⦃L : Libp2p⦄ ⦃S : Swarm⦄ (P : SavedNetwork → Type 0) (U : IsModeFree P) where
  pub set_mdns_enabled-Keep : (b : Bool) → Keeps P (set_mdns_enabled b)
  unfolding set_mdns_enabled
  set_mdns_enabled-Keep b s h = U.same s _ h (ground arith) (ground arith)

  pub set_kad_enabled-Keep : (b : Bool) (mode : KadMode) → Keeps P (set_kad_enabled b mode)
  unfolding set_kad_enabled
  set_kad_enabled-Keep b mode s h = U.same s _ h (ground arith) (ground arith)

  asked :
      (k : Option KadMode) (t : PeerId) (s : SavedNetwork)
      → P s
      → P (elim k [ some _ ↦ record s { log = kad_queries t ∷ s.log } | none ↦ s ])
  asked none t s h = h
  asked (some m) t s h = U.asks t s h

  pub kad_find_peer-Keep : (t : PeerId) → Keeps P (kad_find_peer t)
  unfolding kad_find_peer
  kad_find_peer-Keep t s h = subst P (ground arith) (asked s.kad t s h)

  find_targets-Keep : (ts : List PeerId) → Keeps P (find_targets ts)
  unfolding find_targets
  find_targets-Keep [] s h = h
  find_targets-Keep (t ∷ ts) s h =
      Keeps-then P (kad_find_peer t) (find_targets ts) (kad_find_peer-Keep t) (find_targets-Keep ts)
        s h

  set_active_mode-Keep : (b : Bool) → Keeps P (set_active_mode b)
  unfolding set_active_mode
  set_active_mode-Keep b s h =
      Keeps-if P b _ (set_kad_enabled false auto)
        (Keeps-then P (set_kad_enabled true client) _ (set_kad_enabled-Keep true client) (
          Keeps-then P (set_mdns_enabled true) _ (set_mdns_enabled-Keep true)
            (λ t k. find_targets-Keep t.target_peers t k)))
        (set_kad_enabled-Keep false auto) (record s { active_mode = b }) (U.same s _ h refl refl)

  pub leave_target-Keep : (p : PeerId) → Keeps P (leave_target p)
  unfolding leave_target
  leave_target-Keep p s h = elim (Bool-cases (contains s.target_peers p)) [
    | inr e ↦ rw (e, leave_target) h
    | inl e ↦ elim (Bool-cases (is_connected s.view p)) [
      | inl d ↦ rw (e, d, leave_target) h
      | inr d ↦ rw (e, d, leave_target) (set_active_mode-Keep true s h)
    ]
  ]

  pub meet_target-Keep : (p : PeerId) → Keeps P (meet_target p)
  unfolding meet_target
  meet_target-Keep p s h = elim (Bool-cases (contains s.target_peers p)) [
    | inr e ↦ rw (e, meet_target) h
    | inl e ↦ elim (Option-cases (find (λ t. not (is_connected s.view t)) s.target_peers)) [
      | inl n ↦ rw (e, meet_target, n) (set_active_mode-Keep false s h)
      | inr (t, n) ↦ rw (e, meet_target, n) (set_active_mode-Keep true s h)
    ]
  ]
