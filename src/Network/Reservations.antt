-- ===== src/Network/Reservations.antt =====
-- src/network/mod.rs: how many relays stay reserved after the turns of the event loop.
use saved.Base.{
  ℕ, ◌+◌, ◌≤◌, ◌≡◌, refl, ap, ◌∙◌, Bool, true, false, inl, inr, List, [], ◌∷◌, arith, Bool-cases,
}
use saved.Base.Lists.{length}
use saved.Libp2p.{Libp2p, PeerId}
use saved.Keygen.{Crypto}
use saved.View.{NetworkView}
use saved.Relay.{RelayManager, register, recompute_in_use, prune_relays}
use saved.Relay.Reserve.{IsSound, register-IsSound}
use saved.Relay.InUse.{recompute_in_use-IsSound}
use saved.Relay.Prune.{prune_relays-IsPruned}
use saved.Network.State.{SavedNetwork, Swarm}
use saved.Network.Api.{set_kad_enabled, set_active_mode}
use saved.Network.External.{Platform}
use saved.Network.{Ready, event_loop, new}
use saved.Network.Start.{new-Keeps, new-IsValid}
use saved.Network.Modes.{set_active_mode_lem, set_active_mode-io}
use saved.Network.Requests.{request-relays}
use saved.Network.Closed.{IsClosed}
use saved.Network.Closed.Loop.{AllAllow, event_loop-Keeps}
use saved.Network.Invariant.{IsValid, IsValid-marked, IsValid-kept}
use saved.Network.Invariant.Loop.{dispatch_rpc-Keeps}

module _ ⦃L : Libp2p⦄ where
  -- No more relays are reserved than are in use, and four besides.
  abbrev pub IsWithin : RelayManager → Type 0
  IsWithin m = (m.max_relays ≡ 4) × (length m.reserved ≤ length m.in_use + 4)

  pruned-IsWithin :
      (view : NetworkView) (m : RelayManager)
      → IsSound m
      → m.max_relays ≡ 4
      → IsWithin (prune_relays view (recompute_in_use m view)).0
  unfolding recompute_in_use
  pruned-IsWithin view m v four =
      let done =
        prune_relays-IsPruned view (recompute_in_use m view) (recompute_in_use-IsSound m view v) in
      (done.limit_kept ∙ four, omega (arith, done.within, ap length done.in_use_kept, four))

  register-limit : (m : RelayManager) (r : PeerId) → (register m r).max_relays ≡ m.max_relays
  unfolding register
  register-limit m r = ground arith

  abbrev Reserves : SavedNetwork → Type 0
  Reserves s = IsValid s × IsWithin s.relay_manager

module _ ⦃L : Libp2p⦄ ⦃S : Swarm⦄ where
  mode-relays :
      (active : Bool) (s : SavedNetwork)
      → (set_active_mode active s).1.relay_manager ≡ s.relay_manager
  unfolding set_active_mode set_kad_enabled
  mode-relays false s = refl
  mode-relays true s = elim (Bool-cases s.mdns) [
    | inl on ↦ ap (λ r. r.1.relay_manager) (set_active_mode_lem true s (inl on))
    | inr off ↦ elim (Bool-cases (S.mdns_ok s.log)) [
      | inl starts ↦ ap (λ r. r.1.relay_manager) (set_active_mode_lem true s (inr starts))
      | inr fails ↦ ap (λ r. r.1.relay_manager) (set_active_mode-io s off fails)
    ]
  ]

  Reserves-kept : IsClosed Reserves
  Reserves-kept = record {
    round = record {
      same = λ s t h a b c d. (IsValid-marked.same s t h.0 a b c d, rw b h.1);
      marks = λ now p addr s h. (IsValid-marked.marks now p addr s h.0, h.1);
    };
    calls = λ call s h. (IsValid-kept.calls call s h.0, h.1);
    tracks = λ r s h. (
      IsValid-kept.tracks r s h.0,
      pruned-IsWithin s.view (register s.relay_manager r)
          (register-IsSound s.relay_manager r h.0.relays_ok)
          (register-limit s.relay_manager r ∙ h.1.0),
    );
    prunes = λ s h.
        (IsValid-kept.prunes s h.0, pruned-IsWithin s.view s.relay_manager h.0.relays_ok h.1.0);
    modes = λ active p s c h. (IsValid-kept.modes active p s c h.0, rw (mode-relays active s) h.1);
  }

  all_requests : (turns : List Ready) → AllAllow Reserves Reserves-kept turns
  all_requests [] = tt
  all_requests (ready ∷ turns) = (
    (λ rpc _ s h. (dispatch_rpc-Keeps rpc s h.0, rw (request-relays rpc s) h.1)),
    all_requests turns,
  )

module _ ⦃L : Libp2p⦄ ⦃S : Swarm⦄ ⦃C : Crypto⦄ ⦃T : Platform⦄ where
  -- From the start of the node, after any turns of the event loop, the relays that are reserved
  -- are at most four more than those in use, whatever the handlers return.
  pub event_loop-IsWithin :
      (fuel : ℕ) (turns : List Ready) (keypair : C.Keypair)
      → IsWithin (event_loop fuel turns (new keypair).1).1.relay_manager
  event_loop-IsWithin fuel turns keypair =
      (event_loop-Keeps Reserves Reserves-kept fuel turns (new keypair).1 (all_requests turns) (
        new-IsValid keypair,
        new-Keeps (λ s. IsWithin s.relay_manager) (λ addr s h. h) (λ s h. h) (λ s h. h) keypair
            (refl, omega arith),
      )).1
