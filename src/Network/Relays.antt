-- ===== src/Network/Relays.antt =====
-- src/network/mod.rs: what `update_relay_state` does to the relays, and which it disconnects.
use saved.Base.{◌+◌, ◌≡◌, refl, sym, ap, ◌∙◌, min, Bool, true, false, ◌&&◌, not, List, [], ◌∷◌}
use saved.Base.Lists.{length, any}
use saved.Libp2p.{Libp2p, PeerId}
use saved.View.{NetworkView}
use saved.Relay.{contains, recompute_in_use, prune_relays}
use saved.Relay.Reserve.{IsSound}
use saved.Relay.InUse.{uses, recompute_in_use-contains, recompute_in_use-IsSound}
use saved.Relay.Prune.{prune_relays-IsPruned}
use saved.Network.State.{SavedNetwork, disconnects, ok}
use saved.Network.Handlers.{disconnect_all, update_relay_state}
use saved.Network.Modes.{reversed}

module _ ⦃L : Libp2p⦄ where
  -- Some peer has an active connection over the relay.
  abbrev pub carries : NetworkView → PeerId → Bool
  carries view r = any (λ e. any (uses r) e.1.addresses) view.peers

  -- The state `t` after the relays `pruned` were taken out of `s`.
  pub record IsUpdated (s t : SavedNetwork) (pruned : List PeerId) : Type 0 where
    pub disconnected : t.log ≡ reversed disconnects pruned s.log
    pub view_kept : t.view ≡ s.view
    pub in_use : (r : PeerId) → contains t.relay_manager.in_use r ≡ carries s.view r
    pub spared :
        (r : PeerId)
        → contains pruned r ≡ true
        → (contains s.relay_manager.reserved r ≡ true) × (carries s.view r ≡ false)
    pub reserved_after :
        (r : PeerId)
        → contains t.relay_manager.reserved r
          ≡ (contains s.relay_manager.reserved r && not (contains pruned r))
    pub within :
        length t.relay_manager.reserved
        ≡ min
            (length s.relay_manager.reserved)
            (length t.relay_manager.in_use + s.relay_manager.max_relays)

  disconnect_all-log :
      (ps : List PeerId) (s : SavedNetwork)
      → disconnect_all ps s ≡ (ok tt, record s { log = reversed disconnects ps s.log })
  unfolding disconnect_all
  disconnect_all-log [] s = refl
  disconnect_all-log (p ∷ ps) s = disconnect_all-log ps (record s { log = disconnects p ∷ s.log })

  -- For a sound manager, each relay that `update_relay_state` disconnects was reserved, and no
  -- peer has an active connection over it; the other reservations stay, are as many as there
  -- were or as are allowed with the relays in use, whichever is less, and the relays in use are
  -- those that carry a connection.
  pub update_relay_state-IsUpdated :
      (s : SavedNetwork)
      → IsSound s.relay_manager
      → IsUpdated s
          (update_relay_state s).1
          (prune_relays s.view (recompute_in_use s.relay_manager s.view)).1
  unfolding update_relay_state recompute_in_use
  update_relay_state-IsUpdated s v =
      let m = recompute_in_use s.relay_manager s.view in
      let sound = recompute_in_use-IsSound s.relay_manager s.view v in
      let done = prune_relays-IsPruned s.view m sound in
      let pruned = (prune_relays s.view m).1 in
      let t = record s { relay_manager = (prune_relays s.view m).0 } in
      let carried = recompute_in_use-contains s.relay_manager s.view in
      rw (disconnect_all-log pruned t) (record {
        disconnected = refl;
        view_kept = refl;
        in_use = λ r. ap (λ rs. contains rs r) done.in_use_kept ∙ carried r;
        spared = λ r h. ((done.only_unused r h).0, sym (carried r) ∙ (done.only_unused r h).1);
        reserved_after = done.reserved_after;
        within =
            done.within
            ∙ ap
                (λ rs.
                  min (length s.relay_manager.reserved) (length rs + s.relay_manager.max_relays))
                (sym done.in_use_kept);
      })
