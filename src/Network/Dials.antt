-- ===== src/Network/Dials.antt =====
-- src/network/mod.rs: when `reconcile_peer_connections` returns for a peer without a connection, the
-- swarm has accepted a dial.
use mathlib.Core.Path.{subst}
use saved.Base.{
  ℕ, zero, suc, ◌+◌, ◌≤◌, ◌≡◌, sym, ap, ◌∙◌, true, false, inl, inr, some, List, ◌∷◌, arith,
  Bool-cases, List-cases,
}
use saved.Base.Lists.{length, total, total_mono, length-total}
use saved.Libp2p.{Libp2p, PeerId, Multiaddr}
use saved.View.Peer.{AddressMetadata, PeerInfoExt, mark_failure}
use saved.View.{info_of, is_connected}
use saved.Network.State.{SavedNetwork, Swarm, Effect, dials, ok}
use saved.Network.Api.{swarm_dial}
use saved.Network.Reconcile.{
  note_failure, reconcile_entry, reconcile_round, dial_best, reconcile_peer_connections,
}
use saved.Network.Rounds.{
  refused, round-refused, info_of-refused, is_connected-refused, unconnected_over,
}
use saved.Network.Settle.{dialable, total-mark_failure, reconcile-returns}

module _ ⦃L : Libp2p⦄ ⦃S : Swarm⦄ where
  -- The last call is a dial, and the swarm accepted it.
  abbrev pub EndsInDial : List Effect → Type 0
  EndsInDial log =
      (a : Multiaddr) × (calls : List Effect) × (log ≡ dials a ∷ calls) × (S.dial_ok calls a ≡ true)

  round-log :
      (fuel now : ℕ) (p : PeerId) (s : SavedNetwork) (info : PeerInfoExt) (best : AddressMetadata)
      (others : List AddressMetadata)
      → info_of s.view p ≡ some info
      → info.addresses ≡ best ∷ others
      → is_connected s.view p ≡ false
      → S.dial_ok s.log best.address ≡ true
      → (reconcile_peer_connections (suc fuel) now p s).1.log ≡ dials best.address ∷ s.log
  unfolding reconcile_peer_connections reconcile_round reconcile_entry dial_best swarm_dial
      note_failure
  round-log fuel now p s info best others e h out accepts =
      ground (arith, unconnected_over s.view p best.address out)

  returned-EndsInDial :
      (fuel now : ℕ) (p : PeerId) (s : SavedNetwork) (info : PeerInfoExt)
      → info_of s.view p ≡ some info
      → 1 ≤ length info.addresses
      → is_connected s.view p ≡ false
      → (reconcile_peer_connections fuel now p s).0 ≡ ok tt
      → EndsInDial (reconcile_peer_connections fuel now p s).1.log
  unfolding reconcile_peer_connections
  returned-EndsInDial zero now p s info e h out r = cc
  returned-EndsInDial (suc fuel) now p s info e h out r = elim (List-cases info.addresses) [
    | inl no_addr ↦ ground (arith, no_addr, h)
    | inr (best, others, split) ↦ elim (Bool-cases (S.dial_ok s.log best.address)) [
      | inl accepts ↦ (
        best.address,
        s.log,
        round-log fuel now p s info best others e split out accepts,
        accepts,
      )
      | inr refuses ↦
          let same = round-refused fuel now p s info best others e split out refuses in
          subst (λ end. EndsInDial end.1.log) (sym same)
            (returned-EndsInDial fuel now p (refused now p best.address s)
              (mark_failure now info best.address) (info_of-refused now p best.address s info e)
              (ground (
                arith,
                total-mark_failure (λ _. 1) now info best others split,
                length-total info.addresses,
                length-total (mark_failure now info best.address).addresses,
              ))
              (is_connected-refused now p s info best others e split out)
              (ap (λ end. end.0) (sym same) ∙ r))
    ]
  ]

  -- For a peer without a connection, the last call of `reconcile_peer_connections` is a dial
  -- that the swarm accepted, with fuel for two rounds more than the peer has addresses, where
  -- one of the addresses is out of cooldown and the swarm accepts every dial of it.
  pub reconcile-EndsInDial :
      (fuel now : ℕ) (p : PeerId) (a : Multiaddr) (s : SavedNetwork) (info : PeerInfoExt)
      → ((calls : List Effect) → S.dial_ok calls a ≡ true)
      → info_of s.view p ≡ some info
      → is_connected s.view p ≡ false
      → 1 ≤ total (dialable now a) info.addresses
      → length info.addresses + 2 ≤ fuel
      → EndsInDial (reconcile_peer_connections fuel now p s).1.log
  reconcile-EndsInDial fuel now p a s info good e out h enough =
      returned-EndsInDial fuel now p s info e
        (omega (
          arith,
          h,
          length-total info.addresses,
          total_mono (dialable now a) (λ _. 1) (λ m. ground arith) info.addresses,
        ))
        out (reconcile-returns fuel now p a s info good e h enough)
