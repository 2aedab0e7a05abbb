-- ===== src/Network/Settle.antt =====
-- src/network/mod.rs: `reconcile_peer_connections` dials again after each refused dial. When that
-- ends, and when it does not.
use mathlib.Core.Path.{subst}
use saved.Base.{
  ℕ, zero, suc, ◌+◌, ◌≤◌, ◌≡◌, refl, ap, ◌∙◌, true, false, not, ◌&&◌, inl, inr, some, List, [], ◌∷◌,
  arith, if◌then◌else◌, Bool-cases, List-cases,
}
use saved.Base.Lists.{length, any, total, total_mono, any-tally, length-total}
use saved.Base.Sort.{IsSorted, total-sort}
use saved.Libp2p.{Libp2p, PeerId, ConnectionId, Multiaddr}
use saved.View.Peer.{
  AddressMetadata, PeerInfoExt, has_addr, is_in_cooldown, failed_at, key_le, mark_failure,
}
use saved.View.{info_of, is_connected}
use saved.View.Count.{same_addr-eq}
use saved.View.Order.{head_is_fresh}
use saved.Network.State.{SavedNetwork, Swarm, Effect, ok, unfinished}
use saved.Network.Api.{swarm_dial}
use saved.Network.Reconcile.{
  connections_of, close_all, note_failure, migrate, reconcile_entry, reconcile_round,
  reconcile_peer_connections,
}
use saved.Network.Rounds.{
  failed_is_in_cooldown, mark_failure-best, mark_failure-IsSorted, refused, round-refused,
  round-accepted, info_of-refused, is_connected-refused,
}

module _ ⦃L : Libp2p⦄ ⦃S : Swarm⦄ where
  abbrev fresh : ℕ → AddressMetadata → ℕ
  fresh now m = if is_in_cooldown now m then 0 else 1

  abbrev pub dialable : ℕ → Multiaddr → AddressMetadata → ℕ
  dialable now a m = if has_addr a m && not (is_in_cooldown now m) then 1 else 0

  any_fresh :
      (now : ℕ) (a : Multiaddr) (ms : List AddressMetadata)
      → 1 ≤ total (dialable now a) ms
      → any (λ n. not (is_in_cooldown now n)) ms ≡ true
  any_fresh now a ms h = ground (
    arith,
    any-tally (λ n. not (is_in_cooldown now n)) ms,
    total_mono (dialable now a) (λ n. if not (is_in_cooldown now n) then 1 else 0)
        (λ n. ground arith) ms,
  )

  pub total-mark_failure :
      (w : AddressMetadata → ℕ) (now : ℕ) (info : PeerInfoExt) (best : AddressMetadata)
      (others : List AddressMetadata)
      → info.addresses ≡ best ∷ others
      → total w (mark_failure now info best.address).addresses + w best
        ≡ total w info.addresses + w (failed_at now best)
  unfolding total
  total-mark_failure w now info best others h = ground (
    arith,
    mark_failure-best now info best others h,
    total-sort (key_le now) w (failed_at now best ∷ others),
  )

  total-empty : {A : Type 0} (w : A → ℕ) (xs : List A) → xs ≡ [] → total w xs ≡ 0
  unfolding total
  total-empty w xs h = rw h refl

  -- The accepted address stays as it is while others are refused.
  still_dialable :
      (now : ℕ) (a : Multiaddr) (s : SavedNetwork) (info : PeerInfoExt) (best : AddressMetadata)
      (others : List AddressMetadata)
      → ((calls : List Effect) → S.dial_ok calls a ≡ true)
      → info.addresses ≡ best ∷ others
      → S.dial_ok s.log best.address ≡ false
      → 1 ≤ total (dialable now a) info.addresses
      → 1 ≤ total (dialable now a) (mark_failure now info best.address).addresses
  still_dialable now a s info best others good split refuses h = ground (
    arith,
    total-mark_failure (dialable now a) now info best others split,
    same_addr-eq a best.address,
    good s.log,
  )

  -- From sorted entries on, every refused dial is of a fresh address, and leaves it in cooldown.
  settle :
      (fuel now : ℕ) (p : PeerId) (a : Multiaddr) (s : SavedNetwork) (info : PeerInfoExt)
      → ((calls : List Effect) → S.dial_ok calls a ≡ true)
      → info_of s.view p ≡ some info
      → is_connected s.view p ≡ false
      → 1 ≤ total (dialable now a) info.addresses
      → IsSorted (key_le now) info.addresses
      → total (fresh now) info.addresses ≤ fuel
      → (reconcile_peer_connections fuel now p s).0 ≡ ok tt
  settle zero now p a s info good e out h sorted enough =
      ground (arith, total_mono (dialable now a) (fresh now) (λ m. ground arith) info.addresses)
  settle (suc fuel) now p a s info good e out h sorted enough = elim (List-cases info.addresses) [
    | inl no_addr ↦ ground (arith, total-empty (dialable now a) info.addresses no_addr)
    | inr (best, others, split) ↦
        let live =
          head_is_fresh now best others (subst (IsSorted (key_le now)) split sorted) (
            any_fresh now a (best ∷ others)
              (subst (λ ms. 1 ≤ total (dialable now a) ms) split h)) in
        elim (Bool-cases (S.dial_ok s.log best.address)) [
          | inl accepts ↦ round-accepted fuel now p s info best others e split out accepts
          | inr refuses ↦
              let next =
                settle fuel now p a (refused now p best.address s)
                  (mark_failure now info best.address) good
                  (info_of-refused now p best.address s info e)
                  (is_connected-refused now p s info best others e split out)
                  (still_dialable now a s info best others good split refuses h)
                  (mark_failure-IsSorted now info best others split)
                  (ground (
                    arith,
                    total-mark_failure (fresh now) now info best others split,
                    failed_is_in_cooldown now best,
                  )) in
              ap (λ r. r.0) (round-refused fuel now p s info best others e split out refuses) ∙ next
        ]
  ]

  settle_refused :
      (fuel now : ℕ) (p : PeerId) (a : Multiaddr) (s : SavedNetwork) (info : PeerInfoExt)
      (best : AddressMetadata) (others : List AddressMetadata)
      → ((calls : List Effect) → S.dial_ok calls a ≡ true)
      → info_of s.view p ≡ some info
      → info.addresses ≡ best ∷ others
      → is_connected s.view p ≡ false
      → S.dial_ok s.log best.address ≡ false
      → 1 ≤ total (dialable now a) info.addresses
      → total (fresh now) (mark_failure now info best.address).addresses ≤ fuel
      → (reconcile_peer_connections fuel now p (refused now p best.address s)).0 ≡ ok tt
  settle_refused fuel now p a s info best others good e split out refuses h enough =
      settle fuel now p a (refused now p best.address s) (mark_failure now info best.address) good
        (info_of-refused now p best.address s info e)
        (is_connected-refused now p s info best others e split out)
        (still_dialable now a s info best others good split refuses h)
        (mark_failure-IsSorted now info best others split) enough

  close_all-returns : (cs : List ConnectionId) (s : SavedNetwork) → (close_all cs s).0 ≡ ok tt
  unfolding close_all
  close_all-returns [] s = refl
  close_all-returns (c ∷ cs) s = close_all-returns cs _

  migrate-returns :
      (now : ℕ) (p : PeerId) (info : PeerInfoExt) (a : Multiaddr) (s : SavedNetwork)
      → (migrate now p info a s).0 ≡ ok tt
  unfolding migrate swarm_dial note_failure
  migrate-returns now p info a s = ground arith

  -- With a connection there is one round.
  round-connected :
      (fuel now : ℕ) (p : PeerId) (s : SavedNetwork) (info : PeerInfoExt)
      → info_of s.view p ≡ some info
      → is_connected s.view p ≡ true
      → (reconcile_peer_connections (suc fuel) now p s).0 ≡ ok tt
  unfolding reconcile_peer_connections reconcile_round reconcile_entry
  round-connected fuel now p s info e up = elim (List-cases info.addresses) [
    | inl no_addr ↦ ground arith
    | inr (best, others, split) ↦ ground (
      arith,
      close_all-returns (connections_of others) s,
      migrate-returns now p info best.address s,
    )
  ]

  -- `reconcile_peer_connections` returns, with fuel for two rounds more than the peer has
  -- addresses, where one of the addresses is out of cooldown and the swarm accepts every dial of
  -- it.
  pub reconcile-returns :
      (fuel now : ℕ) (p : PeerId) (a : Multiaddr) (s : SavedNetwork) (info : PeerInfoExt)
      → ((calls : List Effect) → S.dial_ok calls a ≡ true)
      → info_of s.view p ≡ some info
      → 1 ≤ total (dialable now a) info.addresses
      → length info.addresses + 2 ≤ fuel
      → (reconcile_peer_connections fuel now p s).0 ≡ ok tt
  reconcile-returns zero now p a s info good e h enough = ground arith
  reconcile-returns (suc fuel) now p a s info good e h enough =
      elim (Bool-cases (is_connected s.view p)) [
        | inl up ↦ round-connected fuel now p s info e up
        | inr out ↦ elim (List-cases info.addresses) [
          | inl no_addr ↦ ground (arith, total-empty (dialable now a) info.addresses no_addr)
          | inr (best, others, split) ↦ elim (Bool-cases (S.dial_ok s.log best.address)) [
            | inl accepts ↦ round-accepted fuel now p s info best others e split out accepts
            | inr refuses ↦
                ap (λ r. r.0) (round-refused fuel now p s info best others e split out refuses)
                ∙ settle_refused fuel now p a s info best others good e split out refuses h (
                    ground (
                      arith,
                      total-mark_failure (fresh now) now info best others split,
                      length-total info.addresses,
                      total_mono (fresh now) (λ _. 1) (λ m. ground arith) info.addresses,
                      failed_is_in_cooldown now best,
                    ))
          ]
        ]
      ]

  -- Where the swarm refuses every dial, `reconcile_peer_connections` is unfinished at every
  -- fuel, for a peer with an address and no connection.
  pub reconcile-unfinished :
      (fuel now : ℕ) (p : PeerId) (s : SavedNetwork) (info : PeerInfoExt)
      → ((calls : List Effect) (a : Multiaddr) → S.dial_ok calls a ≡ false)
      → info_of s.view p ≡ some info
      → 1 ≤ length info.addresses
      → is_connected s.view p ≡ false
      → (reconcile_peer_connections fuel now p s).0 ≡ unfinished
  unfolding reconcile_peer_connections
  reconcile-unfinished zero now p s info bad e h out = refl
  reconcile-unfinished (suc fuel) now p s info bad e h out = elim (List-cases info.addresses) [
    | inl no_addr ↦ ground arith
    | inr (best, others, split) ↦
        ap (λ r. r.0)
          (round-refused fuel now p s info best others e split out (bad s.log best.address))
        ∙ reconcile-unfinished fuel now p (refused now p best.address s)
            (mark_failure now info best.address) bad (info_of-refused now p best.address s info e)
            (ground (
              arith,
              total-mark_failure (λ _. 1) now info best others split,
              length-total info.addresses,
              length-total (mark_failure now info best.address).addresses,
            ))
            (is_connected-refused now p s info best others e split out)
  ]
