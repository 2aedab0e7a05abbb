-- ===== src/View/Insert.antt =====
-- src/view.rs: `add_connection` on one peer's entry: the three ways through it, and what it changes
-- of every count.
use saved.Base.{
  ℕ, ◌+◌, ◌≤◌, ◌≡◌, refl, true, false, not, ◌&&◌, inl, inr, some, arith, if◌then◌else◌, Bool-cases,
  Option-cases,
}
use saved.Base.Lists.{any, find, total, any-tally, any_of_find-none, any_of_found, any-eq-true}
use saved.Libp2p.{Libp2p, ConnectionId, Multiaddr, same_connection, same_addr}
use saved.View.Peer.{
  AddressMetadata, PeerInfoExt, has_addr, holds, resort, clear_backoff_on_success,
}
use saved.View.{attach, detach, insert_connection}
use saved.View.Count.{
  at_addr, of_connection, of_connection_at, same_addr-eq, same_connection-eq, total-resort,
  total-clear_backoff, total-of_connection_at-le, any-holds, of_connection_at-find, detach_ne,
  detach_self, of_connection-swap_remove_ne,
}
use saved.View.Attach.{attach-of_connection_at, attach-of_connection, attach-at_addr}

module _ ⦃L : Libp2p⦄ where
  -- The connection has left, if it was recorded once.
  detach-any :
      (d : ConnectionId) (info : PeerInfoExt)
      → total (of_connection d) info.addresses ≤ 1
      → any (holds d) info.addresses ≡ true
      → any (holds d) (detach d info).addresses ≡ false
  detach-any d info single h =
      ground (arith, any-holds d (detach d info).addresses, detach_self d info h)

  -- A connection that is already recorded under the remote address stays.
  rest_at :
      (c d : ConnectionId) (a remote : Multiaddr) (now : ℕ) (info : PeerInfoExt)
      (old : AddressMetadata)
      → total (of_connection d) info.addresses ≤ 1
      → find (holds d) info.addresses ≡ some old
      → same_addr remote old.address ≡ true
      → total
          (of_connection_at c a)
          (resort now (clear_backoff_on_success info old.address)).addresses
        ≡ (if same_connection c d
            then (if same_addr a remote then 1 else 0)
            else total (of_connection_at c a) info.addresses)
  rest_at c d a remote now info old single e at = ground (
    arith,
    same_connection-eq c d,
    same_addr-eq remote old.address at,
    of_connection_at-find d a info.addresses old single e,
    total-resort (of_connection_at c a) now (clear_backoff_on_success info old.address),
    total-clear_backoff (of_connection_at c a) info old.address (λ m. refl),
  )

  -- A connection that is recorded elsewhere moves.
  moved_at :
      (c d : ConnectionId) (a remote : Multiaddr) (now : ℕ) (info : PeerInfoExt)
      → total (of_connection d) info.addresses ≤ 1
      → any (holds d) info.addresses ≡ true
      → any (holds d) (detach d info).addresses ≡ false
      → total (of_connection_at c a) (attach now d remote (detach d info)).addresses ≡ (
          if same_connection c d
          then (if same_addr a remote then 1 else 0)
          else total (of_connection_at c a) info.addresses)
  moved_at c d a remote now info single held gone = elim (Bool-cases (same_connection c d)) [
    | inl same ↦ ground (
      arith,
      same,
      same_connection-eq c d,
      any-holds d (detach d info).addresses,
      total-of_connection_at-le d a (detach d info).addresses,
      attach-of_connection_at c d a remote now (detach d info) gone,
    )
    | inr other ↦ ground (
      arith,
      other,
      attach-of_connection_at c d a remote now (detach d info) gone,
      detach_ne c d (of_connection_at c a) info
          (λ m. ground (arith, of_connection-swap_remove_ne c d m.active_connections other)),
    )
  ]

  -- The three ways that `add_connection` takes, for any statement about what it leaves.
  pub insert_connection_cases {ℓ} :
      (P : PeerInfoExt → Type ℓ) (d : ConnectionId) (remote : Multiaddr) (now : ℕ)
      (info : PeerInfoExt)
      → total (of_connection d) info.addresses ≤ 1
      → (any (holds d) info.addresses ≡ false → P (attach now d remote info))
      → ((old : AddressMetadata)
          → find (holds d) info.addresses ≡ some old
          → same_addr remote old.address ≡ true
          → P (resort now (clear_backoff_on_success info old.address)))
      → (any (holds d) info.addresses ≡ true
          → any (holds d) (detach d info).addresses ≡ false
          → P (attach now d remote (detach d info)))
      → P (insert_connection now d remote info)
  unfolding insert_connection
  insert_connection_cases P d remote now info single fresh rest moved =
      elim (Option-cases (find (holds d) info.addresses)) [
        | inl e ↦ rw (e, insert_connection) (fresh (any_of_find-none (holds d) info.addresses e))
        | inr (old, e) ↦
            let held = any-eq-true (holds d) info.addresses old e in
            elim (Bool-cases (same_addr remote old.address)) [
              | inl at ↦ rw (e, insert_connection, at) (rest old e at)
              | inr away ↦
                  rw (e, insert_connection, away) (moved held (detach-any d info single held))
            ]
      ]

  -- After it the connection is recorded once, under the remote address, and every other one as
  -- before.
  pub insert_connection-of_connection_at :
      (c d : ConnectionId) (a remote : Multiaddr) (now : ℕ) (info : PeerInfoExt)
      → total (of_connection d) info.addresses ≤ 1
      → total (of_connection_at c a) (insert_connection now d remote info).addresses ≡ (
          if same_connection c d
          then (if same_addr a remote then 1 else 0)
          else total (of_connection_at c a) info.addresses)
  insert_connection-of_connection_at c d a remote now info single =
      insert_connection_cases
        (λ i. total (of_connection_at c a) i.addresses ≡ (
          if same_connection c d
          then (if same_addr a remote then 1 else 0)
          else total (of_connection_at c a) info.addresses))
        d remote now info single
        (λ free. ground (
          arith,
          any-holds d info.addresses,
          same_connection-eq c d,
          total-of_connection_at-le d a info.addresses,
          attach-of_connection_at c d a remote now info free,
        ))
        (λ old e at. rest_at c d a remote now info old single e at)
        (λ held gone. moved_at c d a remote now info single held gone)

  -- It is then recorded once in all.
  pub insert_connection-of_connection :
      (c d : ConnectionId) (remote : Multiaddr) (now : ℕ) (info : PeerInfoExt)
      → total (of_connection d) info.addresses ≤ 1
      → total (of_connection c) (insert_connection now d remote info).addresses
        ≡ (if same_connection c d then 1 else total (of_connection c) info.addresses)
  insert_connection-of_connection c d remote now info single =
      insert_connection_cases
        (λ i.
          total (of_connection c) i.addresses
          ≡ (if same_connection c d then 1 else total (of_connection c) info.addresses))
        d remote now info single
        (λ free. ground (
          arith,
          any-holds d info.addresses,
          same_connection-eq c d,
          attach-of_connection c d remote now info free,
        ))
        (λ old e at. ground (
          arith,
          any-holds d info.addresses,
          any-eq-true (holds d) info.addresses old e,
          same_connection-eq c d,
          total-resort (of_connection c) now (clear_backoff_on_success info old.address),
          total-clear_backoff (of_connection c) info old.address (λ m. refl),
        ))
        (λ held gone. elim (Bool-cases (same_connection c d)) [
          | inl same ↦ ground (
            arith,
            same,
            same_connection-eq c d,
            any-holds d (detach d info).addresses,
            attach-of_connection c d remote now (detach d info) gone,
          )
          | inr other ↦ ground (
            arith,
            other,
            attach-of_connection c d remote now (detach d info) gone,
            detach_ne c d (of_connection c) info
                (λ m. of_connection-swap_remove_ne c d m.active_connections other),
          )
        ])

  -- The addresses after it are those before it and the remote one.
  pub insert_connection-at_addr :
      (a remote : Multiaddr) (d : ConnectionId) (now : ℕ) (info : PeerInfoExt)
      → total (of_connection d) info.addresses ≤ 1
      → total (at_addr a) (insert_connection now d remote info).addresses
        ≡ total (at_addr a) info.addresses
          + (if same_addr a remote && not (any (has_addr remote) info.addresses) then 1 else 0)
  insert_connection-at_addr a remote d now info single =
      insert_connection_cases
        (λ i.
          total (at_addr a) i.addresses
          ≡ total (at_addr a) info.addresses
            + (if same_addr a remote && not (any (has_addr remote) info.addresses) then 1 else 0))
        d remote now info single (λ free. attach-at_addr a remote d now info free)
        (λ old e at. ground (
          arith,
          any_of_found (has_addr remote) (holds d) info.addresses old at e,
          total-resort (at_addr a) now (clear_backoff_on_success info old.address),
          total-clear_backoff (at_addr a) info old.address (λ m. refl),
        ))
        (λ held gone. ground (
          arith,
          attach-at_addr a remote d now (detach d info) gone,
          any-tally (has_addr remote) info.addresses,
          any-tally (has_addr remote) (detach d info).addresses,
          detach_ne d d (at_addr a) info (λ m. refl),
          detach_ne d d (at_addr remote) info (λ m. refl),
        ))
