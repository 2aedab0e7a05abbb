-- ===== src/View/Count.antt =====
-- src/view.rs: how often an address, a connection, or a connection under an address is recorded in
-- a list of entries, and what the steps of the methods change of it.
use saved.Base.{
  ℕ, ◌+◌, ◌≤◌, ◌≡◌, refl, true, false, inl, inr, some, List, [], ◌∷◌, arith, if◌then◌else◌,
  Bool-cases, ltb,
}
use saved.Base.Lists.{
  any, find, swap_remove_first, total, tally, any-tally, any-append, total_mono, total-append,
  total-modify_first, total-modify_first_same, total-swap_remove_first, find-holds, find_of_any,
  find-none,
}
use saved.Base.Sort.{total-sort}
use saved.Libp2p.{Libp2p, ConnectionId, Multiaddr, same_connection, same_addr}
use saved.View.Peer.{
  AddressMetadata, PeerInfoExt, has_addr, holds, new_metadata, resort, clear_backoff_on_success,
  cleared, key_le,
}
use saved.View.{detach, ensure_address}

module _ ⦃L : Libp2p⦄ where
  -- 1 at an entry for the address.
  abbrev pub at_addr : Multiaddr → AddressMetadata → ℕ
  at_addr a m = if has_addr a m then 1 else 0

  -- How often an entry holds a connection.
  abbrev pub of_connection : ConnectionId → AddressMetadata → ℕ
  of_connection c m = tally (same_connection c) m.active_connections

  -- The same, of the entries for one address.
  abbrev pub of_connection_at : ConnectionId → Multiaddr → AddressMetadata → ℕ
  of_connection_at c a m = if has_addr a m then of_connection c m else 0

  pub same_connection_refl : (c : ConnectionId) → same_connection c c ≡ true
  same_connection_refl c = ground arith

  pub same_addr_refl : (a : Multiaddr) → same_addr a a ≡ true
  same_addr_refl a = ground arith

  pub same_addr-eq : (a b : Multiaddr) → same_addr a b ≡ true → a ≡ b
  same_addr-eq a b h = ground arith

  pub same_connection-eq : (c d : ConnectionId) → same_connection c d ≡ true → c ≡ d
  same_connection-eq c d h = ground arith

  -- A connection that an entry holds leaves it once.
  pub of_connection-swap_remove :
      (c d : ConnectionId) (cs : List ConnectionId)
      → any (same_connection d) cs ≡ true
      → tally (same_connection c) (swap_remove_first (same_connection d) cs)
          + (if same_connection c d then 1 else 0)
        ≡ tally (same_connection c) cs
  of_connection-swap_remove c d cs h =
      let (e, found) = find_of_any (same_connection d) cs h in
      ground (
        arith,
        found,
        find-holds (same_connection d) cs e found,
        same_connection-eq d e,
        total-swap_remove_first (λ x. if same_connection c x then 1 else 0) (same_connection d) cs,
      )

  pub of_connection-swap_remove_ne :
      (c d : ConnectionId) (cs : List ConnectionId)
      → same_connection c d ≡ false
      → tally (same_connection c) (swap_remove_first (same_connection d) cs)
        ≡ tally (same_connection c) cs
  of_connection-swap_remove_ne c d cs n = elim (Bool-cases (any (same_connection d) cs)) [
    | inl h ↦ ground (arith, of_connection-swap_remove c d cs h)
    | inr h ↦ ground (
      arith,
      find-none (same_connection d) cs h,
      total-swap_remove_first (λ x. if same_connection c x then 1 else 0) (same_connection d) cs,
    )
  ]

  -- An entry that does not hold a connection counts it 0 times, and one that does at least once.
  pub holds-of_connection :
      (c : ConnectionId) (m : AddressMetadata) → holds c m ≡ ltb 0 (of_connection c m)
  holds-of_connection c m = any-tally (same_connection c) m.active_connections

  of_connection_at-le :
      (c : ConnectionId) (a : Multiaddr) (m : AddressMetadata)
      → of_connection_at c a m ≤ of_connection c m
  of_connection_at-le c a m = ground arith

  pub total-of_connection_at-le :
      (c : ConnectionId) (a : Multiaddr) (ms : List AddressMetadata)
      → total (of_connection_at c a) ms ≤ total (of_connection c) ms
  total-of_connection_at-le c a ms =
      total_mono (of_connection_at c a) (of_connection c) (of_connection_at-le c a) ms

  -- Some entry holds a connection exactly when it is counted.
  pub any-holds :
      (c : ConnectionId) (ms : List AddressMetadata)
      → any (holds c) ms ≡ ltb 0 (total (of_connection c) ms)
  unfolding any total
  any-holds c [] = refl
  any-holds c (m ∷ ms) = ground (arith, holds-of_connection c m, any-holds c ms)

  -- A connection that is counted once is counted at the address of the entry that holds it.
  pub of_connection_at-find :
      (c : ConnectionId) (a : Multiaddr) (ms : List AddressMetadata) (m : AddressMetadata)
      → total (of_connection c) ms ≤ 1
      → find (holds c) ms ≡ some m
      → total (of_connection_at c a) ms ≡ (if has_addr a m then 1 else 0)
  unfolding find total
  of_connection_at-find c a [] m single found = cc
  of_connection_at-find c a (n ∷ ms) m single found = ground (
    arith,
    holds-of_connection c n,
    total-of_connection_at-le c a ms,
    of_connection_at-find c a ms m,
  )

  -- The entries are as many, and hold as much, after a sort.
  pub total-resort :
      (w : AddressMetadata → ℕ) (now : ℕ) (info : PeerInfoExt)
      → total w (resort now info).addresses ≡ total w info.addresses
  unfolding resort
  total-resort w now info = total-sort (key_le now) w info.addresses

  -- Clearing a backoff changes no count.
  pub total-clear_backoff :
      (w : AddressMetadata → ℕ) (info : PeerInfoExt) (addr : Multiaddr)
      → ((m : AddressMetadata) → w (cleared m) ≡ w m)
      → total w (clear_backoff_on_success info addr).addresses ≡ total w info.addresses
  unfolding clear_backoff_on_success
  total-clear_backoff w info addr h =
      total-modify_first_same w (has_addr addr) cleared h info.addresses

  -- Of a connection other than the one that leaves nothing changes.
  pub detach_ne :
      (c d : ConnectionId) (w : AddressMetadata → ℕ) (info : PeerInfoExt)
      → ((m : AddressMetadata)
          → w (record m {
            active_connections = swap_remove_first (same_connection d) m.active_connections;
          })
            ≡ w m)
      → total w (detach d info).addresses ≡ total w info.addresses
  unfolding detach
  detach_ne c d w info h = total-modify_first_same w (holds d) _ h info.addresses

  -- The connection that leaves is recorded once less.
  pub detach_self :
      (d : ConnectionId) (info : PeerInfoExt)
      → any (holds d) info.addresses ≡ true
      → total (of_connection d) (detach d info).addresses + 1
        ≡ total (of_connection d) info.addresses
  unfolding detach
  detach_self d info h =
      let (m, found) = find_of_any (holds d) info.addresses h in
      ground (
        arith,
        found,
        same_connection_refl d,
        of_connection-swap_remove d d m.active_connections
            (find-holds (holds d) info.addresses m found),
        total-modify_first (of_connection d) (holds d)
            (λ m. record m {
              active_connections = swap_remove_first (same_connection d) m.active_connections;
            })
            info.addresses,
      )

  -- A connection that is recorded nowhere leaves nothing behind.
  pub detach_absent :
      (d : ConnectionId) (info : PeerInfoExt)
      → any (holds d) info.addresses ≡ false
      → total (of_connection d) (detach d info).addresses ≡ 0
  unfolding detach
  detach_absent d info h = ground (
    arith,
    find-none (holds d) info.addresses h,
    any-holds d info.addresses,
    total-modify_first (of_connection d) (holds d)
        (λ m. record m {
          active_connections = swap_remove_first (same_connection d) m.active_connections;
        })
        info.addresses,
  )

  -- An address that is made sure of is recorded, and no connection with it.
  pub total-ensure_address :
      (w : AddressMetadata → ℕ) (addr : Multiaddr) (info : PeerInfoExt)
      → total w (ensure_address addr info).addresses
        ≡ total w info.addresses
          + (if any (has_addr addr) info.addresses then 0 else w (new_metadata addr))
  unfolding ensure_address total
  total-ensure_address w addr info =
      ground (arith, total-append w info.addresses (new_metadata addr ∷ []))

  pub any-ensure_address :
      (addr : Multiaddr) (info : PeerInfoExt)
      → any (has_addr addr) (ensure_address addr info).addresses ≡ true
  unfolding ensure_address any new_metadata
  any-ensure_address addr info = ground (
    arith,
    any-append (has_addr addr) info.addresses (new_metadata addr ∷ []),
    same_addr_refl addr,
  )
