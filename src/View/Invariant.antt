-- ===== src/View/Invariant.antt =====
-- src/view.rs: the invariant of one peer's entry, under each method.
use saved.Base.{
  ℕ, ◌≤◌, ◌≡◌, refl, true, false, inl, inr, none, some, [], ◌∷◌, ◌++◌, arith, if◌then◌else◌,
  Bool-cases, ltb,
}
use saved.Base.Lists.{
  any, modify_first, total, any-tally, total-append, All, All-append, All-modify_first,
  All-remove_first, total-modify_first_same, total-remove_first, total-modify_first_le,
  total-swap_remove_first,
}
use saved.Base.Sort.{All-sort}
use saved.Libp2p.{Libp2p, ConnectionId, Multiaddr, same_connection}
use saved.View.Classify.{classify_addr}
use saved.View.Peer.{
  AddressMetadata, PeerInfoExt, default_info, has_addr, holds, new_metadata, resort, key_le,
  mark_failure, failed_at, clear_backoff_on_success, cleared,
}
use saved.View.{
  insert_address, drop_address, ensure_address, push_connection, attach, detach, insert_connection,
}
use saved.View.Count.{at_addr, of_connection, total-resort, same_addr-eq, detach_ne}
use saved.View.Insert.{
  insert_connection_cases, insert_connection-of_connection, insert_connection-at_addr,
}

module _ ⦃L : Libp2p⦄ where
  -- An entry for an address: classified as the address is, and with an instant of failure
  -- exactly when a failure is counted.
  pub record IsClassified (m : AddressMetadata) : Type 0 where
    pub transport_ok : m.transport ≡ (classify_addr m.address).1
    pub scope_ok : m.scope ≡ (classify_addr m.address).0
    pub failed : ltb 0 m.err_count ≡ elim m.last_err [ none ↦ false | some _ ↦ true ]

  -- The entry of a peer: no address twice, no connection twice, and every address classified.
  pub record IsValid (info : PeerInfoExt) : Type 0 where
    pub distinct : (a : Multiaddr) → total (at_addr a) info.addresses ≤ 1
    pub single : (c : ConnectionId) → total (of_connection c) info.addresses ≤ 1
    pub classified : All IsClassified info.addresses

  pub default_info-IsValid : IsValid default_info
  unfolding total
  default_info-IsValid = record {
    distinct = λ a. omega arith;
    single = λ c. omega arith;
    classified = tt;
  }

  new_metadata-IsClassified : (a : Multiaddr) → IsClassified (new_metadata a)
  unfolding new_metadata
  new_metadata-IsClassified a = record { transport_ok = refl; scope_ok = refl; failed = refl }

  resort-IsClassified :
      (now : ℕ) (info : PeerInfoExt)
      → All IsClassified info.addresses
      → All IsClassified (resort now info).addresses
  unfolding resort
  resort-IsClassified now info a = All-sort (key_le now) IsClassified info.addresses a

  cleared-IsClassified : (m : AddressMetadata) → IsClassified m → IsClassified (cleared m)
  cleared-IsClassified m h = record {
    transport_ok = h.transport_ok;
    scope_ok = h.scope_ok;
    failed = refl;
  }

  clear_backoff-IsClassified :
      (info : PeerInfoExt) (a : Multiaddr)
      → All IsClassified info.addresses
      → All IsClassified (clear_backoff_on_success info a).addresses
  unfolding clear_backoff_on_success
  clear_backoff-IsClassified info a h =
      All-modify_first IsClassified (has_addr a) cleared cleared-IsClassified info.addresses h

  pub resort-IsValid : (now : ℕ) (info : PeerInfoExt) → IsValid info → IsValid (resort now info)
  resort-IsValid now info v = record {
    distinct = λ a. omega (arith, total-resort (at_addr a) now info, v.distinct a);
    single = λ c. omega (arith, total-resort (of_connection c) now info, v.single c);
    classified = resort-IsClassified now info v.classified;
  }

  -- A fresh entry for an address that is not there yet.
  push-IsValid :
      (addr : Multiaddr) (info : PeerInfoExt)
      → IsValid info
      → any (has_addr addr) info.addresses ≡ false
      → IsValid (record info { addresses = info.addresses ++ new_metadata addr ∷ [] })
  unfolding total new_metadata
  push-IsValid addr info v e = record {
    distinct = λ a. ground (
      arith,
      total-append (at_addr a) info.addresses (new_metadata addr ∷ []),
      any-tally (has_addr addr) info.addresses,
      same_addr-eq a addr,
      v.distinct a,
    );
    single = λ c.
        ground (
          arith,
          total-append (of_connection c) info.addresses (new_metadata addr ∷ []),
          v.single c,
        );
    classified =
        All-append IsClassified info.addresses _ v.classified (new_metadata-IsClassified addr, tt);
  }

  pub insert_address-IsValid :
      (now : ℕ) (addr : Multiaddr) (info : PeerInfoExt)
      → IsValid info
      → IsValid (insert_address now addr info).0
  unfolding insert_address
  insert_address-IsValid now addr info v = elim (Bool-cases (any (has_addr addr) info.addresses)) [
    | inl e ↦ rw e (resort-IsValid now info v)
    | inr e ↦ rw e (resort-IsValid now _ (push-IsValid addr info v e))
  ]

  pub drop_address-IsValid :
      (now : ℕ) (addr : Multiaddr) (info : PeerInfoExt)
      → IsValid info
      → IsValid (drop_address now addr info)
  unfolding drop_address
  drop_address-IsValid now addr info v = resort-IsValid now _ (record {
    distinct = λ a.
        omega (arith, total-remove_first (at_addr a) (has_addr addr) info.addresses, v.distinct a);
    single = λ c.
        omega
          (arith, total-remove_first (of_connection c) (has_addr addr) info.addresses, v.single c);
    classified = All-remove_first IsClassified (has_addr addr) info.addresses v.classified;
  })

  detach-IsClassified :
      (d : ConnectionId) (info : PeerInfoExt)
      → All IsClassified info.addresses
      → All IsClassified (detach d info).addresses
  unfolding detach
  detach-IsClassified d info a =
      All-modify_first IsClassified (holds d) _
        (λ m h. record { transport_ok = h.transport_ok; scope_ok = h.scope_ok; failed = h.failed })
        info.addresses a

  detach-le :
      (c d : ConnectionId) (info : PeerInfoExt)
      → total (of_connection c) (detach d info).addresses ≤ total (of_connection c) info.addresses
  unfolding detach
  detach-le c d info =
      total-modify_first_le (of_connection c) (holds d) _
        (λ m. omega (
          arith,
          total-swap_remove_first (λ x. if same_connection c x then 1 else 0) (same_connection d)
              m.active_connections,
        ))
        info.addresses

  pub detach-IsValid :
      (d : ConnectionId) (info : PeerInfoExt) → IsValid info → IsValid (detach d info)
  detach-IsValid d info v = record {
    distinct = λ a. omega (arith, detach_ne d d (at_addr a) info (λ m. refl), v.distinct a);
    single = λ c. omega (arith, detach-le c d info, v.single c);
    classified = detach-IsClassified d info v.classified;
  }

  ensure-IsClassified :
      (remote : Multiaddr) (info : PeerInfoExt)
      → All IsClassified info.addresses
      → All IsClassified (ensure_address remote info).addresses
  unfolding ensure_address
  ensure-IsClassified remote info a = elim (Bool-cases (any (has_addr remote) info.addresses)) [
    | inl e ↦ rw e a
    | inr e ↦
        rw e (All-append IsClassified info.addresses _ a (new_metadata-IsClassified remote, tt))
  ]

  attach-IsClassified :
      (now : ℕ) (d : ConnectionId) (remote : Multiaddr) (info : PeerInfoExt)
      → All IsClassified info.addresses
      → All IsClassified (attach now d remote info).addresses
  unfolding attach
  attach-IsClassified now d remote info a = resort-IsClassified now _ (
      clear_backoff-IsClassified _ remote (
        All-modify_first IsClassified (has_addr remote) (push_connection d)
          (λ m h. elim (Bool-cases (holds d m)) [
            | inl e ↦ rw e h
            | inr e ↦
                rw e (record {
                  transport_ok = h.transport_ok;
                  scope_ok = h.scope_ok;
                  failed = h.failed;
                })
          ])
          _ (ensure-IsClassified remote info a)))

  pub insert_connection-IsValid :
      (now : ℕ) (d : ConnectionId) (remote : Multiaddr) (info : PeerInfoExt)
      → IsValid info
      → IsValid (insert_connection now d remote info)
  insert_connection-IsValid now d remote info v = record {
    distinct = λ a. ground (
      arith,
      insert_connection-at_addr a remote d now info (v.single d),
      any-tally (has_addr remote) info.addresses,
      same_addr-eq a remote,
      v.distinct a,
    );
    single = λ c.
        ground
          (arith, insert_connection-of_connection c d remote now info (v.single d), v.single c);
    classified =
        insert_connection_cases (λ i. All IsClassified i.addresses) d remote now info (v.single d)
          (λ free. attach-IsClassified now d remote info v.classified)
          (λ old e at.
            resort-IsClassified now _ (clear_backoff-IsClassified info old.address v.classified))
          (λ held gone.
            attach-IsClassified now d remote _ (detach-IsClassified d info v.classified));
  }

  failed_at-IsClassified :
      (now : ℕ) (m : AddressMetadata) → IsClassified m → IsClassified (failed_at now m)
  failed_at-IsClassified now m h = record {
    transport_ok = h.transport_ok;
    scope_ok = h.scope_ok;
    failed = ground arith;
  }

  failed-IsValid :
      (now : ℕ) (info : PeerInfoExt) (addr : Multiaddr)
      → IsValid info
      → IsValid
          (record info { addresses = modify_first (has_addr addr) (failed_at now) info.addresses })
  failed-IsValid now info addr v = record {
    distinct = λ a. omega (
      arith,
      total-modify_first_same (at_addr a) (has_addr addr) (failed_at now) (λ m. refl)
          info.addresses,
      v.distinct a,
    );
    single = λ c. omega (
      arith,
      total-modify_first_same (of_connection c) (has_addr addr) (failed_at now) (λ m. refl)
          info.addresses,
      v.single c,
    );
    classified =
        All-modify_first IsClassified (has_addr addr) (failed_at now) (failed_at-IsClassified now)
          info.addresses v.classified;
  }

  pub mark_failure-IsValid :
      (now : ℕ) (info : PeerInfoExt) (addr : Multiaddr)
      → IsValid info
      → IsValid (mark_failure now info addr)
  unfolding mark_failure
  mark_failure-IsValid now info addr v = elim (Bool-cases (any (has_addr addr) info.addresses)) [
    | inl e ↦ rw e (resort-IsValid now _ (failed-IsValid now info addr v))
    | inr e ↦ rw e v
  ]
