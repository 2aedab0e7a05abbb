-- ===== src/Relay/Address.antt =====
-- src/network/relay_manager.rs: relayed addresses, `addr_is_relay` and `extract_relay_peer`.
use saved.Base.{◌≡◌, refl, Bool, true, false, Option, none, some, List, [], ◌∷◌, ◌++◌, arith}
use saved.Base.Lists.{any}
use saved.Libp2p.{Libp2p, Protocol, PeerId, Multiaddr}

module _ {P : Type 0} where
  abbrev pub is_circuit : Protocol P → Bool
  is_circuit Protocol.p2p_circuit = true
  is_circuit _ = false

  -- The loop of `extract_relay_peer`, with `last_p2p`.
  unfoldable pub extract_loop : List (Protocol P) → Option P → Option P
  extract_loop [] last_p2p = none
  extract_loop (Protocol.p2p p ∷ ps) last_p2p = extract_loop ps (some p)
  extract_loop (Protocol.p2p_circuit ∷ ps) last_p2p = last_p2p
  extract_loop (_ ∷ ps) last_p2p = extract_loop ps last_p2p

  abbrev pub is_p2p : Protocol P → Bool
  is_p2p (Protocol.p2p p) = true
  is_p2p _ = false

  extract_loop-middle :
      (middle after : List (Protocol P)) (r : P)
      → any is_circuit middle ≡ false
      → any is_p2p middle ≡ false
      → extract_loop (middle ++ Protocol.p2p_circuit ∷ after) (some r) ≡ some r
  unfolding extract_loop any
  extract_loop-middle [] after r h k = refl
  extract_loop-middle (Protocol.p2p p ∷ ps) after r h k = cc
  extract_loop-middle (Protocol.p2p_circuit ∷ ps) after r h k = cc
  extract_loop-middle (_ ∷ ps) after r h k =
      extract_loop-middle ps after r (ground arith) (ground arith)

  -- The loop of `extract_relay_peer` finds the last `/p2p` before the first `/p2p-circuit`.
  pub extract_loop-relay :
      (before middle after : List (Protocol P)) (r : P) (last : Option P)
      → any is_circuit before ≡ false
      → any is_circuit middle ≡ false
      → any is_p2p middle ≡ false
      → extract_loop (before ++ Protocol.p2p r ∷ (middle ++ Protocol.p2p_circuit ∷ after)) last
        ≡ some r
  unfolding extract_loop any
  extract_loop-relay [] middle after r last g h k = extract_loop-middle middle after r h k
  extract_loop-relay (Protocol.p2p p ∷ ps) middle after r last g h k =
      extract_loop-relay ps middle after r (some p) (ground arith) h k
  extract_loop-relay (Protocol.p2p_circuit ∷ ps) middle after r last g h k = cc
  extract_loop-relay (_ ∷ ps) middle after r last g h k =
      extract_loop-relay ps middle after r last (ground arith) h k

  -- An address without a circuit has no relay.
  extract_loop-direct :
      (ps : List (Protocol P)) (last : Option P)
      → any is_circuit ps ≡ false
      → extract_loop ps last ≡ none
  unfolding extract_loop any
  extract_loop-direct [] last h = refl
  extract_loop-direct (Protocol.p2p p ∷ ps) last h = extract_loop-direct ps (some p) (ground arith)
  extract_loop-direct (Protocol.p2p_circuit ∷ ps) last h = cc
  extract_loop-direct (_ ∷ ps) last h = extract_loop-direct ps last (ground arith)

module _ ⦃L : Libp2p⦄ where
  unfoldable pub addr_is_relay : Multiaddr → Bool
  addr_is_relay addr = any is_circuit (L.iter addr)

  unfoldable pub extract_relay_peer : Multiaddr → Option PeerId
  unfolding extract_loop
  extract_relay_peer addr = extract_loop (L.iter addr) none

  -- An address without a `/p2p-circuit` has no relay.
  pub extract_relay_peer-direct :
      (addr : Multiaddr) → addr_is_relay addr ≡ false → extract_relay_peer addr ≡ none
  unfolding addr_is_relay extract_relay_peer
  extract_relay_peer-direct addr h = extract_loop-direct (L.iter addr) none h
