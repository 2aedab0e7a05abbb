-- ===== src/Network/Closed.antt =====
-- src/network/mod.rs: a property of the network that every step keeps is kept by
-- `reconcile_peer_connections`, by the handlers and by the event loop. What a step is, a record of
-- laws says; the invariants of the network are instances.
pub mod Handlers
pub mod Turns
pub mod Loop
use saved.Base.{
  ℕ, zero, suc, ◌≡◌, refl, Bool, true, false, inl, inr, some, List, [], ◌∷◌, if◌then◌else◌,
  Option-cases, arith, none,
}
use saved.Base.Lists.{any, any-append, find}
use saved.Libp2p.{Libp2p, PeerId, ConnectionId, Multiaddr, same_connection}
use saved.View.Peer.{PeerInfoExt, AddressMetadata, holds, has_addr, is_active}
use saved.View.{NetworkView, info_of, is_connected, is_connected_over}
use saved.View.Entry.{entry}
use saved.View.Knows.{knows_addr}
use saved.View.Count.{same_addr_refl}
use saved.View.Consistent.{Call, step, fails}
use saved.Relay.{contains, register, prune_relays, recompute_in_use}
use saved.Network.State.{
  SavedNetwork, Swarm, dials, closes, Outcome, ok, err, unfinished, M, ◌>>=◌, ◌>>◌, bind, pure,
}
use saved.Network.Api.{swarm_dial, set_active_mode}
use saved.Network.Reconcile.{
  close_all, note_failure, dial_best, migrate, reconcile_entry, reconcile_round,
  reconcile_peer_connections, connections_of, is_prune_leader,
}

module _ ⦃L : Libp2p⦄ where
  -- A method keeps a property of the network, whatever it returns.
  abbrev pub Keeps : (SavedNetwork → Type 0) → {A : Type 0} → M A → Type 0
  Keeps P m = (s : SavedNetwork) → P s → P (m s).1

  abbrev pub is_open : NetworkView → PeerId → ConnectionId → Bool
  is_open view p c = any (holds c) (entry view p).addresses

  -- What `reconcile_peer_connections` does for a peer: it dials addresses that are known for it,
  -- closes connections that are open to it, if it leads, and marks a dial as failed.
  pub record IsRound ⦃S : Swarm⦄ (P : SavedNetwork → Type 0) (p : PeerId) : Type 0 where
    pub dial_known :
        (addr : Multiaddr) (s : SavedNetwork)
        → P s
        → knows_addr (entry s.view p) addr ≡ true
        → P (record s { log = dials addr ∷ s.log })
    pub close_open :
        (c : ConnectionId) (s : SavedNetwork)
        → P s
        → is_prune_leader p ≡ true
        → is_open s.view p c ≡ true
        → P (record s { log = closes c ∷ s.log })
    pub mark :
        (now : ℕ) (addr : Multiaddr) (s : SavedNetwork)
        → P s
        → P (record s { view = step s.view (fails now p addr) })

  -- The property reads neither the log, the NAT status, the mode nor mDNS, and is kept where
  -- a dial is marked as failed.
  pub record IsClosedRound (P : SavedNetwork → Type 0) : Type 0 where
    pub same :
        (s t : SavedNetwork)
        → P s
        → t.view ≡ s.view
        → t.relay_manager ≡ s.relay_manager
        → t.target_peers ≡ s.target_peers
        → t.kad ≡ s.kad
        → P t
    pub marks :
        (now : ℕ) (p : PeerId) (addr : Multiaddr) (s : SavedNetwork)
        → P s
        → P (record s { view = step s.view (fails now p addr) })

  pub IsRound-of :
      ⦃S : Swarm⦄ (P : SavedNetwork → Type 0) (p : PeerId) → IsClosedRound P → IsRound P p
  IsRound-of P p R = record {
    dial_known = λ addr s h _. R.same s _ h refl refl refl refl;
    close_open = λ c s h _ _. R.same s _ h refl refl refl refl;
    mark = λ now addr s h. R.marks now p addr s h;
  }

  -- It is also kept by every call of the view, by the changes of the relays, and by the change
  -- of the mode for a target peer.
  pub record IsClosed ⦃S : Swarm⦄ (P : SavedNetwork → Type 0) : Type 0 where
    pub round : IsClosedRound P
    pub calls : (call : Call) (s : SavedNetwork) → P s → P (record s { view = step s.view call })
    pub tracks :
        (r : PeerId) (s : SavedNetwork)
        → P s
        → P (record s {
          relay_manager =
              (prune_relays s.view (recompute_in_use (register s.relay_manager r) s.view)).0;
        })
    pub prunes :
        (s : SavedNetwork)
        → P s
        → P (record s {
          relay_manager = (prune_relays s.view (recompute_in_use s.relay_manager s.view)).0;
        })
    pub modes :
        (active : Bool) (p : PeerId) (s : SavedNetwork)
        → contains s.target_peers p ≡ true
        → P s
        → P (set_active_mode active s).1

module _ ⦃L : Libp2p⦄ (P : SavedNetwork → Type 0) where
  pub bind-Keeps :
      {A B : Type 0} (r : Outcome A × SavedNetwork) (f : A → M B)
      → P r.1
      → ((a : A) → Keeps P (f a))
      → P (bind r f).1
  bind-Keeps (ok a, s) f h k = k a s h
  bind-Keeps (err e, s) f h k = h
  bind-Keeps (unfinished, s) f h k = h

  at_if :
      {A : Type 0} (b : Bool) (m k : M A) (s : SavedNetwork)
      → P (m s).1
      → P (k s).1
      → P ((if b then m else k) s).1
  at_if true m k s h g = h
  at_if false m k s h g = g

  -- The same, where the first branch may use the test.
  at_test :
      {A : Type 0} (b : Bool) (m k : M A) (s : SavedNetwork)
      → (b ≡ true → P (m s).1)
      → P (k s).1
      → P ((if b then m else k) s).1
  at_test true m k s h g = h refl
  at_test false m k s h g = g

  pub Keeps-bind :
      {A B : Type 0} (m : M A) (f : A → M B)
      → Keeps P m
      → ((a : A) → Keeps P (f a))
      → Keeps P (m >>= f)
  Keeps-bind m f km kf s h = bind-Keeps (m s) f (km s h) kf

  pub Keeps-then :
      {B : Type 0} (m : M (Unit {0})) (k : M B) → Keeps P m → Keeps P k → Keeps P (m >> k)
  Keeps-then m k km kk s h = bind-Keeps (m s) (λ _. k) (km s h) (λ _. kk)

  pub Keeps-if :
      {A : Type 0} (b : Bool) (m k : M A) → Keeps P m → Keeps P k → Keeps P (if b then m else k)
  Keeps-if true m k km kk = km
  Keeps-if false m k km kk = kk

module _ ⦃L : Libp2p⦄ where
  pub connections_of-holds :
      (c : ConnectionId) (ms : List AddressMetadata)
      → any (same_connection c) (connections_of ms) ≡ any (holds c) ms
  unfolding connections_of any
  connections_of-holds c [] = refl
  connections_of-holds c (m ∷ ms) = ground (
    arith,
    any-append (same_connection c) m.active_connections (connections_of ms),
    connections_of-holds c ms,
  )

  -- The facts on the entry of a peer that a round relies on.
  entry_known :
      (view : NetworkView) (p : PeerId) (info : PeerInfoExt) (best : AddressMetadata)
      (others : List AddressMetadata)
      → info_of view p ≡ some info
      → info.addresses ≡ best ∷ others
      → knows_addr (entry view p) best.address ≡ true
  unfolding any
  entry_known view p info best others e split =
      ground (arith, e, split, same_addr_refl best.address)

  entry_open :
      (view : NetworkView) (p : PeerId) (info : PeerInfoExt) (best : AddressMetadata)
      (others : List AddressMetadata) (c : ConnectionId)
      → info_of view p ≡ some info
      → info.addresses ≡ best ∷ others
      → any (same_connection c) (connections_of others) ≡ true
      → is_open view p c ≡ true
  unfolding any
  entry_open view p info best others c e split h =
      ground (arith, e, split, connections_of-holds c others)

module _ ⦃L : Libp2p⦄ ⦃S : Swarm⦄ (P : SavedNetwork → Type 0) (p : PeerId) (R : IsRound P p) where
  close_all-kept :
      (cs : List ConnectionId) (s : SavedNetwork)
      → is_prune_leader p ≡ true
      → P s
      → ((c : ConnectionId) → any (same_connection c) cs ≡ true → is_open s.view p c ≡ true)
      → P (close_all cs s).1
  unfolding close_all any
  close_all-kept [] s leads h k = h
  close_all-kept (c ∷ cs) s leads h k =
      close_all-kept cs _ leads (R.close_open c s h leads (k c (ground arith)))
        (λ d e. k d (ground (arith, e)))

  note_failure-kept : (now : ℕ) (addr : Multiaddr) → Keeps P (note_failure now p addr)
  unfolding note_failure step
  note_failure-kept now addr s h = R.mark now addr s h

  -- A dial of a known address, and what follows where it is refused.
  dialed :
      (addr : Multiaddr) (refused : M (Unit {0})) (s : SavedNetwork)
      → Keeps P refused
      → knows_addr (entry s.view p) addr ≡ true
      → P s
      → P ((swarm_dial addr >>= (λ accepted. if accepted then pure tt else refused)) s).1
  unfolding swarm_dial
  dialed addr refused s k known h =
      let logged = R.dial_known addr s h known in
      at_if P (S.dial_ok s.log addr) (pure tt) refused (record s { log = dials addr ∷ s.log })
        logged (k _ logged)

  dial_best-kept :
      (now : ℕ) (again : M (Unit {0})) (addr : Multiaddr) (s : SavedNetwork)
      → Keeps P again
      → knows_addr (entry s.view p) addr ≡ true
      → P s
      → P (dial_best now p again addr s).1
  unfolding dial_best
  dial_best-kept now again addr s k known h =
      dialed addr (note_failure now p addr >> again) s
        (Keeps-then P (note_failure now p addr) again (note_failure-kept now addr) k) known h

  migrate-kept :
      (now : ℕ) (info : PeerInfoExt) (addr : Multiaddr) (s : SavedNetwork)
      → knows_addr (entry s.view p) addr ≡ true
      → P s
      → P (migrate now p info addr s).1
  unfolding migrate
  migrate-kept now info addr s known h =
      let active : Bool = elim (find (has_addr addr) info.addresses) [
        | none ↦ false
        | some m ↦ is_active m
      ] in
      let again : M (Unit {0}) =
        swarm_dial addr >>= (λ accepted. if accepted then pure tt else note_failure now p addr) in
      at_if P active (pure tt) (if is_prune_leader p then again else pure tt) s h (
        at_if P (is_prune_leader p) again (pure tt) s
          (dialed addr (note_failure now p addr) s (note_failure-kept now addr) known h) h)

  reconcile_entry-kept :
      (now : ℕ) (again : M (Unit {0})) (info : PeerInfoExt) (ms : List AddressMetadata)
      (s : SavedNetwork)
      → Keeps P again
      → info_of s.view p ≡ some info
      → info.addresses ≡ ms
      → P s
      → P (reconcile_entry now p again info ms s).1
  unfolding reconcile_entry
  reconcile_entry-kept now again info [] s k e split h = h
  reconcile_entry-kept now again info (best ∷ others) s k e split h =
      let known = entry_known s.view p info best others e split in
      let close = close_all (connections_of others) in
      let move = migrate now p info best.address in
      let dial = dial_best now p again best.address in
      at_if P (is_connected_over s.view p best.address)
        (if is_prune_leader p then close else pure tt)
        (if is_connected s.view p then move else dial) s
        (at_test P (is_prune_leader p) close (pure tt) s
          (λ leads.
            close_all-kept (connections_of others) s leads h
              (λ c. entry_open s.view p info best others c e split))
          h)
        (at_if P (is_connected s.view p) move dial s (migrate-kept now info best.address s known h)
          (dial_best-kept now again best.address s k known h))

  reconcile_round-kept :
      (now : ℕ) (again : M (Unit {0})) → Keeps P again → Keeps P (reconcile_round now p again)
  unfolding reconcile_round
  reconcile_round-kept now again k s h = elim (Option-cases (info_of s.view p)) [
    | inl e ↦ rw (e, reconcile_round) h
    | inr (info, e) ↦
        rw (e, reconcile_round) (reconcile_entry-kept now again info info.addresses s k e refl h)
  ]

  -- What every round keeps, `reconcile_peer_connections` keeps, whatever it returns.
  pub reconcile-kept : (fuel now : ℕ) → Keeps P (reconcile_peer_connections fuel now p)
  unfolding reconcile_peer_connections
  reconcile-kept zero now s h = h
  reconcile-kept (suc fuel) now s h =
      reconcile_round-kept now (reconcile_peer_connections fuel now p) (reconcile-kept fuel now) s h

module _ ⦃L : Libp2p⦄ ⦃S : Swarm⦄ (P : SavedNetwork → Type 0) (R : IsClosedRound P) where
  pub reconcile-Keeps :
      (fuel now : ℕ) (p : PeerId) → Keeps P (reconcile_peer_connections fuel now p)
  reconcile-Keeps fuel now p = reconcile-kept P p (IsRound-of P p R) fuel now
