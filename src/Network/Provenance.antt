-- ===== src/Network/Provenance.antt =====
-- src/network/mod.rs: where the addresses come from that the node knows and dials.
pub mod Loop
use mathlib.Core.Path.{subst}
use saved.Base.{
  ℕ, ◌≡◌, refl, sym, ap, ◌∙◌, Bool, true, false, ◌&&◌, ◌||◌, inl, inr, List, [], ◌∷◌, arith,
  Bool-cases,
}
use saved.Libp2p.{Libp2p, PeerId, ConnectionId, Multiaddr, ConnectedPoint, same_addr}
use saved.View.{NetworkView, remote_addr}
use saved.View.Entry.{entry}
use saved.View.Knows.{knows_addr}
use saved.View.Count.{same_addr_refl, same_addr-eq}
use saved.View.Consistent.{
  Call, IsConsistent, step, step-IsConsistent, adds_address, removes_address, fails, connects,
  disconnects as drops, identifies, pings,
}
use saved.View.Spec.{Connectivity, connectivity, spec_step, step_refines, learn}
use saved.Network.State.{SavedNetwork, SavedNetworkEvent, Swarm, Effect, dials, broadcasts, ◌>>◌}
use saved.Network.Handlers.{send_event}
use saved.Network.Closed.{Keeps}
use saved.Network.Unaffected.{is_dial, IsSilent, brings, IsUnaffected, IsRelayFree}
use saved.Network.Unaffected.Modes.{IsModeFree}

module _ ⦃L : Libp2p⦄ (T : Multiaddr → Type 0) where
  -- Every address that was dialed is one that `T` holds of.
  abbrev pub AllDials : List Effect → Type 0
  AllDials [] = Unit {0}
  AllDials (dials a ∷ log) = T a × AllDials log
  AllDials (_ ∷ log) = AllDials log

  -- And so is every address that is known for a peer.
  abbrev pub AllKnown : NetworkView → Type 0
  AllKnown view = (p : PeerId) (a : Multiaddr) → knows_addr (entry view p) a ≡ true → T a

  pub record IsSourced (s : SavedNetwork) : Type 0 where
    pub view_ok : IsConsistent s.view
    pub known : AllKnown s.view
    pub dialed : AllDials s.log

  log-silent :
      (e : Effect) (log : List Effect) → is_dial e ≡ false → AllDials log → AllDials (e ∷ log)
  log-silent (dials a) log q h = cc
  log-silent _ log q h = h

  neutral-knows :
      (call : Call) (c : Connectivity) (p : PeerId) (a : Multiaddr)
      → brings call ≡ false
      → (spec_step c call).knows p a ≡ true
      → c.knows p a ≡ true
  unfolding spec_step
  neutral-knows (adds_address now q b) c p a n h = cc
  neutral-knows (removes_address now q b) c p a n h = ground (arith, h)
  neutral-knows (fails now q b) c p a n h = h
  neutral-knows (connects now q d e) c p a n h = cc
  neutral-knows (drops now q d) c p a n h = h
  neutral-knows (identifies q ps) c p a n h = h
  neutral-knows (pings q rtt) c p a n h = h

  learn-known :
      (c : Connectivity) (q : PeerId) (b : Multiaddr)
      → ((p : PeerId) (a : Multiaddr) → c.knows p a ≡ true → T a)
      → T b
      → (p : PeerId) (a : Multiaddr) → learn c q b p a ≡ true
      → T a
  unfolding learn
  learn-known c q b k t p a h = elim (Bool-cases (c.knows p a)) [
    | inl old ↦ k p a old
    | inr fresh ↦ subst T (sym (same_addr-eq a b (ground (arith, h, fresh)))) t
  ]

  -- The known addresses after a call, by the specification.
  after_call :
      (view : NetworkView) (call : Call)
      → IsConsistent view
      → ((p : PeerId) (a : Multiaddr) → (spec_step (connectivity view) call).knows p a ≡ true → T a)
      → AllKnown (step view call)
  after_call view call v k p a h =
      k p a (ap (λ c. c.knows p a) (sym (step_refines view call v)) ∙ h)

  called :
      (call : Call) (s : SavedNetwork)
      → IsSourced s
      → ((p : PeerId) (a : Multiaddr)
          → (spec_step (connectivity s.view) call).knows p a ≡ true
          → T a)
      → IsSourced (record s { view = step s.view call })
  called call s h k = record {
    view_ok = step-IsConsistent s.view call h.view_ok;
    known = after_call s.view call h.view_ok k;
    dialed = h.dialed;
  }

  pub connect-IsSourced :
      (now : ℕ) (p : PeerId) (c : ConnectionId) (e : ConnectedPoint) (s : SavedNetwork)
      → T (remote_addr e)
      → IsSourced s
      → IsSourced (record s { view = step s.view (connects now p c e) })
  unfolding spec_step
  connect-IsSourced now p c e s t h =
      called (connects now p c e) s h
        (learn-known (connectivity s.view) p (remote_addr e) h.known t)

  pub IsSourced-IsUnaffected : IsUnaffected IsSourced T
  unfolding spec_step
  IsSourced-IsUnaffected = record {
    logs = λ e s q h. record {
      view_ok = h.view_ok;
      known = h.known;
      dialed = log-silent e s.log q.0 h.dialed;
    };
    dials_known = λ p a s k h. record {
      view_ok = h.view_ok;
      known = h.known;
      dialed = (h.known p a k, h.dialed);
    };
    neutral = λ call s n h.
        called call s h (λ p a k. h.known p a (neutral-knows call (connectivity s.view) p a n k));
    adds = λ now p a s t h.
        called (adds_address now p a) s h (learn-known (connectivity s.view) p a h.known t);
    nats = λ status s h. record { view_ok = h.view_ok; known = h.known; dialed = h.dialed };
  }

  pub IsSourced-IsRelayFree : IsRelayFree IsSourced
  IsSourced-IsRelayFree m s h = record { view_ok = h.view_ok; known = h.known; dialed = h.dialed }

  pub IsSourced-IsModeFree : IsModeFree IsSourced
  IsSourced-IsModeFree = record {
    same = λ s t h a b. record {
      view_ok = subst IsConsistent (sym a) h.view_ok;
      known = subst AllKnown (sym a) h.known;
      dialed = subst AllDials (sym b) h.dialed;
    };
    asks = λ t s h. record { view_ok = h.view_ok; known = h.known; dialed = h.dialed };
  }

module _ ⦃L : Libp2p⦄ ⦃S : Swarm⦄ (T : Multiaddr → Type 0) where
  pub send_event-IsSourced : (e : SavedNetworkEvent) → Keeps (IsSourced T) (send_event e)
  unfolding send_event
  send_event-IsSourced e s h = elim (Bool-cases (S.has_receiver s.log)) [
    | inl r ↦
        rw (r, send_event) (record { view_ok = h.view_ok; known = h.known; dialed = h.dialed })
    | inr r ↦ rw (r, send_event) h
  ]
