-- ===== src/View/Spec.antt =====
-- src/view.rs: what `NetworkView` promises its callers, without lists, orders and counts: for each
-- peer the address of each open connection, and the set of known addresses.
use mathlib.Core.Path.{fun_ext}
use saved.Base.{
  ℕ, ◌≡◌, refl, Bool, true, false, not, ◌&&◌, ◌||◌, Option, none, some, List, [], ◌∷◌, ◌∙◌, ap,
  arith, if◌then◌else◌,
}
use saved.Base.Lists.{any}
use saved.Libp2p.{
  Libp2p, PeerId, ConnectionId, Multiaddr, same_connection, same_addr, same_peer, same_peer-eq,
}
use saved.View.Peer.{PeerInfoExt, get_connection_address, mark_failure, resort, default_info}
use saved.View.{
  NetworkView, remove_address, drop_address, remove_connection, detach, remote_addr, update_peer,
}
use saved.View.Entry.{
  entry, entry-add_address, entry-add_connection, entry-remove_address, entry-remove_connection,
  entry-set_protocols, entry-update_peer,
}
use saved.View.Consistent.{
  IsConsistent, Call, adds_address, removes_address, fails, connects, disconnects, identifies,
  pings, step, run, with_rtt, step-IsConsistent, entry-IsValid,
}
use saved.View.Locate.{
  locate-insert_connection, locate-detach, locate-insert_address, locate-drop_address,
  locate-mark_failure,
}
use saved.View.Knows.{
  knows_addr, knows-insert_address, knows-drop_address, knows-insert_connection, knows-detach,
  knows-mark_failure,
}

module _ ⦃L : Libp2p⦄ where
  pub record Connectivity : Type 0 where
    pub at : PeerId → ConnectionId → Option Multiaddr
    pub knows : PeerId → Multiaddr → Bool

  -- The view as its callers see it.
  abbrev pub connectivity : NetworkView → Connectivity
  connectivity view = record {
    at = λ p c. get_connection_address (entry view p) c;
    knows = λ p a. knows_addr (entry view p) a;
  }

  abbrev forget : Multiaddr → Option Multiaddr → Option Multiaddr
  forget a none = none
  forget a (some b) = if same_addr a b then none else some b

  unfoldable pub learn : Connectivity → PeerId → Multiaddr → PeerId → Multiaddr → Bool
  learn s p a q b = s.knows q b || (same_peer q p && same_addr b a)

  -- What each call does to it.
  unfoldable pub spec_step : Connectivity → Call → Connectivity
  unfolding learn
  spec_step s (adds_address now p a) = record s { knows = learn s p a }
  spec_step s (removes_address now p a) = record {
    at = λ q d. if same_peer q p then forget a (s.at q d) else s.at q d;
    knows = λ q b. s.knows q b && not (same_peer q p && same_addr b a);
  }
  spec_step s (fails now p a) = s
  spec_step s (connects now p c e) = record {
    at = λ q d. if same_peer q p && same_connection d c then some (remote_addr e) else s.at q d;
    knows = learn s p (remote_addr e);
  }
  spec_step s (disconnects now p c) = record s {
    at = λ q d. if same_peer q p && same_connection d c then none else s.at q d;
  }
  spec_step s (identifies p ps) = s
  spec_step s (pings p rtt) = s

  unfoldable pub spec_run : Connectivity → List Call → Connectivity
  spec_run s [] = s
  spec_run s (c ∷ cs) = spec_run (spec_step s c) cs

  -- A connection's address and the known addresses depend on the list of entries alone.
  at_of_addresses :
      (i j : PeerInfoExt) (c : ConnectionId)
      → i.addresses ≡ j.addresses
      → get_connection_address i c ≡ get_connection_address j c
  unfolding get_connection_address
  at_of_addresses i j c h = rw h

  at_of_branch :
      (b : Bool) (i j k : PeerInfoExt) (c : ConnectionId)
      → i.addresses ≡ (if b then j.addresses else k.addresses)
      → get_connection_address i c
        ≡ (if b then get_connection_address j c else get_connection_address k c)
  at_of_branch true i j k c h = at_of_addresses i j c h
  at_of_branch false i j k c h = at_of_addresses i k c h

  failed_default : (now : ℕ) (a : Multiaddr) → (mark_failure now default_info a).addresses ≡ []
  unfolding mark_failure any
  failed_default now a = refl

  step-at :
      (view : NetworkView) (call : Call) (q : PeerId) (d : ConnectionId)
      → IsConsistent view
      → (connectivity (step view call)).at q d ≡ (spec_step (connectivity view) call).at q d
  unfolding step spec_step
  step-at view (adds_address now p a) q d v = ground (
    arith,
    entry-add_address now view p q a,
    locate-insert_address (entry view p) d a now (entry-IsValid view p v),
    same_peer-eq q p,
  )
  step-at view (removes_address now p a) q d v =
      at_of_branch (same_peer q p) (entry (remove_address now view p a) q)
        (drop_address now a (entry view p)) (entry view q) d (entry-remove_address now view p q a)
      ∙ ground (
        arith,
        locate-drop_address (entry view p) d a now (entry-IsValid view p v),
        same_peer-eq q p,
      )
  step-at view (fails now p a) q d v =
      let failed = λ (info : PeerInfoExt). mark_failure now info a in
      at_of_branch (same_peer q p) (entry (update_peer failed view p) q) (failed (entry view p))
        (entry view q) d (entry-update_peer failed view p q (failed_default now a))
      ∙ ground (
        arith,
        locate-mark_failure (entry view p) d a now (entry-IsValid view p v),
        same_peer-eq q p,
      )
  step-at view (connects now p c e) q d v = ground (
    arith,
    entry-add_connection now view p q c e,
    locate-insert_connection (entry view p) d c (remote_addr e) now (entry-IsValid view p v),
    same_peer-eq q p,
  )
  step-at view (disconnects now p c) q d v =
      at_of_branch (same_peer q p) (entry (remove_connection now view p c) q)
        (resort now (detach c (entry view p))) (entry view q) d
        (entry-remove_connection now view p q c)
      ∙ ground
          (arith, locate-detach (entry view p) d c now (entry-IsValid view p v), same_peer-eq q p)
  step-at view (identifies p ps) q d v = at_of_addresses _ _ d (entry-set_protocols view p q ps)
  step-at view (pings p rtt) q d v =
      at_of_branch (same_peer q p) (entry (update_peer (with_rtt rtt) view p) q)
        (with_rtt rtt (entry view p)) (entry view q) d
        (entry-update_peer (with_rtt rtt) view p q refl)
      ∙ ground (
        arith,
        at_of_addresses (with_rtt rtt (entry view p)) (entry view p) d refl,
        same_peer-eq q p,
      )

  knows_of_branch :
      (b : Bool) (i j k : PeerInfoExt) (a : Multiaddr)
      → i.addresses ≡ (if b then j.addresses else k.addresses)
      → knows_addr i a ≡ (if b then knows_addr j a else knows_addr k a)
  knows_of_branch true i j k a h = rw h
  knows_of_branch false i j k a h = rw h

  step-knows :
      (view : NetworkView) (call : Call) (q : PeerId) (b : Multiaddr)
      → IsConsistent view
      → (connectivity (step view call)).knows q b ≡ (spec_step (connectivity view) call).knows q b
  unfolding step spec_step
  step-knows view (adds_address now p a) q b v = ground (
    arith,
    entry-add_address now view p q a,
    knows-insert_address now (entry view p) a b,
    same_peer-eq q p,
  )
  step-knows view (removes_address now p a) q b v =
      knows_of_branch (same_peer q p) (entry (remove_address now view p a) q)
        (drop_address now a (entry view p)) (entry view q) b (entry-remove_address now view p q a)
      ∙ ground (
        arith,
        knows-drop_address now (entry view p) a b (entry-IsValid view p v),
        same_peer-eq q p,
      )
  step-knows view (fails now p a) q b v =
      let failed = λ (info : PeerInfoExt). mark_failure now info a in
      knows_of_branch (same_peer q p) (entry (update_peer failed view p) q) (failed (entry view p))
        (entry view q) b (entry-update_peer failed view p q (failed_default now a))
      ∙ ground (arith, knows-mark_failure now (entry view p) a b, same_peer-eq q p)
  step-knows view (connects now p c e) q b v = ground (
    arith,
    entry-add_connection now view p q c e,
    knows-insert_connection now (entry view p) c (remote_addr e) b (entry-IsValid view p v),
    same_peer-eq q p,
  )
  step-knows view (disconnects now p c) q b v =
      knows_of_branch (same_peer q p) (entry (remove_connection now view p c) q)
        (resort now (detach c (entry view p))) (entry view q) b
        (entry-remove_connection now view p q c)
      ∙ ground (arith, knows-detach now (entry view p) c b, same_peer-eq q p)
  step-knows view (identifies p ps) q b v = rw (entry-set_protocols view p q ps)
  step-knows view (pings p rtt) q b v =
      knows_of_branch (same_peer q p) (entry (update_peer (with_rtt rtt) view p) q)
        (with_rtt rtt (entry view p)) (entry view q) b
        (entry-update_peer (with_rtt rtt) view p q refl)
      ∙ ground (arith, same_peer-eq q p)

  -- Every call on a consistent view does what the specification says.
  pub step_refines :
      (view : NetworkView) (call : Call)
      → IsConsistent view
      → connectivity (step view call) ≡ spec_step (connectivity view) call
  step_refines view call v = λ i. record {
    at = fun_ext (λ q. fun_ext (λ d. step-at view call q d v)) i;
    knows = fun_ext (λ q. fun_ext (λ b. step-knows view call q b v)) i;
  }

  -- From a consistent view, every sequence of calls does to the address of each connection and
  -- to the known addresses of each peer what the specification `spec_run` says.
  pub run_refines :
      (view : NetworkView) (calls : List Call)
      → IsConsistent view
      → connectivity (run view calls) ≡ spec_run (connectivity view) calls
  unfolding run spec_run
  run_refines view [] v = refl
  run_refines view (c ∷ cs) v =
      run_refines (step view c) cs (step-IsConsistent view c v)
      ∙ ap (λ s. spec_run s cs) (step_refines view c v)
