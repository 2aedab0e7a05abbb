-- ===== src/Main/Calls.antt =====
-- src/network/rpc_macros.rs and src/network/api.rs: what a call through the handle comes to, for each
-- method, from the request to the reply.
use mathlib.Core.Path.{subst}
use saved.Base.{
  ℕ, ◌≡◌, refl, Bool, true, false, not, ◌&&◌, ◌||◌, inl, inr, Option, none, some, List, ◌∷◌, arith,
  is_some, if◌then◌else◌, Bool-cases, Option-cases,
}
use saved.Base.Lists.{any, find_of_any, find-holds, find-none, total-remove_first, remove_first}
use saved.Libp2p.{Libp2p, PeerId, same_peer, same_peer-eq}
use saved.Keygen.{Crypto}
use saved.Relay.{contains, set_insert}
use saved.Relay.Address.{is_p2p}
use saved.Relay.Reserve.{IsDistinct, contains-occurrences}
use saved.Network.State.{
  SavedNetwork, SavedError, io, kad_disabled, kad_no_known_peers, dial_addr_missing_p2p,
  tokio_mpsc_send_net_rpc, oneshot_canceled, Swarm, Outcome, ok, err, unfinished, dials,
  kad_queries, kad_bootstraps,
}
use saved.Network.External.{Platform}
use saved.Network.Api.{
  set_mdns_enabled, set_kad_enabled, kad_find_peer, kad_bootstrap, swarm_dial, dial,
  add_target_peer, remove_target_peer,
}
use saved.Network.Rpc.{SavedNetworkRpc, Answer, rpc_name, dispatch_rpc, handle_call}
use saved.Network.Rpc
use saved.Network.{Status, stopped, running, hung, turn}
use saved.Main.{Exit, returns, fails, hangs, Session, Schedule, exit_of, wait, answer, call}

module _ ⦃L : Libp2p⦄ where
  -- What a method that returns an answer has done: the network before and after.
  abbrev pub Met : (r : SavedNetworkRpc) → Answer r → SavedNetwork → SavedNetwork → Type 0
  Met (Rpc.set_mdns_enabled enabled) a s t = t ≡ record s { mdns = enabled }
  Met (Rpc.set_kad_enabled enabled mode) a s t =
      t ≡ record s { kad = if enabled then some mode else none }
  Met (Rpc.kad_find_peer target) a s t = t ≡ record s { log = kad_queries target ∷ s.log }
  Met Rpc.kad_bootstrap a s t = t ≡ record s { log = kad_bootstraps ∷ s.log }
  Met (Rpc.dial addr) a s t = t ≡ record s { log = dials addr ∷ s.log }
  Met (Rpc.add_target_peer target) is_new s t =
      (is_new ≡ not (contains s.target_peers target))
      × ((p : PeerId)
          → contains t.target_peers p ≡ (contains s.target_peers p || same_peer p target))
      × (t ≡ record s { target_peers = t.target_peers })
  Met (Rpc.remove_target_peer target) was_there s t =
      (was_there ≡ contains s.target_peers target)
      × ((p : PeerId)
          → contains t.target_peers p ≡ (contains s.target_peers p && not (same_peer p target)))
      × (t ≡ record s { target_peers = t.target_peers })

  target_added :
      (ts : List PeerId) (t p : PeerId)
      → contains (set_insert t ts) p ≡ (contains ts p || same_peer p t)
  unfolding set_insert any
  target_added ts t p = ground (arith, same_peer-eq p t)

  target_removed :
      (ts : List PeerId) (t p : PeerId)
      → IsDistinct ts
      → contains (remove_first (same_peer t) ts) p ≡ (contains ts p && not (same_peer p t))
  target_removed ts t p d = elim (Bool-cases (contains ts t)) [
    | inl e ↦
        let (y, found) = find_of_any (same_peer t) ts e in
        ground (
          arith,
          e,
          found,
          same_peer-eq t y (find-holds (same_peer t) ts y found),
          total-remove_first (λ z. if same_peer p z then 1 else 0) (same_peer t) ts,
          d p,
          same_peer-eq p t,
          contains-occurrences ts p,
          contains-occurrences (remove_first (same_peer t) ts) p,
        )
    | inr e ↦ ground (
      arith,
      e,
      find-none (same_peer t) ts e,
      total-remove_first (λ z. if same_peer p z then 1 else 0) (same_peer t) ts,
      same_peer-eq p t,
      contains-occurrences ts p,
      contains-occurrences (remove_first (same_peer t) ts) p,
    )
  ]

module _ ⦃L : Libp2p⦄ ⦃S : Swarm⦄ where
  -- The error of a method that is refused.
  abbrev pub refusal : SavedNetworkRpc → SavedNetwork → Option SavedError
  refusal (Rpc.set_mdns_enabled enabled) s =
      if not enabled || (s.mdns || S.mdns_ok s.log) then none else some io
  refusal (Rpc.kad_find_peer target) s = if is_some s.kad then none else some kad_disabled
  refusal Rpc.kad_bootstrap s =
      if is_some s.kad
      then (if S.bootstrap_ok s.log then none else some kad_no_known_peers)
      else some kad_disabled
  refusal (Rpc.dial addr) s =
      if any is_p2p (L.iter addr)
      then (if S.dial_ok s.log addr then none else some SavedError.dial)
      else some (dial_addr_missing_p2p addr)
  refusal _ s = none

  -- The method has returned and met its purpose, or is refused.
  abbrev pub Answered :
      (r : SavedNetworkRpc) → SavedNetwork → Outcome (Answer r) × SavedNetwork → Type 0
  Answered r s (ok a, t) = (refusal r s ≡ none) × Met r a s t
  Answered r s (err e, t) = refusal r s ≡ some e
  Answered r s (unfinished, t) = true ≡ false

  mdns-Answered :
      (s : SavedNetwork) → Answered (Rpc.set_mdns_enabled true) s (set_mdns_enabled true s)
  unfolding set_mdns_enabled
  mdns-Answered s = elim (Bool-cases (s.mdns || S.mdns_ok s.log)) [
    | inl e ↦
        let on : (ok tt, record s { mdns = true }) ≡ set_mdns_enabled true s = ground (arith, e) in
        subst (Answered (Rpc.set_mdns_enabled true) s) on (rw e refl, refl)
    | inr e ↦
        let off : (err io, s) ≡ set_mdns_enabled true s = ground (arith, e) in
        subst (Answered (Rpc.set_mdns_enabled true) s) off (rw e refl)
  ]

  dispatch_rpc-Answered :
      (r : SavedNetworkRpc) (s : SavedNetwork)
      → IsDistinct s.target_peers
      → Answered r s (dispatch_rpc r s)
  unfolding dispatch_rpc set_mdns_enabled set_kad_enabled kad_find_peer kad_bootstrap swarm_dial
      dial add_target_peer remove_target_peer
  dispatch_rpc-Answered (Rpc.set_mdns_enabled true) s d = mdns-Answered s
  dispatch_rpc-Answered (Rpc.set_mdns_enabled false) s d = (refl, refl)
  dispatch_rpc-Answered (Rpc.set_kad_enabled true mode) s d = elim (Option-cases s.kad) [
    | inl e ↦ rw e (refl, refl)
    | inr (m, e) ↦ rw e (refl, refl)
  ]
  dispatch_rpc-Answered (Rpc.set_kad_enabled false mode) s d = (refl, refl)
  dispatch_rpc-Answered (Rpc.kad_find_peer target) s d = elim (Option-cases s.kad) [
    | inl e ↦ rw e (ground (arith, e))
    | inr (m, e) ↦ rw e (ground (arith, e), refl)
  ]
  dispatch_rpc-Answered Rpc.kad_bootstrap s d = elim (Option-cases s.kad) [
    | inl e ↦ rw e (ground (arith, e))
    | inr (m, e) ↦ elim (Bool-cases (S.bootstrap_ok s.log)) [
      | inl o ↦ rw (e, o) (ground (arith, e, o), refl)
      | inr o ↦ rw (e, o) (ground (arith, e, o))
    ]
  ]
  dispatch_rpc-Answered (Rpc.dial addr) s d = elim (Bool-cases (any is_p2p (L.iter addr))) [
    | inr m ↦ rw m (ground (arith, m))
    | inl m ↦ elim (Bool-cases (S.dial_ok s.log addr)) [
      | inl o ↦ rw (m, o) (ground (arith, m, o), refl)
      | inr o ↦ rw (m, o) (ground (arith, m, o))
    ]
  ]
  dispatch_rpc-Answered (Rpc.add_target_peer target) s d =
      (refl, (refl, target_added s.target_peers target, refl))
  dispatch_rpc-Answered (Rpc.remove_target_peer target) s d =
      (refl, (refl, λ p. target_removed s.target_peers target p d, refl))

module _ ⦃L : Libp2p⦄ ⦃S : Swarm⦄ ⦃C : Crypto⦄ ⦃T : Platform⦄ where
  -- What a call comes to, by how the loop stands when the call has waited for it, and whether the
  -- channel takes the request of a loop that has stopped.
  abbrev pub Concluded :
      Bool → (r : SavedNetworkRpc) → Status × SavedNetwork → Exit (Answer r) × Session → Type 0
  Concluded sent r (running, s) (returns a, w) =
      (refusal r s ≡ none) × Met r a s w.task.1 × (w.task.0 ≡ running)
  Concluded sent r (running, s) (fails e, w) = (refusal r s ≡ some e) × (w.task.0 ≡ running)
  Concluded sent r (stopped, s) (fails e, w) =
      (e ≡ (if sent then oneshot_canceled (rpc_name r) else tokio_mpsc_send_net_rpc))
      × (w.task ≡ (stopped, s))
  Concluded sent r (hung, s) (hangs, w) = w.task ≡ (hung, s)
  Concluded sent r task end = true ≡ false

  running-Concluded :
      (sent : Bool) (r : SavedNetworkRpc) (s : SavedNetwork) (o : Outcome (Answer r) × SavedNetwork)
      (calls : ℕ)
      → Answered r s o
      → Concluded sent r (running, s) (exit_of o.0, record { task = (running, o.1); calls = calls })
  running-Concluded sent r s (ok a, t) n h = (h.0, h.1, refl)
  running-Concluded sent r s (err e, t) n h = (h, refl)
  running-Concluded sent r s (unfinished, t) n h = h

  answer-Concluded :
      (plan : Schedule) (r : SavedNetworkRpc) (n : ℕ) (task : Status × SavedNetwork)
      → IsDistinct task.1.target_peers
      → Concluded (plan.sent n) r task (answer plan r n task)
  unfolding answer handle_call turn
  answer-Concluded plan r n (running, s) d =
      running-Concluded (plan.sent n) r s (dispatch_rpc r s) _ (dispatch_rpc-Answered r s d)
  answer-Concluded plan r n (stopped, s) d = elim (Bool-cases (plan.sent n)) [
    | inl e ↦ rw e (refl, refl)
    | inr e ↦ rw e (refl, refl)
  ]
  answer-Concluded plan r n (hung, s) d = refl

  -- Where the target peers are distinct, for each method of the handle: if the loop runs when
  -- the request comes, the call returns unless there is a reason to refuse, of which it gives
  -- the error, and then it has changed the network as `Met` says and no further; if the loop has
  -- stopped, it fails and changes nothing; and it waits for ever exactly where a handler does
  -- not return.
  pub call-Concluded :
      (plan : Schedule) (r : SavedNetworkRpc) (w : Session)
      → IsDistinct (wait plan w).1.target_peers
      → Concluded (plan.sent w.calls) r (wait plan w) (call plan r w)
  unfolding call
  call-Concluded plan r w d = answer-Concluded plan r w.calls (wait plan w) d
