-- ===== src/Network/Start.antt =====
-- src/network/mod.rs: `SavedNetwork::new`: when it succeeds, with which error it fails otherwise, and
-- the network that it starts.
use mathlib.Core.Path.{subst}
use saved.Base.{
  ℕ, ◌≡◌, refl, Bool, true, false, Option, none, some, List, [], ◌∷◌, arith, if◌then◌else◌,
  Bool-cases, inl, inr,
}
use saved.Libp2p.{Libp2p, Multiaddr}
use saved.Keygen.{Crypto}
use saved.Network.State.{
  SavedNetwork, SavedError, Swarm, listens, io, libp2p_noise, libp2p_core_transport, auto, ok, err,
  ◌>>◌, pure,
}
use saved.Network.External.{Platform}
use saved.Network.Handle.{SavedHandle}
use saved.Network.Api.{set_mdns_enabled, set_kad_enabled}
use saved.Network.{Ready, initial, builds, parsed, build_swarm, listen_on, new, event_loop}
use saved.Network.Closed.{Keeps, Keeps-then, Keeps-bind}
use saved.Network.Invariant.{IsValid, same_parts}
use saved.Network.Invariant.Loop.{initial-IsValid, event_loop-IsValid}

module _ ⦃L : Libp2p⦄ where
  -- The error of the first check that fails.
  abbrev pub first_error : List (Bool × SavedError) → Option SavedError
  first_error [] = none
  first_error ((success, e) ∷ rest) = if success then first_error rest else some e

  -- The network that is started: it listens on both addresses, mDNS runs and Kademlia does not.
  abbrev pub started : Multiaddr → Multiaddr → SavedNetwork
  started a b = record initial { mdns = true; log = listens b ∷ listens a ∷ [] }

  pub started-IsValid : (a b : Multiaddr) → IsValid (started a b)
  started-IsValid a b = same_parts initial (started a b) initial-IsValid refl refl refl

module _ ⦃L : Libp2p⦄ ⦃S : Swarm⦄ ⦃T : Platform⦄ where
  -- What `new` asks for, in order, where the IPv4 and the IPv6 address are `a` and `b`.
  abbrev pub start_checks : Multiaddr → Multiaddr → List (Bool × SavedError)
  start_checks a b =
      (T.tcp_ok, libp2p_noise)
      ∷ (T.dns_ok, io)
      ∷ (T.relay_ok, libp2p_noise)
      ∷ (T.listen_ok [] a, libp2p_core_transport)
      ∷ (T.listen_ok (listens a ∷ []) b, libp2p_core_transport)
      ∷ (S.mdns_ok (listens b ∷ listens a ∷ []), io)
      ∷ []

module _ ⦃L : Libp2p⦄ ⦃S : Swarm⦄ ⦃C : Crypto⦄ ⦃T : Platform⦄ where
  -- The handle that `new` returns.
  abbrev pub handle_of : C.Keypair → SavedHandle
  handle_of keypair = record { id = C.to_peer_id keypair; task_handle = some T.spawned }

  -- Where both listen addresses parse, `new` fails with the error of the first of its steps that
  -- fails; where none fails it returns the handle, and the network listens on both addresses,
  -- with mDNS and without Kademlia.
  pub new-first_error :
      (keypair : C.Keypair) (a b : Multiaddr)
      → T.parse_addr "/ip4/0.0.0.0/tcp/0" ≡ some a
      → T.parse_addr "/ip6/::/tcp/0" ≡ some b
      → (first_error (start_checks a b) ≡ none
          → new keypair ≡ (ok (handle_of keypair), started a b))
        × ((e : SavedError) → first_error (start_checks a b) ≡ some e → (new keypair).0 ≡ err e)
  unfolding new build_swarm listen_on set_mdns_enabled set_kad_enabled
  new-first_error keypair a b ha hb = elim (Bool-cases T.tcp_ok) [
    | inr t ↦ rw (t, new, build_swarm) (λ h. cc, λ e h. cc)
    | inl t ↦ elim (Bool-cases T.dns_ok) [
      | inr d ↦ rw (t, d, new, build_swarm) (λ h. cc, λ e h. cc)
      | inl d ↦ elim (Bool-cases T.relay_ok) [
        | inr r ↦ rw (t, d, r, new, build_swarm) (λ h. cc, λ e h. cc)
        | inl r ↦ elim (Bool-cases (T.listen_ok [] a)) [
          | inr v ↦ rw (t, d, r, ha, hb, v, new, build_swarm) (λ h. cc, λ e h. cc)
          | inl v ↦ elim (Bool-cases (T.listen_ok (listens a ∷ []) b)) [
            | inr w ↦ rw (t, d, r, ha, hb, v, w, new, build_swarm) (λ h. cc, λ e h. cc)
            | inl w ↦ elim (Bool-cases (S.mdns_ok (listens b ∷ listens a ∷ []))) [
              | inr m ↦ rw (t, d, r, ha, hb, v, w, m, new, build_swarm) (λ h. cc, λ e h. cc)
              | inl m ↦ rw (t, d, r, ha, hb, v, w, m, new, build_swarm) (λ h. refl, λ e h. cc)
            ]
          ]
        ]
      ]
    ]
  ]

-- A property that listening and turning the two behaviours on or off keep.
module _ ⦃L : Libp2p⦄ ⦃S : Swarm⦄ ⦃C : Crypto⦄ ⦃T : Platform⦄ (P : SavedNetwork → Type 0)
    (listening : (addr : Multiaddr) (s : SavedNetwork)
      → P s
      → P (record s { log = listens addr ∷ s.log }))
    (mdns_on : (s : SavedNetwork) → P s → P (record s { mdns = true }))
    (kad_off : (s : SavedNetwork) → P s → P (record s { kad = none })) where
  parsed-Keeps : (o : Option Multiaddr) → Keeps P (parsed o)
  parsed-Keeps none s h = h
  parsed-Keeps (some addr) s h = h

  builds-Keeps : (b : Bool) (e : SavedError) → Keeps P (builds b e)
  builds-Keeps true e s h = h
  builds-Keeps false e s h = h

  listen_on-Keeps : (addr : Multiaddr) → Keeps P (listen_on addr)
  unfolding listen_on
  listen_on-Keeps addr s h = elim (Bool-cases (T.listen_ok s.log addr)) [
    | inl e ↦ rw (e, listen_on) (listening addr s h)
    | inr e ↦ rw (e, listen_on) (listening addr s h)
  ]

  mdns_if :
      (b c : Bool) (s : SavedNetwork)
      → P s
      → P (if b then s else if c then record s { mdns = true } else s)
  mdns_if true c s h = h
  mdns_if false true s h = mdns_on s h
  mdns_if false false s h = h

  enable_mdns-Keeps : Keeps P (set_mdns_enabled true)
  unfolding set_mdns_enabled
  enable_mdns-Keeps s h = subst P (ground arith) (mdns_if s.mdns (S.mdns_ok s.log) s h)

  disable_kad-Keeps : Keeps P (set_kad_enabled false auto)
  unfolding set_kad_enabled
  disable_kad-Keeps s h = kad_off s h

  build_swarm-Keeps : Keeps P build_swarm
  unfolding build_swarm
  build_swarm-Keeps =
      Keeps-then P (builds T.tcp_ok libp2p_noise) _ (builds-Keeps T.tcp_ok libp2p_noise) (
        Keeps-then P (builds T.dns_ok io) _ (builds-Keeps T.dns_ok io) (
          Keeps-then P (builds T.relay_ok libp2p_noise) _ (builds-Keeps T.relay_ok libp2p_noise) (
            Keeps-bind P (parsed (T.parse_addr "/ip4/0.0.0.0/tcp/0")) _ (parsed-Keeps _) (λ v4.
              Keeps-bind P (parsed (T.parse_addr "/ip6/::/tcp/0")) _ (parsed-Keeps _)
                (λ v6. Keeps-then P (listen_on v4) _ (listen_on-Keeps v4) (listen_on-Keeps v6))))))

  pub new-Keeps : (keypair : C.Keypair) → P initial → P (new keypair).1
  unfolding new
  new-Keeps keypair h =
      let last = set_kad_enabled false auto >> pure (handle_of keypair) in
      Keeps-then P build_swarm (set_mdns_enabled true >> last) build_swarm-Keeps
        (Keeps-then P (set_mdns_enabled true) last enable_mdns-Keeps (
          Keeps-then P (set_kad_enabled false auto) (pure (handle_of keypair)) disable_kad-Keeps
            (λ s h. h)))
        initial h

module _ ⦃L : Libp2p⦄ ⦃S : Swarm⦄ ⦃C : Crypto⦄ ⦃T : Platform⦄ where
  -- The network that `new` has made is valid, also where `new` fails.
  pub new-IsValid : (keypair : C.Keypair) → IsValid (new keypair).1
  new-IsValid keypair =
      new-Keeps IsValid (λ addr s h. same_parts s _ h refl refl refl)
        (λ s h. same_parts s _ h refl refl refl) (λ s h. same_parts s _ h refl refl refl) keypair
        initial-IsValid

  -- From the start of the node, the network is valid after any sequence of turns of the event
  -- loop, also where `new` or a handler fails, or a handler does not return.
  pub started_loop-IsValid :
      (fuel : ℕ) (turns : List Ready) (keypair : C.Keypair)
      → IsValid (event_loop fuel turns (new keypair).1).1
  started_loop-IsValid fuel turns keypair =
      event_loop-IsValid fuel turns (new keypair).1 (new-IsValid keypair)
