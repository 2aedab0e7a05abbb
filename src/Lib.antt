-- ===== src/Lib.antt =====
-- A peer-to-peer node on libp2p, in Rust: src/view.rs (what is known of each peer),
-- src/network/relay_manager.rs (the relays that are reserved), src/network/mod.rs (the node: its
-- start, its event handlers, its API and its event loop), src/network/api.rs and
-- src/network/rpc_macros.rs (the requests of a handle), src/network/handle.rs (the handle and its
-- task), src/keygen.rs (the key of the node) and src/main.rs (the program).
--
-- How the parts interact. The event loop takes one thing at a time: the shutdown, a tick, a request
-- or a swarm event. A handler changes the view (`NetworkView`), reports to the channel of events,
-- turns Kademlia and mDNS on or off (`set_active_mode`), and then calls
-- `reconcile_peer_connections`, which reads the best address of the peer from the view and dials or
-- closes, and `update_relay_state`, which reads the view for the relays in use and prunes the rest.
-- The program starts the loop as a task, calls it through the handle, and joins or drops the handle.
--
-- Where each part is modelled:
--   Base       lists, sorting by a Boolean order, association lists (for `HashMap`)
--   Libp2p     peer ids, connection ids, multiaddresses and stream protocols of the libp2p crates: a
--              parameter, with the laws that are relied on (the bytes of a peer id determine it, the
--              order of addresses is total, `with` appends a component)
--   View       src/view.rs. View/Classify: `classify_addr`; View/Peer: `AddressMetadata` and
--              `PeerInfoExt`; View: `NetworkView`, one function per method. An entry of the map is
--              changed by `upsert` (`entry().or_default()`) or `modify` (`get_mut`)
--   Relay      src/network/relay_manager.rs, and the loop of `prune_relays`. Relay/Address: the
--              addresses over a relay
--   Network    src/network/mod.rs. Network/State: the state, the errors and the log of calls;
--              Network/Api: the methods of `SavedNetworkApi` and `set_active_mode`;
--              Network/Reconcile: `reconcile_peer_connections`; Network/Handlers and Network/Events:
--              the handlers and `on_swarm_event`; Network/Rpc: the RPC macro;
--              Network/Handle: src/network/handle.rs; Network/External: what `new` uses of other
--              crates; Network: `new`, `event_loop`
--   Keygen     src/keygen.rs
--   View/UnitTests, Relay/UnitTests, Keygen/UnitTests
--              unit tests of src/view.rs, src/network/relay_manager.rs and src/keygen.rs, for every
--              input of the kind that they take
--   Network/UnitTests
--              the wait for a connection, of the unit tests of src/network/mod.rs
--   Main       src/main.rs, and the call of a method through the handle
--   Tests      a concrete libp2p, platform and swarm, and the theorems at concrete inputs
-- The other modules hold proofs, and are named for what they are about. Network/Closed is the
-- interface of the invariants: a record says which steps a property of the node has to keep, and the
-- lemmas on `reconcile_peer_connections`, the handlers and the loop take it as a parameter;
-- Network/Unaffected is that of the properties that read the log of calls as well, or the settings.
-- Network/Announced is about the events that subscribers receive, Network/Provenance about the
-- addresses that are dialed, Network/Pair about two nodes, Network/Reservations and Network/InUse
-- about the relays, Network/Surplus about the connections that are closed, and Network/Settings about
-- the active mode.
--
-- A method on `&mut self` that may fail is a function from the state to an outcome and a state; at
-- a failure the state stays as it was changed so far. The calls of the swarm, of Kademlia and of the
-- channel of events are written into a log in the state, newest first. What they answer (whether a
-- dial is accepted, whether mDNS starts, whether an event has a receiver) is the parameter `Swarm`,
-- a function of the calls before.
--
-- Bounds and fuel. `reconcile_peer_connections` calls itself after a refused dial, and runs on fuel;
-- `unfinished` is the outcome where the fuel does not reach. `prune_relays` runs on as much fuel as
-- there are reservations: each round removes one. Instants and durations are nanoseconds in ℕ;
-- `err_count` is a `u32` and saturates. A handler reads the clock once, where the code reads it at
-- each comparison. A `HashSet` is a list without duplicates, and nothing is said of its order.
--
-- In src/main.rs the handle is the only sender of requests. A call of it first lets the event loop
-- take the turns that a `Schedule` gives for the time before the call, and then finds the loop
-- running, stopped or in a handler that does not return. The ten seconds in which `main` prints the
-- events are a step without a request.
--
-- Not modelled: the swarm, its behaviours and the builder of the swarm, the channels, the hash and
-- the RSA keys, which are of other crates and stand as parameters (`Swarm`, `Platform`, `Crypto`);
-- the environment variables; the time that the program sleeps; the tests that run RSA or several
-- nodes; the printing everywhere.
pub mod Base
pub mod Libp2p
pub mod Keygen
pub mod View
pub mod Relay
pub mod Network
pub mod Main
pub mod Tests
