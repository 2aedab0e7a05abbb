-- ===== src/Network/Handle.antt =====
-- src/network/handle.rs: the handle of the network, and what becomes of its task.
use saved.Base.{Option, none, some, List, [], ◌∷◌, if◌then◌else◌}
use saved.Libp2p.{Libp2p, PeerId}
use saved.Network.State.{SavedError, Outcome, ok, err}
use saved.Network.External.{Platform}

module _ ⦃L : Libp2p⦄ ⦃T : Platform⦄ where
  -- The two channels are the requests and the replies of the RPC, and the log of events.
  pub record SavedHandle : Type 0 where
    pub id : PeerId
    pub task_handle : Option T.JoinHandle

  -- What is done with a task.
  pub data TaskCall : Type 0 where
    awaits aborts : T.JoinHandle → TaskCall

  -- `self.task_handle.take()`.
  unfoldable pub take_task : SavedHandle → Option T.JoinHandle × SavedHandle
  take_task handle = (handle.task_handle, record handle { task_handle = none })

  -- `Drop for SavedHandle`.
  unfoldable pub drop : SavedHandle → List TaskCall
  drop handle =
      let (taken, rest) = take_task handle in
      elim taken [ some task ↦ aborts task ∷ [] | none ↦ [] ]

  -- `join` owns the handle, which is dropped when the method returns, also by the `?`.
  unfoldable pub join : SavedHandle → Outcome (Unit {0}) × List TaskCall
  join handle =
      let (taken, rest) = take_task handle in
      elim taken [
        | some task ↦
            (if T.join_ok task then ok tt else err SavedError.join, awaits task ∷ drop rest)
        | none ↦ (ok tt, drop rest)
      ]
