-- ===== src/Watch/Queue.antt =====
-- moq-transport/src/watch/queue.rs: a queue in a shared state.
pub mod Order
use linode_moq.Prelude.{ℕ, List, [], ◌∷◌, ◌++◌, Option, none, some}
use linode_moq.Coding.Outcome.{Outcome, ok, err}
use linode_moq.Watch.State.{
  StateInner, inner_new, lock_mut, commit, modified, Round, returned, awaiting,
}
use linode_moq.Watch.State.Handles.{Shared, new_split, drop_handle}

module _ {T : Type 0} where
  -- `VecDeque::pop_front`
  unfoldable pub pop_front : List T → Option T × List T
  pop_front [] = (none, [])
  pop_front (x ∷ xs) = (some x, xs)

  -- `Queue::default().split()`
  unfoldable pub queue_new : Shared (List T)
  queue_new = new_split []

  -- An item that the queue does not take comes back as the error.
  unfoldable pub push : T → StateInner (List T) → Outcome T (Unit {0}) × StateInner (List T)
  push item s = elim (lock_mut s) [
    | none ↦ (err item, s)
    | some queue ↦ (ok tt, commit (queue ++ (item ∷ [])) s)
  ]

  -- `queue.into_mut()?.pop_front()`
  unfoldable pub pop_locked : StateInner (List T) → Option T × StateInner (List T)
  unfolding pop_front
  pop_locked s = elim (lock_mut s) [
    | none ↦ (none, s)
    | some queue ↦ let (item, rest) = pop_front queue in (item, commit rest s)
  ]

  -- A round of the loop of `pop`.
  unfoldable pub pop_round : StateInner (List T) → Round (Option T) × StateInner (List T)
  unfolding pop_locked
  pop_round s = elim s.value [
    | [] ↦ elim (modified s) [ none ↦ (returned none, s) | some c ↦ (awaiting c, s) ]
    | _ ∷ _ ↦ let (item, s') = pop_locked s in (returned item, s')
  ]

  -- `Queue::close` by one of the `n` handles of its side, which goes with it.
  unfoldable pub close : ℕ → StateInner (List T) → List T × StateInner (List T)
  close n s = elim (lock_mut s) [
    | none ↦ ([], drop_handle n s)
    | some queue ↦ (queue, drop_handle n (commit [] s))
  ]
