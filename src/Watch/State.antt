-- ===== src/Watch/State.antt =====
-- moq-transport/src/watch/state.rs: a value behind a lock, with an epoch and the wakers of those who
-- wait for its next change. Each definition is what one holder of the lock does.
pub mod Waiting
pub mod Handles
use linode_moq.Prelude.{
  ℕ, ◌+◌, List, [], ◌∷◌, ◌++◌, Option, none, some, ◌≡◌, ltb, ◌==◌, not, if◌then◌else◌,
}
use linode_moq.Watch.Word.{wrapping_incr}

-- A waker is a number, and two wakers that are equal wake the same task. `woken` logs the wakers on
-- which `wake` was called, in order. `dropped` is `some tt` for as long as both sides are there.
pub record StateInner (T : Type 0) : Type 0 where
  pub value : T
  pub wakers : List ℕ
  pub epoch : ℕ
  pub dropped : Option (Unit {0})
  pub woken : List ℕ

-- `wakers.retain(|existing| !existing.will_wake(waker))`
unfoldable pub retain_others : ℕ → List ℕ → List ℕ
retain_others w [] = []
retain_others w (x ∷ xs) = let rest = retain_others w xs in if x == w then rest else x ∷ rest

module _ {T : Type 0} where
  unfoldable pub inner_new : T → StateInner T
  inner_new v = record { value = v; wakers = []; epoch = 0; dropped = some tt; woken = [] }

  unfoldable pub register : ℕ → StateInner T → StateInner T
  register w s = record s { wakers = retain_others w s.wakers ++ (w ∷ []) }

  unfoldable pub notify : StateInner T → StateInner T
  notify s = record s { epoch = wrapping_incr s.epoch; wakers = []; woken = s.woken ++ s.wakers }

  -- `State::lock_mut` and `StateRef::into_mut`: the value, for as long as neither side has gone.
  unfoldable pub lock_mut : StateInner T → Option T
  lock_mut s = elim s.dropped [ none ↦ none | some _ ↦ some s.value ]

  -- What a `StateMut` leaves behind, which notifies as it goes out of scope.
  unfoldable pub commit : T → StateInner T → StateInner T
  unfolding notify
  commit v s = notify (record s { value = v })

  -- `StateDrop::drop`: the last handle of one side has gone.
  unfoldable pub state_drop : StateInner T → StateInner T
  unfolding notify
  state_drop s = notify (record s { dropped = none })

-- The epoch that a `StateChanged` has seen.
pub record StateChanged : Type 0 where
  pub epoch : ℕ

pub data Poll {ℓ} (A : Type ℓ) : Type ℓ where
  ready : A → Poll A
  pending : Poll A

module _ {T : Type 0} where
  -- `StateRef::modified`
  unfoldable pub modified : StateInner T → Option StateChanged
  modified s = elim s.dropped [ none ↦ none | some _ ↦ some (record { epoch = s.epoch }) ]

  -- `StateChanged::poll`, by the task of a waker.
  unfoldable pub changed_poll : StateChanged → ℕ → StateInner T → Poll (Unit {0}) × StateInner T
  unfolding register
  changed_poll c w s = if ltb c.epoch s.epoch then (ready tt, s) else (pending, register w s)

-- What one round of a loop that looks at a state comes to: the function returns, or it waits for
-- the next change before another round.
pub data Round {ℓ} (A : Type ℓ) : Type ℓ where
  returned : A → Round A
  awaiting : StateChanged → Round A
