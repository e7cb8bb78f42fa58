-- ===== src/Watch/State/Handles.antt =====
-- moq-transport/src/watch/state.rs: the handles of a state. The handles of one side share one
-- `StateDrop`, which is dropped with the last of them.
use linode_moq.Prelude.{ℕ, ◌+◌, ◌-◌, ◌<◌, ◌≡◌, none, some, Option, ◌==◌, if◌then◌else◌}
use linode_moq.Watch.State.{StateInner, inner_new, state_drop, lock_mut, commit}

-- A state that was split in two, and how many handles each side has, those in a `StateRef` or in a
-- `StateMut` included.
pub record Shared (T : Type 0) : Type 0 where
  pub inner : StateInner T
  pub first : ℕ
  pub second : ℕ

module _ {T : Type 0} where
  -- `State::new(v).split()`
  unfoldable pub new_split : T → Shared T
  unfolding inner_new
  new_split v = record { inner = inner_new v; first = 1; second = 1 }

  -- One of the `n` handles of a side is dropped, and the `StateDrop` with the last of them.
  unfoldable pub drop_handle : ℕ → StateInner T → StateInner T
  drop_handle n s = if n == 1 then state_drop s else s

-- `StateWeak::upgrade` to a side with `n` handles: how many it has then.
unfoldable pub upgrade : ℕ → Option ℕ
upgrade n = if n == 0 then none else some (n + 1)

-- What is done with the handles: a write through a `StateMut`, a clone, the upgrade of a weak handle,
-- and a drop, on either side.
pub data Step {T : Type 0} (a : Shared T) (b : Shared T) : Type 0 where
  write :
      (v w : T) → lock_mut a.inner ≡ some v → b ≡ record a { inner = commit w a.inner } → Step a b
  clone_first : 0 < a.first → b ≡ record a { first = a.first + 1 } → Step a b
  clone_second : 0 < a.second → b ≡ record a { second = a.second + 1 } → Step a b
  upgrade_first : (n : ℕ) → upgrade a.first ≡ some n → b ≡ record a { first = n } → Step a b
  upgrade_second : (n : ℕ) → upgrade a.second ≡ some n → b ≡ record a { second = n } → Step a b
  drop_first :
      0 < a.first
      → b ≡ record a { inner = drop_handle a.first a.inner; first = a.first - 1 }
      → Step a b
  drop_second :
      0 < a.second
      → b ≡ record a { inner = drop_handle a.second a.inner; second = a.second - 1 }
      → Step a b

pub data Reach {T : Type 0} (a : Shared T) : Shared T → Type 0 where
  here : Reach a a
  next : {b c : Shared T} → Reach a b → Step b c → Reach a c

module _ {T : Type 0} where
  -- Both sides are there as long as nothing was dropped.
  record IsCounted (a : Shared T) : Type 0 where
    live : 0 < a.first → 0 < a.second → a.inner.dropped ≡ some tt
    first_gone : a.first ≡ 0 → a.inner.dropped ≡ none
    second_gone : a.second ≡ 0 → a.inner.dropped ≡ none
