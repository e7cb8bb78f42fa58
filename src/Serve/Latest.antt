-- ===== src/Serve/Latest.antt =====
-- moq-transport/src/serve: the shape that the states of a track's subgroups, of its stream and of its
-- datagrams share. Only the latest value is kept, with a count of how often it changed.
use linode_moq.Prelude.{ℕ, Option, none, some}
use linode_moq.Coding.Outcome.{Outcome, ok, err}
use linode_moq.Watch.Word.{wrapping_incr}
use linode_moq.Watch.State.{
  StateInner, inner_new, lock_mut, commit, modified, Round, returned, awaiting,
}
use linode_moq.Serve.Error.{ServeError, cancel}

-- `closed` is `none` where the source has `Ok(())`.
pub record Latest (A : Type 0) : Type 0 where
  pub latest : Option A
  pub epoch : ℕ
  pub closed : Option ServeError

module _ {A : Type 0} where
  -- `State::default()`
  unfoldable pub latest_new : StateInner (Latest A)
  unfolding inner_new
  latest_new = inner_new (record { latest = none; epoch = 0; closed = none })

  -- `state.latest = Some(value); state.epoch += 1`
  unfoldable pub replaced : A → Latest A → Latest A
  replaced x l = record l { latest = some x; epoch = wrapping_incr l.epoch }

  unfoldable pub latest_close :
      ServeError → StateInner (Latest A) → Outcome ServeError (Unit {0}) × StateInner (Latest A)
  latest_close e s = elim s.value.closed [
    | some before ↦ (err before, s)
    | none ↦ elim (lock_mut s) [
      | none ↦ (err cancel, s)
      | some l ↦ (ok tt, commit (record l { closed = some e }) s)
    ]
  ]

  -- A round of a reader that finds nothing new: it ends, or waits.
  unfoldable pub latest_end : StateInner (Latest A) → Round (Outcome ServeError (Option A))
  latest_end s = elim s.value.closed [
    | some e ↦ returned (err e)
    | none ↦ elim (modified s) [ none ↦ returned (ok none) | some c ↦ awaiting c ]
  ]
