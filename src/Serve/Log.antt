-- ===== src/Serve/Log.antt =====
-- moq-transport/src/serve: the shape that the states of groups and of objects share, a list that the
-- writer extends and that each reader walks with an index of its own, and a reason to be closed.
pub mod Reading
use linode_moq.Prelude.{
  ℕ, ◌+◌, List, [], ◌∷◌, ◌++◌, Option, none, some, ltb, length, get_elem?, concat, if◌then◌else◌,
}
use linode_moq.Coding.Outcome.{Outcome, ok, err, panic}
use linode_moq.Watch.State.{
  StateInner, inner_new, lock_mut, commit, modified, Round, returned, awaiting,
}
use linode_moq.Serve.Error.{ServeError, cancel}

-- `result?; Ok(a)`
abbrev pub then_ok : {A : Type 0} → A → Outcome ServeError (Unit {0}) → Outcome ServeError A
then_ok a (ok _) = ok a
then_ok a (err e) = err e
then_ok a panic = panic

-- `closed` is `none` where the source has `Ok(())`.
pub record Log (A : Type 0) : Type 0 where
  pub items : List A
  pub closed : Option ServeError

module _ {A : Type 0} where
  -- `State::default()`
  unfoldable pub log_new : StateInner (Log A)
  unfolding inner_new
  log_new = inner_new (record { items = []; closed = none })

  -- `lock_mut().ok_or(Cancel)?` and a push.
  unfoldable pub log_push :
      A → StateInner (Log A) → Outcome ServeError (Unit {0}) × StateInner (Log A)
  log_push x s = elim (lock_mut s) [
    | none ↦ (err cancel, s)
    | some log ↦ (ok tt, commit (record log { items = log.items ++ (x ∷ []) }) s)
  ]

  unfoldable pub log_close :
      ServeError → StateInner (Log A) → Outcome ServeError (Unit {0}) × StateInner (Log A)
  log_close e s = elim s.value.closed [
    | some before ↦ (err before, s)
    | none ↦ elim (lock_mut s) [
      | none ↦ (err cancel, s)
      | some log ↦ (ok tt, commit (record log { closed = some e }) s)
    ]
  ]

  -- `items[index]`, which panics out of range.
  unfoldable pub indexed : Option A → Outcome ServeError (Option A)
  indexed (some x) = ok (some x)
  indexed none = panic

  -- A round that finds nothing new: the reader ends, or waits.
  unfoldable pub log_end : StateInner (Log A) → Round (Outcome ServeError (Option A))
  log_end s = elim s.value.closed [
    | some e ↦ returned (err e)
    | none ↦ elim (modified s) [ none ↦ returned (ok none) | some c ↦ awaiting c ]
  ]

  -- A round of a reader's loop at an index, and its index from then on.
  unfoldable pub log_next : ℕ → StateInner (Log A) → Round (Outcome ServeError (Option A)) × ℕ
  unfolding indexed log_end
  log_next index s =
      if ltb index (length s.value.items)
      then (returned (indexed (get_elem? s.value.items index)), index + 1)
      else (log_end s, index)

-- What the loop of `read_all` does with the result of a `read`, or a round of it, and the index
-- behind it: `again` is the rest of the loop.
abbrev pub after_read :
    (ℕ → List (List ℕ) → Option (Outcome ServeError (List ℕ)))
    → List (List ℕ)
    → Round (Outcome ServeError (Option (List ℕ))) × ℕ
    → Option (Outcome ServeError (List ℕ))
after_read again chunks (returned (ok (some chunk)), index) = again index (chunks ++ (chunk ∷ []))
after_read again chunks (returned (ok none), index) = some (ok (concat chunks))
after_read again chunks (returned (err e), index) = some (err e)
after_read again chunks (returned panic, index) = some panic
after_read again chunks (awaiting c, index) = again index chunks

-- `read_all`, on the states that it finds at each of its locks, in order. `none`: it has not
-- returned by the last of them.
unfoldable pub log_read_all :
    List (StateInner (Log (List ℕ))) → ℕ → List (List ℕ) → Option (Outcome ServeError (List ℕ))
log_read_all [] index chunks = none
log_read_all (s ∷ later) index chunks = after_read (log_read_all later) chunks (log_next index s)

-- What a loop does with a round of it and the reader behind it: `again` is the rest of the loop.
abbrev pub after_round : {R S : Type 0} → (S → Option R × S) → Round R × S → Option R × S
after_round again (returned result, reader) = (some result, reader)
after_round again (awaiting c, reader) = again reader

-- `Ok(Some(object.read_all().await?))`
abbrev pub payload_of :
    Option (Outcome ServeError (List ℕ)) → Option (Outcome ServeError (Option (List ℕ)))
payload_of none = none
payload_of (some (ok payload)) = some (ok (some payload))
payload_of (some (err e)) = some (err e)
payload_of (some panic) = some panic

-- `read_next`, behind its `next`: the object that was found is read to its end.
abbrev pub read_found :
    {A : Type 0}
    → (A → Option (Outcome ServeError (List ℕ)))
    → Option (Outcome ServeError (Option A))
    → Option (Outcome ServeError (Option (List ℕ)))
read_found read none = none
read_found read (some (ok (some object))) = payload_of (read object)
read_found read (some (ok none)) = some (ok none)
read_found read (some (err e)) = some (err e)
read_found read (some panic) = some panic
