-- ===== src/Tests/Watch.antt =====
-- Concrete states with those who wait for them, and queues.
use linode_moq.Prelude.{ℕ, ◌≡◌, refl, List, [], ◌∷◌, ◌++◌, some, arith, ◌⊎◌, inl, inr, ◌-◌}
use linode_moq.Coding.Outcome.{err}
use linode_moq.Watch.State.{StateInner, lock_mut, modified, changed_poll, ready}
use linode_moq.Watch.State.Waiting.{Event, written, polled, events, IsWoken, changed_poll-change}
use linode_moq.Watch.State.Handles.{Shared, new_split, drop_handle}
use linode_moq.Watch.Queue.{push, close}
use linode_moq.Watch.Queue.Order.{Call, pushing, popping, calls, pushed, calls-close, queue_dropped}

-- Nobody has changed the state yet.
abbrev unchanged : StateInner ℕ
unchanged = record { value = 0; wakers = []; epoch = 0; dropped = some tt; woken = [] }

-- Two other tasks wait for the same change.
abbrev early : List (Event ℕ)
early = polled (record { epoch = 0 }) 5 ∷ []

abbrev late : List (Event ℕ)
late = polled (record { epoch = 0 }) 6 ∷ written 7 ∷ []

changed_poll-change_example :
    let (poll, s') = changed_poll (record { epoch = 0 }) 1 (events early unchanged) in
    (poll ≡ ready tt) ⊎ IsWoken 1 s' (events late s')
unfolding modified
changed_poll-change_example =
    changed_poll-change 1 early late unchanged {c = record { epoch = 0 }} refl (omega arith)
      (inr (inr (inl tt)))

-- One side of a split state is dropped.
abbrev half : Shared ℕ
half =
    let whole : Shared ℕ = new_split 5 in
    record whole { inner = drop_handle whole.first whole.inner; first = whole.first - 1 }

abbrev empty_queue : StateInner (List ℕ)
empty_queue = record { value = []; wakers = []; epoch = 0; dropped = some tt; woken = [] }

abbrev some_calls : List (Call ℕ)
some_calls = pushing 1 ∷ pushing 2 ∷ popping ∷ pushing 3 ∷ []

calls-close_example :
    let (out, s') = calls some_calls empty_queue in out ++ (close 1 s').0 ≡ [] ++ pushed some_calls
unfolding lock_mut
calls-close_example = calls-close 1 some_calls empty_queue refl

-- The other side goes, and then calls are made.
queue_dropped_example :
    let (out, s') = calls some_calls empty_queue in
    let (out', s'') = calls (popping ∷ pushing 8 ∷ []) (drop_handle 1 s') in
    (out ++ s''.value ≡ [] ++ pushed some_calls)
    × (out' ≡ [])
    × ((push 9 s'').0 ≡ err 9)
    × ((close 1 s'').0 ≡ [])
unfolding lock_mut
queue_dropped_example = queue_dropped some_calls (popping ∷ pushing 8 ∷ []) 1 9 empty_queue refl
