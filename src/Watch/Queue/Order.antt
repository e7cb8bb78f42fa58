-- ===== src/Watch/Queue/Order.antt =====
-- moq-transport/src/watch/queue.rs: items leave in the order in which they came, none lost and none
-- twice, until a side is gone.
use linode_moq.Prelude.{
  ℕ, ◌≡◌, refl, List, [], ◌∷◌, ◌++◌, Option, none, some, arith, append_assoc, append-nil, sym, ap,
  ◌∙◌,
}
use linode_moq.Coding.Outcome.{err}
use linode_moq.Watch.State.{
  StateInner, lock_mut, commit, notify, state_drop, modified, returned, awaiting, Round,
}
use linode_moq.Watch.State.Handles.{drop_handle}
use linode_moq.Watch.Queue.{push, pop_round, pop_locked, pop_front, close}

-- A call on the queue: a push, or a round of a pop.
pub data Call (T : Type 0) : Type 0 where
  pushing : T → Call T
  popping : Call T

module _ {T : Type 0} where
  -- What a round of a pop takes out.
  abbrev pub taken : Round (Option T) → List T
  taken (returned (some x)) = x ∷ []
  taken (returned none) = []
  taken (awaiting c) = []

  -- The calls one after the other: what came out, and the state behind them.
  unfoldable pub calls : List (Call T) → StateInner (List T) → List T × StateInner (List T)
  calls [] s = ([], s)
  calls (pushing x ∷ cs) s = calls cs (push x s).1
  calls (popping ∷ cs) s =
      let (out, end) = calls cs (pop_round s).1 in (taken (pop_round s).0 ++ out, end)

  -- What the calls push.
  unfoldable pub pushed : List (Call T) → List T
  pushed [] = []
  pushed (pushing x ∷ cs) = x ∷ pushed cs
  pushed (popping ∷ cs) = pushed cs

  abbrev pub IsLive : StateInner (List T) → Type 0
  IsLive s = lock_mut s ≡ some s.value

  push-IsLive :
      (x : T) (s : StateInner (List T))
      → IsLive s
      → IsLive (push x s).1 × ((push x s).1.value ≡ s.value ++ (x ∷ []))
  unfolding push lock_mut commit notify
  push-IsLive x s h = ground arith

  pop_round-IsLive :
      (s : StateInner (List T))
      → IsLive s
      → let (round, s') = pop_round s in IsLive s' × (s.value ≡ taken round ++ s'.value)
  unfolding pop_round pop_locked pop_front lock_mut commit notify modified
  pop_round-IsLive s h = ground arith

  calls-IsLive :
      (cs : List (Call T)) (s : StateInner (List T))
      → IsLive s
      → let (out, s') = calls cs s in IsLive s' × (out ++ s'.value ≡ s.value ++ pushed cs)
  unfolding calls pushed
  calls-IsLive [] s h = (h, sym (append-nil s.value))
  calls-IsLive (pushing x ∷ cs) s h =
      let (live, e) = push-IsLive x s h in
      let (ih, p) = calls-IsLive cs (push x s).1 live in
      (ih, p ∙ ap (λ l. l ++ pushed cs) e ∙ append_assoc s.value (x ∷ []) (pushed cs))
  calls-IsLive (popping ∷ cs) s h =
      let (live, e) = pop_round-IsLive s h in
      let (ih, p) = calls-IsLive cs (pop_round s).1 live in
      let front = taken (pop_round s).0 in
      (
        ih,
        append_assoc front (calls cs (pop_round s).1).0 (calls cs (pop_round s).1).1.value
            ∙ ap (λ l. front ++ l) p
            ∙ sym (append_assoc front (pop_round s).1.value (pushed cs))
            ∙ ap (λ l. l ++ pushed cs) (sym e),
      )

  close-drains : (n : ℕ) (s : StateInner (List T)) → IsLive s → (close n s).0 ≡ s.value
  unfolding close lock_mut
  close-drains n s h = ground arith

  -- On a queue both sides of which are there, whatever is pushed and popped, in whatever order: what
  -- the pops took, followed by what a `close` at the end drains, is what the queue held at first
  -- followed by what was pushed.
  pub calls-close :
      (n : ℕ) (cs : List (Call T)) (s : StateInner (List T))
      → IsLive s
      → let (out, s') = calls cs s in out ++ (close n s').0 ≡ s.value ++ pushed cs
  calls-close n cs s h =
      let (live, e) = calls-IsLive cs s h in
      ap (λ l. (calls cs s).0 ++ l) (close-drains n (calls cs s).1 live) ∙ e

  drop_handle-last :
      (s : StateInner (List T))
      → (lock_mut (drop_handle 1 s) ≡ none) × ((drop_handle 1 s).value ≡ s.value)
  unfolding drop_handle state_drop notify lock_mut
  drop_handle-last s = (refl, refl)

  -- A call on a queue of which one side has gone.
  push-gone : (x : T) (s : StateInner (List T)) → lock_mut s ≡ none → push x s ≡ (err x, s)
  unfolding push lock_mut
  push-gone x s h = ground arith

  pop_round-gone : (s : StateInner (List T)) → lock_mut s ≡ none → pop_round s ≡ (returned none, s)
  unfolding pop_round pop_locked modified lock_mut
  pop_round-gone s h = ground arith

  calls-gone :
      (cs : List (Call T)) (s : StateInner (List T)) → lock_mut s ≡ none → calls cs s ≡ ([], s)
  unfolding calls
  calls-gone [] s h = refl
  calls-gone (pushing x ∷ cs) s h = rw (push-gone x s h) (calls-gone cs s h)
  calls-gone (popping ∷ cs) s h = rw (pop_round-gone s h, calls-gone cs s h) refl

  close-gone : (n : ℕ) (s : StateInner (List T)) → lock_mut s ≡ none → (close n s).0 ≡ []
  unfolding close lock_mut
  close-gone n s h = ground arith

  -- A queue with both its sides is pushed to and popped from, and then the last handle of one side is
  -- dropped. Whatever the other side calls from then on, no pop takes anything and a push hands its
  -- item back; and a `close` drains nothing. Yet the queue still holds all that was not popped before
  -- the drop: those items are lost.
  pub queue_dropped :
      (cs more : List (Call T)) (n : ℕ) (x : T) (s : StateInner (List T))
      → IsLive s
      → let (out, s') = calls cs s in
        let (out', s'') = calls more (drop_handle 1 s') in
        (out ++ s''.value ≡ s.value ++ pushed cs)
        × (out' ≡ [])
        × ((push x s'').0 ≡ err x)
        × ((close n s'').0 ≡ [])
  queue_dropped cs more n x s live =
      let (_, kept) = calls-IsLive cs s live in
      let s' : StateInner (List T) = (calls cs s).1 in
      let (gone, same) = drop_handle-last s' in
      let after = calls-gone more (drop_handle 1 s') gone in
      rw after (
        ap (λ l. (calls cs s).0 ++ l) same ∙ kept,
        refl,
        ap (λ p. p.0) (push-gone x (drop_handle 1 s') gone),
        close-gone n (drop_handle 1 s') gone,
      )
