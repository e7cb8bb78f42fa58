-- ===== src/Watch/State/Waiting.antt =====
-- moq-transport/src/watch/state.rs: no change of a state is lost between the look at it and the wait
-- for its next change, whoever else waits for it.
use linode_moq.Prelude.{
  ℕ, ◌+◌, ◌<◌, ltb, length, false, ◌≡◌, refl, List, [], ◌∷◌, ◌++◌, some, arith, Any, ◌⊎◌, inl, inr,
  lt→ltb, le→ltb, ap, ◌∙◌, sym, append_assoc, append-nil, Bool-cases, ◌==◌,
}
use linode_moq.Watch.State.{
  StateInner, StateChanged, ready, pending, register, notify, commit, state_drop, modified,
  changed_poll, retain_others,
}

-- What others do to a state: a write, the drop of a side, and a poll of a task that waits for a change
-- as well, by what it has seen and by its waker.
pub data Event (T : Type 0) : Type 0 where
  written : T → Event T
  gone : Event T
  polled : StateChanged → ℕ → Event T

abbrev pub IsChange : {T : Type 0} → Event T → Type 0
IsChange (written v) = Unit
IsChange gone = Unit
IsChange (polled c w) = ⊥

-- A waker is among others.
abbrev pub Among : ℕ → List ℕ → Type 0
Among w = Any (λ x. x ≡ w)

Among-front : (w : ℕ) (xs ys : List ℕ) → Among w xs → Among w (xs ++ ys)
Among-front w [] ys h = absurd h
Among-front w (x ∷ xs) ys (inl e) = inl e
Among-front w (x ∷ xs) ys (inr h) = inr (Among-front w xs ys h)

Among-back : (w : ℕ) (xs ys : List ℕ) → Among w ys → Among w (xs ++ ys)
Among-back w [] ys h = h
Among-back w (x ∷ xs) ys h = inr (Among-back w xs ys h)

retained : (w v : ℕ) (xs : List ℕ) → (v == w) ≡ false → Among w xs → Among w (retain_others v xs)
unfolding retain_others
retained w v [] other h = absurd h
retained w v (x ∷ xs) other (inl e) = let kept : (x == v) ≡ false = ground arith in rw kept (inl e)
retained w v (x ∷ xs) other (inr h) = elim (Bool-cases (x == v)) [
  | inl same ↦ rw same (retained w v xs other h)
  | inr kept ↦ rw kept (inr (retained w v xs other h))
]

neither : {B : Type 0} → (B → ⊥) → ⊥ ⊎ B → ⊥
neither f (inl a) = a
neither f (inr b) = f b

only_after : {A B : Type 0} → (A → ⊥) → A ⊎ B → B
only_after f (inl a) = absurd (f a)
only_after f (inr b) = b

module _ {T : Type 0} where
  pub event : Event T → StateInner T → StateInner T
  event (written v) s = commit v s
  event gone s = state_drop s
  event (polled c w) s = (changed_poll c w s).1

  unfoldable pub events : List (Event T) → StateInner T → StateInner T
  events [] s = s
  events (e ∷ es) s = events es (event e s)

  -- The waker is called between two states.
  abbrev pub IsWoken : ℕ → StateInner T → StateInner T → Type 0
  IsWoken w s t = (called : List ℕ) × (t.woken ≡ s.woken ++ called) × Among w called

  -- A register keeps the wakers of the other tasks.
  register-Among : (w v : ℕ) (s : StateInner T) → Among w s.wakers → Among w (register v s).wakers
  unfolding register
  register-Among w v s h = elim (Bool-cases (v == w)) [
    | inl same ↦ Among-back w (retain_others v s.wakers) (v ∷ []) (inl (ground arith))
    | inr other ↦ Among-front w (retain_others v s.wakers) (v ∷ []) (retained w v s.wakers other h)
  ]

  registered_self : (w : ℕ) (s : StateInner T) → Among w (register w s).wakers
  unfolding register
  registered_self w s = Among-back w (retain_others w s.wakers) (w ∷ []) (inl refl)

  registered :
      (w v : ℕ) (s : StateInner T)
      → ((register v s).epoch ≡ s.epoch)
        × ((register v s).woken ≡ s.woken)
        × (Among w s.wakers → Among w (register v s).wakers)
  unfolding register
  registered w v s = (refl, refl, register-Among w v s)

  change-epoch :
      (e : Event T) (s : StateInner T)
      → IsChange e
      → s.epoch + 1 < 18446744073709551616
      → (event e s).epoch ≡ s.epoch + 1
  unfolding event commit state_drop notify
  change-epoch (written v) s i h = omega arith
  change-epoch gone s i h = omega arith
  change-epoch (polled c v) s i h = absurd i

  change-woken :
      (e : Event T) (s : StateInner T) → IsChange e → (event e s).woken ≡ s.woken ++ s.wakers
  unfolding event commit state_drop notify
  change-woken (written v) s i = refl
  change-woken gone s i = refl
  change-woken (polled c v) s i = absurd i

  poll-same :
      (w v : ℕ) (c : StateChanged) (s : StateInner T)
      → let s' = event (polled c v) s in
        (s'.epoch ≡ s.epoch) × (s'.woken ≡ s.woken) × (Among w s.wakers → Among w s'.wakers)
  unfolding event changed_poll
  poll-same w v c s = elim (Bool-cases (ltb c.epoch s.epoch)) [
    | inl late ↦ rw (event, late) (refl, refl, λ h. h)
    | inr early ↦ rw (event, early) (registered w v s)
  ]

  grown :
      (es : List (Event T)) (s : StateInner T) (before : ℕ)
      → s.epoch ≡ before + 1
      → (s.epoch < (events es s).epoch) ⊎ (((events es s).epoch ≡ s.epoch) × (Any IsChange es → ⊥))
      → before < (events es s).epoch
  grown es s before e (inl later) = omega arith
  grown es s before e (inr (same, _)) = omega arith

  unchanged :
      (c : StateChanged) (v : ℕ) (es : List (Event T)) (s : StateInner T)
      → (event (polled c v) s).epoch ≡ s.epoch
      → let s' = event (polled c v) s in
        (s'.epoch < (events es s').epoch)
          ⊎ (((events es s').epoch ≡ s'.epoch) × (Any IsChange es → ⊥))
        → (s.epoch < (events es s').epoch)
          ⊎ (((events es s').epoch ≡ s.epoch) × (Any IsChange (polled c v ∷ es) → ⊥))
  unchanged c v es s e (inl later) = inl (omega arith)
  unchanged c v es s e (inr (same, no_change)) = inr (same ∙ e, neither no_change)

  event-woken :
      (e : Event T) (s : StateInner T) → (called : List ℕ) × ((event e s).woken ≡ s.woken ++ called)
  event-woken (written v) s = (s.wakers, change-woken (written v) s tt)
  event-woken gone s = (s.wakers, change-woken gone s tt)
  event-woken (polled c v) s = ([], (poll-same v v c s).1 ∙ sym (append-nil s.woken))

  -- Before the poll: the epoch has grown, or nothing has changed.
  events-epoch :
      (es : List (Event T)) (s : StateInner T)
      → s.epoch + length es < 18446744073709551616
      → (s.epoch < (events es s).epoch) ⊎ (((events es s).epoch ≡ s.epoch) × (Any IsChange es → ⊥))
  unfolding events
  events-epoch [] s h = inr (refl, λ a. a)
  events-epoch (written v ∷ es) s h =
      let e = (change-epoch (written v) s tt (omega arith)) in
      inl (grown es (event (written v) s) s.epoch e (events-epoch es _ (omega (arith, e))))
  events-epoch (gone ∷ es) s h =
      let e = (change-epoch gone s tt (omega arith)) in
      inl (grown es (event gone s) s.epoch e (events-epoch es _ (omega (arith, e))))
  events-epoch (polled c v ∷ es) s h =
      let (e, _, _) = poll-same v v c s in
      unchanged c v es s e (events-epoch es (event (polled c v) s) (omega (arith, e)))

  -- Wakers are only called more.
  events-woken :
      (es : List (Event T)) (s : StateInner T)
      → (called : List ℕ) × ((events es s).woken ≡ s.woken ++ called)
  unfolding events
  events-woken [] s = ([], sym (append-nil s.woken))
  events-woken (e ∷ es) s =
      let (first, p) = event-woken e s in
      let (rest, q) = events-woken es (event e s) in
      (first ++ rest, q ∙ ap (λ l. l ++ rest) p ∙ append_assoc s.woken first rest)

  change-IsWoken :
      (w : ℕ) (e : Event T) (es : List (Event T)) (s : StateInner T)
      → Among w s.wakers
      → IsChange e
      → IsWoken w s (events es (event e s))
  change-IsWoken w e es s h i =
      let (rest, q) = events-woken es (event e s) in
      (
        s.wakers ++ rest,
        q ∙ ap (λ l. l ++ rest) (change-woken e s i) ∙ append_assoc s.woken s.wakers rest,
        Among-front w s.wakers rest h,
      )

  -- Behind the poll: a waker that is registered is called by the next change.
  waiting-IsWoken :
      (w : ℕ) (es : List (Event T)) (s : StateInner T)
      → Among w s.wakers
      → Any IsChange es
      → IsWoken w s (events es s)
  unfolding events
  waiting-IsWoken w [] s h i = absurd i
  waiting-IsWoken w (e ∷ es) s h (inl i) = change-IsWoken w e es s h i
  waiting-IsWoken w (polled c v ∷ es) s h (inr i) =
      let (_, same, kept) = poll-same w v c s in
      let (called, q, among) = waiting-IsWoken w es (event (polled c v) s) (kept h) i in
      (called, q ∙ ap (λ l. l ++ called) same, among)
  waiting-IsWoken w (written v ∷ es) s h (inr i) = change-IsWoken w (written v) es s h tt
  waiting-IsWoken w (gone ∷ es) s h (inr i) = change-IsWoken w gone es s h tt

  modified-epoch : (s : StateInner T) {c : StateChanged} → modified s ≡ some c → c.epoch ≡ s.epoch
  unfolding modified
  modified-epoch s h = ground arith

  changed_poll-ready :
      (c : StateChanged) (w : ℕ) (s : StateInner T)
      → c.epoch < s.epoch
      → changed_poll c w s ≡ (ready tt, s)
  unfolding changed_poll
  changed_poll-ready c w s h = rw (lt→ltb _ _ h)

  changed_poll-pending :
      (c : StateChanged) (w : ℕ) (s : StateInner T)
      → c.epoch ≡ s.epoch
      → changed_poll c w s ≡ (pending, register w s)
  unfolding changed_poll
  changed_poll-pending c w s h = rw (le→ltb c.epoch s.epoch (omega arith))

  -- A task that looked at a live state waits for its next change, while other tasks write the state,
  -- drop a side of it, and wait for its changes as well. Whether a change comes before the task polls,
  -- or after it, the task goes on: the poll is ready, or the waker that it registered is called after
  -- it. Fewer than 2^64 of those events come before the poll.
  pub changed_poll-change :
      (w : ℕ) (before after : List (Event T)) (s : StateInner T) {c : StateChanged}
      → modified s ≡ some c
      → s.epoch + length before < 18446744073709551616
      → Any IsChange before ⊎ Any IsChange after
      → let (poll, s') = changed_poll c w (events before s) in
        (poll ≡ ready tt) ⊎ IsWoken w s' (events after s')
  changed_poll-change w before after s {c} h bound some_change =
      elim (events-epoch before s bound) [
        | inl later ↦
            rw (changed_poll-ready c w (events before s) (omega (arith, modified-epoch s h, later)))
              (inl refl)
        | inr (same, none_before) ↦
            rw (changed_poll-pending c w (events before s) (modified-epoch s h ∙ sym same)) (
              inr (
                waiting-IsWoken w after (register w (events before s))
                  (registered_self w (events before s)) (only_after none_before some_change)))
      ]
