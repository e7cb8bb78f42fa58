-- ===== src/Serve/Log/Reading.antt =====
-- moq-transport/src/serve: what a reader of a log finds, and that `read_all` comes to an end.
use linode_moq.Prelude.{
  ℕ, suc, zero, ◌+◌, ◌≤◌, ◌<◌, ◌≡◌, refl, sym, ap, ◌∙◌, List, [], ◌∷◌, ◌++◌, none, some, arith,
  length, length-append, get_elem?-append, concat, replicate, All, front_cases, subst, lt→ltb, ltb,
  true, get_elem?, le→ltb, append_assoc, append-nil, inl, inr, ◌⊎◌,
}
use linode_moq.Coding.Outcome.{Outcome, ok, err}
use linode_moq.Watch.State.{
  StateInner, StateChanged, lock_mut, commit, notify, modified, returned, awaiting,
}
use linode_moq.Serve.Error.{ServeError}
use linode_moq.Serve.Log.{Log, log_push, log_end, log_next, log_read_all, indexed}

module _ {A : Type 0} where
  pub log_push-live :
      (x : A) (s : StateInner (Log A))
      → lock_mut s ≡ some s.value
      → log_push x s ≡ (ok tt, commit (record s.value { items = s.value.items ++ (x ∷ []) }) s)
  unfolding log_push
  log_push-live x s h = ground arith

  -- A reader at the end of a live list finds what is pushed next.
  pub log_next-log_push :
      (x : A) (index : ℕ) (s : StateInner (Log A))
      → lock_mut s ≡ some s.value
      → index ≡ length s.value.items
      → log_next index (log_push x s).1 ≡ (returned (ok (some x)), index + 1)
  unfolding log_next indexed commit notify
  log_next-log_push x index s live e =
      let items : List A = s.value.items in
      let inside : ltb index (length (items ++ (x ∷ []))) ≡ true =
        lt→ltb index (length (items ++ (x ∷ [])))
          (omega (arith, e, length-append items (x ∷ []))) in
      let found : get_elem? (items ++ (x ∷ [])) index ≡ some x =
        ap (get_elem? (items ++ (x ∷ []))) e ∙ get_elem?-append items [] x in
      rw (log_push-live x s live, inside, found) refl

  pub log_end-gone :
      (s : StateInner (Log A))
      → s.value.closed ≡ none
      → modified s ≡ none
      → log_end s ≡ returned (ok none)
  unfolding log_end
  log_end-gone s unclosed gone = ground arith

  pub log_push-items :
      (x : A) (s : StateInner (Log A))
      → let (result, s') = log_push x s in
        (s'.value.items ≡ s.value.items) ⊎ (s'.value.items ≡ s.value.items ++ (x ∷ []))
  unfolding log_push commit notify lock_mut
  log_push-items x s = ground arith

  pub log_push-closed :
      (x : A) (s : StateInner (Log A)) → (log_push x s).1.value.closed ≡ s.value.closed
  unfolding log_push commit notify lock_mut
  log_push-closed x s = ground arith

  pub log_next-item :
      (index : ℕ) (front back : List A) (x : A) (s : StateInner (Log A))
      → s.value.items ≡ front ++ (x ∷ back)
      → index ≡ length front
      → log_next index s ≡ (returned (ok (some x)), index + 1)
  unfolding log_next indexed
  log_next-item index front back x s e i =
      rw
        (
          lt→ltb index (length s.value.items)
              (omega (arith, ap length e, length-append front (x ∷ back))),
          e,
          i,
          get_elem?-append front back x,
        )
        refl

  pub log_next-end :
      (index : ℕ) (s : StateInner (Log A))
      → length s.value.items ≤ index
      → log_next index s ≡ (log_end s, index)
  unfolding log_next
  log_next-end index s h = rw (le→ltb index _ h) refl

-- What a reader of the whole log returns at its end.
unfoldable pub finished : StateInner (Log (List ℕ)) → Outcome ServeError (List ℕ)
finished s = elim s.value.closed [ some e ↦ err e | none ↦ ok (concat s.value.items) ]

-- A state that the writer still extends, towards `whole`.
abbrev pub IsPart : List (List ℕ) → StateInner (Log (List ℕ)) → Type 0
IsPart whole s =
    (s.value.closed ≡ none)
    × (lock_mut s ≡ some s.value)
    × ((rest : List (List ℕ)) × (whole ≡ s.value.items ++ rest))

log_end-live :
    (s : StateInner (Log (List ℕ)))
    → s.value.closed ≡ none
    → lock_mut s ≡ some s.value
    → (c : StateChanged) × (log_end s ≡ awaiting c)
unfolding log_end lock_mut modified
log_end-live s e h = (record { epoch = s.epoch }, ground arith)

log_read_all-wait :
    (index : ℕ) (chunks : List (List ℕ)) (s : StateInner (Log (List ℕ)))
    (later : List (StateInner (Log (List ℕ))))
    → s.value.closed ≡ none
    → lock_mut s ≡ some s.value
    → length s.value.items ≤ index
    → log_read_all (s ∷ later) index chunks ≡ log_read_all later index chunks
unfolding log_read_all
log_read_all-wait index chunks s later e h i =
    let (c, p) = log_end-live s e h in rw (log_next-end index s i, p) refl

log_read_all-item :
    (index : ℕ) (front back : List (List ℕ)) (c : List ℕ) (s : StateInner (Log (List ℕ)))
    (later : List (StateInner (Log (List ℕ))))
    → s.value.items ≡ front ++ (c ∷ back)
    → index ≡ length front
    → log_read_all (s ∷ later) index front ≡ log_read_all later (index + 1) (front ++ (c ∷ []))
unfolding log_read_all
log_read_all-item index front back c s later e i = rw (log_next-item index front back c s e i) refl

log_read_all-end :
    (index : ℕ) (s : StateInner (Log (List ℕ))) (later : List (StateInner (Log (List ℕ))))
    → lock_mut s ≡ none
    → index ≡ length s.value.items
    → log_read_all (s ∷ later) index s.value.items ≡ some (finished s)
unfolding log_read_all finished log_end modified lock_mut
log_read_all-end index s later h i = rw (log_next-end index s (omega (arith, i))) (ground arith)

read_rest :
    (early : List (StateInner (Log (List ℕ)))) (n index : ℕ) (last : StateInner (Log (List ℕ)))
    (front back : List (List ℕ))
    → last.value.items ≡ front ++ back
    → index ≡ length front
    → All (IsPart last.value.items) early
    → lock_mut last ≡ none
    → length back < n
    → log_read_all (early ++ replicate n last) index front ≡ some (finished last)
read_rest [] zero index last front back e i parts gone enough = absurd (omega arith)
read_rest [] (suc n) index last front [] e i parts gone enough =
    let p : last.value.items ≡ front = e ∙ append-nil front in
    subst (λ l. log_read_all (last ∷ replicate n last) index l ≡ some (finished last)) p
      (log_read_all-end index last (replicate n last) gone (i ∙ ap length (sym p)))
read_rest [] (suc n) index last front (c ∷ back) e i parts gone enough =
    log_read_all-item index front back c last (replicate n last) e i
    ∙ read_rest [] n (index + 1) last (front ++ (c ∷ [])) back
        (e ∙ sym (append_assoc front (c ∷ []) back))
        (omega (arith, i, length-append front (c ∷ []))) tt gone (omega arith)
read_rest (s ∷ early) n index last front back e i ((unclosed, live, (rest, grows)), parts) gone
      enough =
    elim (front_cases s.value.items rest front back (sym grows ∙ e)) [
      | inl (x, more, p) ↦
          log_read_all-wait index front s (early ++ replicate n last) unclosed live
            (omega (arith, i, ap length p, length-append s.value.items (x ∷ more)))
          ∙ read_rest early n index last front back e i parts gone enough
      | inr ([], p, q) ↦
          log_read_all-wait index front s (early ++ replicate n last) unclosed live
            (omega (arith, i, ap length p, length-append front []))
          ∙ read_rest early n index last front back e i parts gone enough
      | inr (c ∷ r, p, q) ↦
          log_read_all-item index front r c s (early ++ replicate n last) p i
          ∙ read_rest early n (index + 1) last (front ++ (c ∷ [])) (r ++ rest)
              (e ∙ ap (λ l. front ++ l) (sym q) ∙ sym (append_assoc front (c ∷ []) (r ++ rest)))
              (omega (arith, i, length-append front (c ∷ []))) parts gone
              (omega (arith, ap length q))
    ]

-- A reader that looks at a log while it is written, at whatever moments, and then often enough after
-- the writer is gone, returns: all chunks in the order in which they were written, or the error that
-- the log was closed with.
pub log_read_all-finished :
    (early : List (StateInner (Log (List ℕ)))) (n : ℕ) (last : StateInner (Log (List ℕ)))
    → All (IsPart last.value.items) early
    → lock_mut last ≡ none
    → length last.value.items < n
    → log_read_all (early ++ replicate n last) 0 [] ≡ some (finished last)
log_read_all-finished early n last parts gone enough =
    read_rest early n 0 last [] last.value.items refl refl parts gone enough
