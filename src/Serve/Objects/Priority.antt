-- ===== src/Serve/Objects/Priority.antt =====
-- moq-transport/src/serve/object.rs: the order in which a reader gets the objects that it has pending.
use linode_moq.Prelude.{
  ℕ, ◌+◌, ◌<◌, ◌≤◌, ◌≡◌, refl, List, [], ◌∷◌, ◌++◌, Option, none, some, arith, All, All-map, ◌⊎◌,
  inl, inr, true, false, ap, ◌∙◌, subst, Bool-cases, length,
}
use mathlib.Core.List.{Perm}
use mathlib.Core.List.Perm
use linode_moq.Coding.Outcome.{Outcome, ok, err}
use linode_moq.Watch.State.{StateInner, Round, lock_mut, modified, returned, awaiting}
use linode_moq.Serve.Error.{ServeError}
use linode_moq.Serve.Info.{Object}
use linode_moq.Serve.Objects.{
  ObjectsState, ObjectsWriter, ObjectsReader, objects_next, heap_pop, gathered, is_greater,
}
use linode_moq.Serve.Objects.Chunks.{ObjectReader, object_cmp}
use linode_moq.Serve.Objects.OneGroup.{add_all}
use linode_moq.Serve.Objects.Arrivals.{IsNew, add_all-Arrived, gathered-Arrived}

-- An object may be returned before another: its priority is a smaller number, or that is the same and
-- its group is newer, or that is the same as well and its id is not greater.
abbrev pub MayPrecede : ObjectReader → ObjectReader → Type 0
MayPrecede a b =
    (a.info.priority < b.info.priority)
    ⊎ ((a.info.priority ≡ b.info.priority)
        × ((b.info.group_id < a.info.group_id)
            ⊎ ((a.info.group_id ≡ b.info.group_id) × (a.info.object_id ≤ b.info.object_id))))

is_greater-MayPrecede : (a b : ObjectReader) → is_greater a b ≡ true → MayPrecede a b
unfolding is_greater object_cmp
is_greater-MayPrecede a b e = ground arith

not_greater-MayPrecede : (a b : ObjectReader) → is_greater a b ≡ false → MayPrecede b a
unfolding is_greater object_cmp
not_greater-MayPrecede a b e = ground arith

MayPrecede-trans : (a b c : ObjectReader) → MayPrecede a b → MayPrecede b c → MayPrecede a c
MayPrecede-trans a b c p q = ground arith

-- What a pop from a heap comes to: the object may precede all that are left, and together they are what
-- the heap held.
abbrev pub IsPopped : List ObjectReader → Option (ObjectReader × List ObjectReader) → Type 0
IsPopped heap none = heap ≡ []
IsPopped heap (some (m, rest)) = All (MayPrecede m) rest × Perm heap (m ∷ rest)

pop-single :
    (x : ObjectReader) (xs : List ObjectReader)
    → xs ≡ []
    → All (MayPrecede x) [] × Perm (x ∷ xs) (x ∷ [])
pop-single x xs e = (tt, subst (λ l. Perm (x ∷ xs) (x ∷ l)) e (Perm.refl (x ∷ xs)))

pop-other :
    (x m : ObjectReader) (xs rest : List ObjectReader)
    → MayPrecede m x
    → All (MayPrecede m) rest
    → Perm xs (m ∷ rest)
    → All (MayPrecede m) (x ∷ rest) × Perm (x ∷ xs) (m ∷ (x ∷ rest))
pop-other x m xs rest h all perm = ((h, all), Perm.trans (Perm.cons x perm) (Perm.swap m x rest))

pop-first :
    (x m : ObjectReader) (xs rest : List ObjectReader)
    → MayPrecede x m
    → All (MayPrecede m) rest
    → Perm xs (m ∷ rest)
    → All (MayPrecede x) (m ∷ rest)
pop-first x m xs rest h all perm =
    (h, All-map (MayPrecede m) (MayPrecede x) rest (λ r. MayPrecede-trans x m r h) all)

pop-cons :
    (x : ObjectReader) (xs : List ObjectReader) (popped : Option (ObjectReader × List ObjectReader))
    → heap_pop xs ≡ popped
    → IsPopped xs popped
    → IsPopped (x ∷ xs) (heap_pop (x ∷ xs))
unfolding heap_pop
pop-cons x xs none e h = rw (heap_pop, e) (pop-single x xs h)
pop-cons x xs (some (m, rest)) e (all, perm) = elim (Bool-cases (is_greater m x)) [
  | inl greater ↦
      rw (heap_pop, e, greater) (pop-other x m xs rest (is_greater-MayPrecede m x greater) all perm)
  | inr less ↦
      rw (heap_pop, e, less)
        (pop-first x m xs rest (not_greater-MayPrecede m x less) all perm, Perm.cons x perm)
]

heap_pop-IsPopped : (heap : List ObjectReader) → IsPopped heap (heap_pop heap)
unfolding heap_pop
heap_pop-IsPopped [] = refl
heap_pop-IsPopped (x ∷ xs) = pop-cons x xs (heap_pop xs) refl (heap_pop-IsPopped xs)

-- A round without an object to return, on a live track.
abbrev pub ending : Option ServeError → ℕ → Round (Outcome ServeError (Option ObjectReader))
ending (some e) epoch = returned (err e)
ending none epoch = awaiting (record { epoch = epoch })

-- What a reader comes to at a state, where it has the objects of a list to return: one that may precede
-- all others, which it keeps; or, where there are none, the error that the track is closed with, or a
-- wait for its next change.
abbrev pub Returns : List ObjectReader → ObjectsReader → StateInner ObjectsState → Type 0
Returns heap r s =
    ((o : ObjectReader) × (rest : List ObjectReader) × (objects_next r s
        ≡ (returned (ok (some o)), record r { epoch = s.value.epoch; pending = rest }))
      × All (MayPrecede o) rest
      × Perm heap (o ∷ rest))
    ⊎ ((heap ≡ [])
        × (objects_next r s
            ≡ (ending s.value.closed s.epoch, record r { epoch = s.value.epoch; pending = [] })))

end_state :
    (s : StateInner ObjectsState)
    → lock_mut s ≡ some s.value
    → (r : ObjectsReader)
    → Path
        (Round (Outcome ServeError (Option ObjectReader)) × ObjectsReader)
        (elim s.value.closed [
          | some e ↦ (returned (err e), r)
          | none ↦ elim (modified s) [ none ↦ (returned (ok none), r) | some c ↦ (awaiting c, r) ]
        ])
        (ending s.value.closed s.epoch, r)
unfolding modified lock_mut
end_state s live r = ground arith

end-round :
    (r : ObjectsReader) (s : StateInner ObjectsState) (heap : List ObjectReader)
    → lock_mut s ≡ some s.value
    → heap ≡ []
    → gathered r s.value ≡ record r { epoch = s.value.epoch; pending = heap }
    → objects_next r s
      ≡ (ending s.value.closed s.epoch, record r { epoch = s.value.epoch; pending = [] })
unfolding objects_next heap_pop modified lock_mut
end-round r s heap live none_left e =
    let at = e ∙ ap (λ l. record r { epoch = s.value.epoch; pending = l }) none_left in
    rw (objects_next, at)
      (end_state s live (gathered r s.value) ∙ ap (λ g. (ending s.value.closed s.epoch, g)) at)

which :
    {k k0 : List ObjectReader} {A B : Type 0}
    → ((k ≡ k0) × A) ⊎ ((k ≡ []) × B)
    → (k ≡ k0) ⊎ (k ≡ [])
which (inl h) = inl h.0
which (inr h) = inr h.0

next-popped :
    (r : ObjectsReader) (s : StateInner ObjectsState) (heap : List ObjectReader)
    (popped : Option (ObjectReader × List ObjectReader))
    → lock_mut s ≡ some s.value
    → gathered r s.value ≡ record r { epoch = s.value.epoch; pending = heap }
    → heap_pop heap ≡ popped
    → IsPopped heap popped
    → Returns heap r s
unfolding objects_next
next-popped r s heap (some (o, rest)) live e p (all, perm) = inl (
  o,
  rest,
  rw (objects_next, e, p) (ap (λ g. (returned (ok (some o)), record g { pending = rest })) e),
  all,
  perm,
)
next-popped r s heap none live e p h = inr (h, end-round r s heap live h e)

-- Objects are created on a live track, in whatever order of their groups, after a reader has looked at
-- it. The reader then holds what it had pending and, of the objects that the track still keeps, exactly
-- those that were created since. Of these it returns one that may precede all others, by priority
-- first, then by the newer group, then by the smaller id, and it keeps exactly the others; where there
-- are none it waits, or returns the error that the track is closed with. Fewer than 2^64 objects are
-- created.
pub objects_next-Returns :
    (os : List (ℕ × Object)) (w : ObjectsWriter) (r : ObjectsReader) (s : StateInner ObjectsState)
    → lock_mut s ≡ some s.value
    → r.epoch ≡ s.value.epoch
    → s.value.epoch + length os < 18446744073709551616
    → let s' = add_all os w s in
      (kept : List ObjectReader) × (fresh : List ObjectReader) × (s'.value.objects ≡ kept ++ fresh)
      × ((kept ≡ s.value.objects) ⊎ (kept ≡ []))
      × All (IsNew w os) fresh
      × Returns (r.pending ++ fresh) r s'
objects_next-Returns os w r s live seen small =
    let s' : StateInner ObjectsState = add_all os w s in
    let (live', a) = add_all-Arrived os w s live small in
    let heap : List ObjectReader = r.pending ++ a.fresh in
    (
      a.kept,
      a.fresh,
      a.objects,
      which a.epochs,
      a.new,
      next-popped r s' heap (heap_pop heap) live' (gathered-Arrived w os s.value s'.value r a seen)
          refl (heap_pop-IsPopped heap),
    )
