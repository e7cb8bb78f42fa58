-- ===== src/Serve/Objects/OneGroup.antt =====
-- moq-transport/src/serve/object.rs: the objects that a track keeps are of one group, the newest.
use linode_moq.Prelude.{
  ℕ, ◌<◌, ◌≤◌, ◌≡◌, refl, List, [], ◌∷◌, ◌++◌, some, arith, All, Any, All-append, ◌⊎◌, inl, inr,
  sym, ◌∙◌, subst,
}
use linode_moq.Watch.State.{StateInner, inner_new, lock_mut, commit, notify}
use linode_moq.Serve.Info.{Track, Object}
use linode_moq.Serve.Objects.{
  ObjectsState, ObjectsWriter, objects_create, objects_produce, add_object, or_same, object_info,
}
use linode_moq.Serve.Objects.Chunks.{ObjectReader, object_produce}

-- Objects, each with the address of its state, created one after the other.
unfoldable pub add_all :
    List (ℕ × Object) → ObjectsWriter → StateInner ObjectsState → StateInner ObjectsState
add_all [] w s = s
add_all ((address, o) ∷ os) w s = add_all os w (objects_create address o w s).1

-- All objects are of a group, of which there is at least one.
abbrev pub OfGroup : ℕ → List ObjectReader → Type 0
OfGroup g [] = ⊥
OfGroup g (o ∷ os) = All (λ p. p.info.group_id ≡ g) (o ∷ os)

-- The reader of a new object.
abbrev pub reader_of : ℕ → Object → ObjectsWriter → ObjectReader
reader_of address o w = record { state = address; info = object_info w.track o; index = 0 }

module _ (reader first : ObjectReader) (rest : List ObjectReader) (state : ObjectsState) where
  add-older :
      state.objects ≡ first ∷ rest
      → reader.info.group_id < first.info.group_id
      → (or_same state (add_object reader state).0).objects ≡ first ∷ rest
  unfolding add_object
  add-older e h = ground arith

  add-same :
      state.objects ≡ first ∷ rest
      → reader.info.group_id ≡ first.info.group_id
      → (or_same state (add_object reader state).0).objects ≡ first ∷ (rest ++ (reader ∷ []))
  unfolding add_object
  add-same e h = ground arith

  add-newer :
      state.objects ≡ first ∷ rest
      → first.info.group_id < reader.info.group_id
      → (or_same state (add_object reader state).0).objects ≡ reader ∷ []
  unfolding add_object
  add-newer e h = ground arith

order_cases : (a b : ℕ) → (a < b) ⊎ (a ≡ b) ⊎ (b < a)
order_cases a b = ground arith

-- The group of the objects moves on to the newer of its own and that of the object that is added.
abbrev Advances : ObjectReader → ℕ → List ObjectReader → Type 0
Advances reader g objects =
    (g' : ℕ) × OfGroup g' objects
    × (g ≤ g')
    × (reader.info.group_id ≤ g')
    × ((g' ≡ g) ⊎ (g' ≡ reader.info.group_id))

add-OfGroup :
    (reader : ObjectReader) (state : ObjectsState) (objects : List ObjectReader) (g : ℕ)
    → state.objects ≡ objects
    → OfGroup g objects
    → Advances reader g (or_same state (add_object reader state).0).objects
add-OfGroup reader state [] g e h = absurd h
add-OfGroup reader state (first ∷ rest) g e (at, all) =
    elim (order_cases reader.info.group_id first.info.group_id) [
      | inl older ↦
          subst (Advances reader g) (sym (add-older reader first rest state e older))
            (g, (at, all), omega arith, omega arith, inl refl)
      | inr (inl same) ↦ subst (Advances reader g) (sym (add-same reader first rest state e same)) (
        g,
        (at, All-append (λ p. p.info.group_id ≡ g) rest (reader ∷ []) all (same ∙ at, tt)),
        omega arith,
        omega arith,
        inl refl,
      )
      | inr (inr newer) ↦
          subst (Advances reader g) (sym (add-newer reader first rest state e newer))
            (reader.info.group_id, (refl, tt), omega arith, omega arith, inr refl)
    ]

-- What a creation leaves of a live state.
pub create-value :
    (address : ℕ) (o : Object) (w : ObjectsWriter) (s : StateInner ObjectsState)
    → lock_mut s ≡ some s.value
    → let s' = (objects_create address o w s).1 in
      (lock_mut s' ≡ some s'.value)
      × (s'.value ≡ or_same s.value (add_object (reader_of address o w) s.value).0)
unfolding objects_create object_produce commit notify lock_mut
create-value address o w s live = ground arith

which_group :
    (os : List (ℕ × Object)) (address : ℕ) (o : Object) (g g1 g2 : ℕ)
    → (g1 ≡ g) ⊎ (g1 ≡ o.group_id)
    → (g2 ≡ g1) ⊎ Any (λ p. p.1.group_id ≡ g2) os
    → (g2 ≡ g) ⊎ Any (λ p. p.1.group_id ≡ g2) ((address, o) ∷ os)
which_group os address o g g1 g2 which (inr any) = inr (inr any)
which_group os address o g g1 g2 (inl e) (inl e') = inl (e' ∙ e)
which_group os address o g g1 g2 (inr e) (inl e') = inr (inl (omega arith))

or_first :
    (os : List (ℕ × Object)) (address : ℕ) (o : Object) (g : ℕ)
    → (g ≡ o.group_id) ⊎ Any (λ p. p.1.group_id ≡ g) os
    → Any (λ p. p.1.group_id ≡ g) ((address, o) ∷ os)
or_first os address o g (inl e) = inl (sym e)
or_first os address o g (inr any) = inr any

add_all-OfGroup :
    (os : List (ℕ × Object)) (w : ObjectsWriter) (s : StateInner ObjectsState) (g : ℕ)
    → lock_mut s ≡ some s.value
    → OfGroup g s.value.objects
    → (g' : ℕ) × OfGroup g' (add_all os w s).value.objects
      × (g ≤ g')
      × All (λ o. o.1.group_id ≤ g') os
      × ((g' ≡ g) ⊎ Any (λ o. o.1.group_id ≡ g') os)
unfolding add_all object_info
add_all-OfGroup [] w s g live h = (g, h, omega arith, tt, inl refl)
add_all-OfGroup ((address, o) ∷ os) w s g live h =
    let s' : StateInner ObjectsState = (objects_create address o w s).1 in
    let (live', e) = create-value address o w s live in
    let (g1, h1, up, reached, which) =
      add-OfGroup (reader_of address o w) s.value s.value.objects g refl h in
    let (g2, h2, up', all, which') =
      add_all-OfGroup os w s' g1 live' (subst (λ v. OfGroup g1 v.objects) (sym e) h1) in
    (g2, h2, omega arith, (omega arith, all), which_group os address o g g1 g2 which which')

-- However objects are created on a fresh track, in whatever order of their groups, the objects that it
-- keeps are all of one group, the newest of those of the created objects.
pub add_all-newest :
    (track : Track) (address : ℕ) (o : Object) (os : List (ℕ × Object))
    → let (w, _, s) = objects_produce track in
      (g : ℕ) × OfGroup g (add_all ((address, o) ∷ os) w s).value.objects
      × All (λ p. p.1.group_id ≤ g) ((address, o) ∷ os)
      × Any (λ p. p.1.group_id ≡ g) ((address, o) ∷ os)
unfolding add_all objects_produce objects_create object_produce add_object commit notify lock_mut
    object_info inner_new
add_all-newest track address o os =
    let (w, _, s) = objects_produce track in
    let (g, h, up, all, which) =
      add_all-OfGroup os w (objects_create address o w s).1 o.group_id refl (refl, tt) in
    (g, h, (up, all), or_first os address o g which)
