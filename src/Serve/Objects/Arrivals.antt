-- ===== src/Serve/Objects/Arrivals.antt =====
-- moq-transport/src/serve/object.rs: which objects of a track are new to a reader.
use linode_moq.Prelude.{
  ℕ, ◌+◌, ◌-◌, ◌<◌, ◌≤◌, ◌≡◌, refl, List, [], ◌∷◌, ◌++◌, some, arith, All, All-map, All-append, Any,
  ◌⊎◌, inl, inr, sym, ap, ◌∙◌, subst, append-nil, append_assoc, length, length-append,
  drop-length-append, ltb, Bool-cases,
}
use linode_moq.Watch.State.{StateInner, lock_mut}
use linode_moq.Serve.Info.{Object}
use linode_moq.Serve.Objects.{
  ObjectsState, ObjectsWriter, ObjectsReader, objects_create, add_object, or_same, gathered,
  new_objects,
}
use linode_moq.Serve.Objects.Chunks.{ObjectReader}
use linode_moq.Serve.Objects.OneGroup.{add_all, reader_of, create-value}

-- The reader of one of the created objects.
abbrev pub IsNew : ObjectsWriter → List (ℕ × Object) → ObjectReader → Type 0
IsNew w os o = Any (λ p. reader_of p.0 p.1 w ≡ o) os

-- Between two states objects were created: those that the track holds now are some new ones, behind
-- all that it held before or behind none.
pub record Arrived (w : ObjectsWriter) (os : List (ℕ × Object)) (before after : ObjectsState)
    : Type 0 where
  pub kept : List ObjectReader
  pub fresh : List ObjectReader
  pub objects : after.objects ≡ kept ++ fresh
  pub new : All (IsNew w os) fresh
  pub closed : after.closed ≡ before.closed
  pub epochs :
      ((kept ≡ before.objects) × (after.epoch ≡ before.epoch + length fresh))
      ⊎ ((kept ≡ []) × (before.epoch + length fresh ≤ after.epoch))

module _ (reader : ObjectReader) (state : ObjectsState) where
  -- What an object adds to a state: it is put behind those of its group, left out, or put alone.
  add-cases :
      state.epoch + 1 < 18446744073709551616
      → let after = or_same state (add_object reader state).0 in
        (after.closed ≡ state.closed)
        × (((after.objects ≡ state.objects) × (after.epoch ≡ state.epoch))
            ⊎ ((after.objects ≡ state.objects ++ (reader ∷ [])) × (after.epoch ≡ state.epoch + 1))
            ⊎ ((after.objects ≡ reader ∷ []) × (after.epoch ≡ state.epoch + 1)))
  unfolding add_object
  add-cases small = ground arith

Arrived-none :
    (w : ObjectsWriter) (before after : ObjectsState)
    → after.closed ≡ before.closed
    → after.objects ≡ before.objects
    → after.epoch ≡ before.epoch
    → (os : List (ℕ × Object)) → Arrived w os before after
Arrived-none w before after c o e os = record {
  kept = before.objects;
  fresh = [];
  objects = o ∙ sym (append-nil before.objects);
  new = tt;
  closed = c;
  epochs = inl (refl, omega arith);
}

-- One object is created.
Arrived-one :
    (address : ℕ) (o : Object) (w : ObjectsWriter) (os : List (ℕ × Object))
    (state after : ObjectsState)
    → state.epoch + 1 < 18446744073709551616
    → after ≡ or_same state (add_object (reader_of address o w) state).0
    → Arrived w ((address, o) ∷ os) state after
Arrived-one address o w os state after small e =
    subst (Arrived w ((address, o) ∷ os) state) (sym e) (
      let (closed, cases) = add-cases (reader_of address o w) state small in
      elim cases [
        | inl (same, at) ↦
            Arrived-none w state (or_same state (add_object (reader_of address o w) state).0) closed
              same at ((address, o) ∷ os)
        | inr (inl (behind, at)) ↦ record {
          kept = state.objects;
          fresh = reader_of address o w ∷ [];
          objects = behind;
          new = (inl refl, tt);
          closed = closed;
          epochs = inl (refl, at);
        }
        | inr (inr (alone, at)) ↦ record {
          kept = [];
          fresh = reader_of address o w ∷ [];
          objects = alone;
          new = (inl refl, tt);
          closed = closed;
          epochs = inr (refl, omega arith);
        }
      ])

-- A later arrival counts for a longer list.
later :
    (w : ObjectsWriter) (p : ℕ × Object) (os : List (ℕ × Object)) (fresh : List ObjectReader)
    → All (IsNew w os) fresh
    → All (IsNew w (p ∷ os)) fresh
later w p os fresh = All-map (IsNew w os) (IsNew w (p ∷ os)) fresh (λ o h. inr h)

first_then :
    (k1 f1 f2 k0 : List ObjectReader) (e0 e1 e2 : ℕ)
    → ((k1 ≡ k0) × (e1 ≡ e0 + length f1)) ⊎ ((k1 ≡ []) × (e0 + length f1 ≤ e1))
    → e2 ≡ e1 + length f2
    → ((k1 ≡ k0) × (e2 ≡ e0 + length (f1 ++ f2))) ⊎ ((k1 ≡ []) × (e0 + length (f1 ++ f2) ≤ e2))
first_then k1 f1 f2 k0 e0 e1 e2 (inl (k, e)) h = inl (k, omega (arith, length-append f1 f2))
first_then k1 f1 f2 k0 e0 e1 e2 (inr (k, e)) h = inr (k, omega (arith, length-append f1 f2))

grows :
    (k0 k1 : List ObjectReader) (e0 e1 n : ℕ)
    → ((k1 ≡ k0) × (e1 ≡ e0 + n)) ⊎ ((k1 ≡ []) × (e0 + n ≤ e1))
    → e0 ≤ e1
grows k0 k1 e0 e1 n (inl h) = omega arith
grows k0 k1 e0 e1 n (inr h) = omega arith

Arrived-then :
    (w : ObjectsWriter) (p : ℕ × Object) (os : List (ℕ × Object)) (s0 s1 s2 : ObjectsState)
    → Arrived w (p ∷ os) s0 s1
    → Arrived w os s1 s2
    → Arrived w (p ∷ os) s0 s2
Arrived-then w p os s0 s1 s2 a b = elim b.epochs [
  | inl (k, e) ↦ record {
    kept = a.kept;
    fresh = a.fresh ++ b.fresh;
    objects =
        b.objects ∙ ap (λ l. l ++ b.fresh) (k ∙ a.objects) ∙ append_assoc a.kept a.fresh b.fresh;
    new = All-append (IsNew w (p ∷ os)) a.fresh b.fresh a.new (later w p os b.fresh b.new);
    closed = b.closed ∙ a.closed;
    epochs = first_then a.kept a.fresh b.fresh s0.objects s0.epoch s1.epoch s2.epoch a.epochs e;
  }
  | inr (k, e) ↦ record {
    kept = [];
    fresh = b.fresh;
    objects = b.objects ∙ ap (λ l. l ++ b.fresh) k;
    new = later w p os b.fresh b.new;
    closed = b.closed ∙ a.closed;
    epochs = inr (
      refl,
      omega (arith, e, grows s0.objects a.kept s0.epoch s1.epoch (length a.fresh) a.epochs),
    );
  }
]

one_step :
    (k0 k1 : List ObjectReader) (address : ℕ) (o : Object) (w : ObjectsWriter) (s : ObjectsState)
    → s.epoch + 1 < 18446744073709551616
    → (or_same s (add_object (reader_of address o w) s).0).epoch ≤ s.epoch + 1
one_step k0 k1 address o w s small =
    let (_, cases) = add-cases (reader_of address o w) s small in
    elim cases [
      | inl (same, at) ↦ omega arith
      | inr (inl (behind, at)) ↦ omega arith
      | inr (inr (alone, at)) ↦ omega arith
    ]

-- Objects that are created on a live track, fewer than its epoch can count.
pub add_all-Arrived :
    (os : List (ℕ × Object)) (w : ObjectsWriter) (s : StateInner ObjectsState)
    → lock_mut s ≡ some s.value
    → s.value.epoch + length os < 18446744073709551616
    → (lock_mut (add_all os w s) ≡ some (add_all os w s).value)
      × Arrived w os s.value (add_all os w s).value
unfolding add_all
add_all-Arrived [] w s live small = (live, Arrived-none w s.value s.value refl refl refl [])
add_all-Arrived ((address, o) ∷ os) w s live small =
    let s' : StateInner ObjectsState = (objects_create address o w s).1 in
    let (live', e) = create-value address o w s live in
    let up = one_step [] [] address o w s.value (omega arith) in
    let (end, arrived) =
      add_all-Arrived os w s' live' (omega (arith, up, ap (λ v. v.epoch) e, small)) in
    (
      end,
      Arrived-then w (address, o) os s.value s'.value (add_all os w s').value
          (Arrived-one address o w os s.value s'.value (omega arith) e) arrived,
    )

-- Where the new ones start.
start :
    (kept fresh k0 : List ObjectReader) (e0 e1 : ℕ)
    → ((kept ≡ k0) × (e1 ≡ e0 + length fresh)) ⊎ ((kept ≡ []) × (e0 + length fresh ≤ e1))
    → length (kept ++ fresh) - (e1 - e0) ≡ length kept
start kept fresh k0 e0 e1 (inl (k, e)) = omega (arith, length-append kept fresh)
start kept fresh k0 e0 e1 (inr (k, e)) = omega (arith, length-append kept fresh, ap length k)

none_new :
    (kept fresh k0 : List ObjectReader) (e0 e1 : ℕ)
    → ((kept ≡ k0) × (e1 ≡ e0 + length fresh)) ⊎ ((kept ≡ []) × (e0 + length fresh ≤ e1))
    → e1 ≤ e0
    → fresh ≡ []
none_new kept [] k0 e0 e1 h le = refl
none_new kept (f ∷ fresh) k0 e0 e1 (inl h) le = absurd (omega arith)
none_new kept (f ∷ fresh) k0 e0 e1 (inr h) le = absurd (omega arith)

new_objects-Arrived :
    (w : ObjectsWriter) (os : List (ℕ × Object)) (before after : ObjectsState)
    → (a : Arrived w os before after) → new_objects before.epoch after ≡ a.fresh
unfolding new_objects
new_objects-Arrived w os before after a = rw a.objects (
    rw (start a.kept a.fresh before.objects before.epoch after.epoch a.epochs)
      (drop-length-append a.kept a.fresh))

-- A reader that looked at the track before takes exactly the new ones.
pub gathered-Arrived :
    (w : ObjectsWriter) (os : List (ℕ × Object)) (before after : ObjectsState) (r : ObjectsReader)
    → (a : Arrived w os before after) → r.epoch ≡ before.epoch
    → gathered r after ≡ record r { epoch = after.epoch; pending = r.pending ++ a.fresh }
unfolding gathered
gathered-Arrived w os before after r a seen = elim (Bool-cases (ltb r.epoch after.epoch)) [
  | inl grew ↦
      rw (gathered, grew)
        (ap (λ l. record r { epoch = after.epoch; pending = r.pending ++ l })
          (ap (λ n. new_objects n after) seen ∙ new_objects-Arrived w os before after a))
  | inr still ↦
      let short : after.epoch ≤ r.epoch = ground arith in
      let none_left : a.fresh ≡ [] =
        none_new a.kept a.fresh before.objects before.epoch after.epoch a.epochs
          (omega (arith, seen, short)) in
      let up = grows before.objects a.kept before.epoch after.epoch (length a.fresh) a.epochs in
      let e : r.epoch ≡ after.epoch = omega (arith, seen, short, up) in
      rw (gathered, still)
        (ap (λ n. record r { epoch = n; pending = r.pending }) e
          ∙ ap (λ l. record r { epoch = after.epoch; pending = l })
              (sym (append-nil r.pending) ∙ ap (λ l. r.pending ++ l) (sym none_left)))
]
