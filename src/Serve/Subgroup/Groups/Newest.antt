-- ===== src/Serve/Subgroup/Groups/Newest.antt =====
-- moq-transport/src/serve/subgroup.rs: the latest subgroup is the newest one that was created.
use linode_moq.Prelude.{
  ℕ, ◌+◌, ◌≤◌, ◌<◌, ◌≡◌, refl, sym, ◌∙◌, List, [], ◌∷◌, none, some, arith, All, Any, ◌⊎◌, inl, inr,
  subst,
}
use linode_moq.Coding.Outcome.{ok, err}
use linode_moq.Watch.State.{StateInner, inner_new, lock_mut, commit, notify}
use linode_moq.Serve.Error.{duplicate}
use linode_moq.Serve.Latest.{latest_new, replaced}
use linode_moq.Serve.Info.{Track, Subgroup}
use linode_moq.Serve.Subgroup.Group.{SubgroupWriter, SubgroupReader, subgroup_produce}
use linode_moq.Serve.Subgroup.Groups.{
  SubgroupsState, SubgroupsWriter, Created, subgroups_create, subgroups_produce, subgroup_info,
  make_latest, compare_latest,
}

-- Groups come in the order of their ids, and the subgroups of a group in the order of theirs.
abbrev pub IsUpTo : (g s g' s' : ℕ) → Type 0
IsUpTo g s g' s' = (g < g') ⊎ ((g ≡ g') × (s ≤ s'))

IsUpTo-trans :
    (g s g' s' g'' s'' : ℕ) → IsUpTo g s g' s' → IsUpTo g' s' g'' s'' → IsUpTo g s g'' s''
IsUpTo-trans g s g' s' g'' s'' p q = ground arith

-- Subgroups, each with the address of its state, created one after the other.
unfoldable pub creates :
    List (ℕ × Subgroup)
    → SubgroupsWriter
    → StateInner SubgroupsState
    → SubgroupsWriter × StateInner SubgroupsState
creates [] w s = (w, s)
creates ((address, g) ∷ gs) w s =
    let c = subgroups_create address g w s in creates gs c.writer c.state

-- The subgroup with its address is the one that a reader reads.
abbrev pub IsAt : SubgroupReader → ℕ × Subgroup → Type 0
IsAt r g =
    (r.state ≡ g.0)
    × (r.info.group_id ≡ g.1.group_id)
    × (r.info.subgroup_id ≡ g.1.subgroup_id)
    × (r.info.priority ≡ g.1.priority)

abbrev pub IsReached : SubgroupReader → ℕ × Subgroup → Type 0
IsReached r g = IsUpTo g.1.group_id g.1.subgroup_id r.info.group_id r.info.subgroup_id

-- A state that is live, whose latest subgroup is the given one, and which the writer follows.
pub record IsAfter (l : SubgroupReader) (w : SubgroupsWriter) (s : StateInner SubgroupsState)
    : Type 0 where
  pub live : lock_mut s ≡ some s.value
  pub newest : s.value.latest ≡ some l
  pub followed : w.next_group_id ≡ l.info.group_id + 1

-- The two ends of a new subgroup.
abbrev pub writer_of : ℕ → Subgroup → SubgroupsWriter → SubgroupWriter
writer_of address g w = (subgroup_produce address (subgroup_info w.info g)).0

abbrev pub reader_of : ℕ → Subgroup → SubgroupsWriter → SubgroupReader
reader_of address g w = (subgroup_produce address (subgroup_info w.info g)).1

module _ (address : ℕ) (g : Subgroup) (l : SubgroupReader) (w : SubgroupsWriter)
    (s : StateInner SubgroupsState) where
  pub create-older :
      lock_mut s ≡ some s.value
      → s.value.latest ≡ some l
      → (g.group_id < l.info.group_id)
        ⊎ ((g.group_id ≡ l.info.group_id) × (g.subgroup_id < l.info.subgroup_id))
      → subgroups_create address g w s ≡ record {
        result = ok (writer_of address g w);
        writer = w;
        state = commit s.value s;
        released = reader_of address g w ∷ [];
      }
  unfolding subgroups_create subgroup_produce subgroup_info compare_latest
  create-older live newest (inl p) = ground arith
  create-older live newest (inr p) = ground arith

  pub create-same :
      lock_mut s ≡ some s.value
      → s.value.latest ≡ some l
      → (g.group_id ≡ l.info.group_id) × (g.subgroup_id ≡ l.info.subgroup_id)
      → subgroups_create address g w s ≡ record {
        result = err duplicate;
        writer = w;
        state = commit s.value s;
        released = reader_of address g w ∷ [];
      }
  unfolding subgroups_create subgroup_produce subgroup_info compare_latest
  create-same live newest p = ground arith

  pub create-newer :
      lock_mut s ≡ some s.value
      → s.value.latest ≡ some l
      → (l.info.group_id < g.group_id)
        ⊎ ((g.group_id ≡ l.info.group_id) × (l.info.subgroup_id < g.subgroup_id))
      → subgroups_create address g w s
        ≡ make_latest (writer_of address g w) (reader_of address g w) (l ∷ []) s.value w s
  unfolding subgroups_create subgroup_produce subgroup_info compare_latest
  create-newer live newest (inl p) = ground arith
  create-newer live newest (inr p) = ground arith

first-IsAfter :
    (address : ℕ) (g : Subgroup) (w : SubgroupsWriter) (s : StateInner SubgroupsState)
    → lock_mut s ≡ some s.value
    → s.value.latest ≡ none
    → g.group_id + 1 < 18446744073709551616
    → let c = subgroups_create address g w s in
      (l : SubgroupReader) × IsAfter l c.writer c.state × IsAt l (address, g)
unfolding subgroups_create subgroup_produce subgroup_info make_latest replaced commit notify
    lock_mut
first-IsAfter address g w s live empty small = (
  record { state = address; info = subgroup_info w.info g; index = 0 },
  ground arith,
  (refl, refl, refl, refl),
)

pub lex_cases :
    (g s g' s' : ℕ)
    → ((g < g') ⊎ ((g ≡ g') × (s < s')))
      ⊎ ((g ≡ g') × (s ≡ s'))
      ⊎ ((g' < g) ⊎ ((g ≡ g') × (s' < s)))
lex_cases g s g' s' = ground arith

commit-IsAfter :
    (l : SubgroupReader) (w : SubgroupsWriter) (s : StateInner SubgroupsState)
    → IsAfter l w s
    → IsAfter l w (commit s.value s)
unfolding commit notify lock_mut
commit-IsAfter l w s h = ground arith

make_latest-IsAfter :
    (address : ℕ) (g : Subgroup) (released : List SubgroupReader) (w : SubgroupsWriter)
    (s : StateInner SubgroupsState)
    → lock_mut s ≡ some s.value
    → g.group_id + 1 < 18446744073709551616
    → let c = make_latest (writer_of address g w) (reader_of address g w) released s.value w s in
      IsAfter (reader_of address g w) c.writer c.state
unfolding make_latest replaced commit notify lock_mut subgroup_produce subgroup_info
make_latest-IsAfter address g released w s live small = ground arith

-- What a creation does to the latest subgroup.
abbrev Advances : ℕ → Subgroup → SubgroupReader → Created → Type 0
Advances address g l c =
    (l' : SubgroupReader) × IsAfter l' c.writer c.state
    × IsUpTo l.info.group_id l.info.subgroup_id l'.info.group_id l'.info.subgroup_id
    × IsReached l' (address, g)
    × ((l' ≡ l) ⊎ IsAt l' (address, g))

create-Advances :
    (address : ℕ) (g : Subgroup) (l : SubgroupReader) (w : SubgroupsWriter)
    (s : StateInner SubgroupsState)
    → IsAfter l w s
    → g.group_id + 1 < 18446744073709551616
    → Advances address g l (subgroups_create address g w s)
unfolding subgroup_produce subgroup_info
create-Advances address g l w s h small =
    elim (lex_cases g.group_id g.subgroup_id l.info.group_id l.info.subgroup_id) [
      | inl older ↦
          subst (Advances address g l) (sym (create-older address g l w s h.live h.newest older))
            (l, commit-IsAfter l w s h, inr (refl, omega arith), omega arith, inl refl)
      | inr (inl same) ↦
          subst (Advances address g l) (sym (create-same address g l w s h.live h.newest same))
            (l, commit-IsAfter l w s h, inr (refl, omega arith), omega arith, inl refl)
      | inr (inr newer) ↦
          subst (Advances address g l) (sym (create-newer address g l w s h.live h.newest newer)) (
            reader_of address g w,
            make_latest-IsAfter address g (l ∷ []) w s h.live small,
            ground arith,
            inr (refl, omega arith),
            inr (refl, refl, refl, refl),
          )
    ]

which_latest :
    (gs : List (ℕ × Subgroup)) (address : ℕ) (g : Subgroup) (l l1 l2 : SubgroupReader)
    → (l1 ≡ l) ⊎ IsAt l1 (address, g)
    → (l2 ≡ l1) ⊎ Any (IsAt l2) gs
    → (l2 ≡ l) ⊎ Any (IsAt l2) ((address, g) ∷ gs)
which_latest gs address g l l1 l2 which (inr any) = inr (inr any)
which_latest gs address g l l1 l2 (inl e) (inl e') = inl (e' ∙ e)
which_latest gs address g l l1 l2 (inr here) (inl e') =
    inr (inl (subst (λ r. IsAt r (address, g)) (sym e') here))

-- A state after a creation is one that `creates` goes on from.
creates-Advances :
    (gs : List (ℕ × Subgroup)) (l : SubgroupReader) (w : SubgroupsWriter)
    (s : StateInner SubgroupsState)
    → IsAfter l w s
    → All (λ g. g.1.group_id + 1 < 18446744073709551616) gs
    → let (w', s') = creates gs w s in
      (l' : SubgroupReader) × IsAfter l' w' s'
      × IsUpTo l.info.group_id l.info.subgroup_id l'.info.group_id l'.info.subgroup_id
      × All (IsReached l') gs
      × ((l' ≡ l) ⊎ Any (IsAt l') gs)
unfolding creates
creates-Advances [] l w s h small = (l, h, inr (refl, omega arith), tt, inl refl)
creates-Advances ((address, g) ∷ gs) l w s h small =
    let c = subgroups_create address g w s in
    let (l1, after, up, reached, which) = create-Advances address g l w s h small.0 in
    let (l2, after', up', reached', which') =
      creates-Advances gs l1 c.writer c.state after small.1 in
    (
      l2,
      after',
      IsUpTo-trans _ _ _ _ _ _ up up',
      (IsUpTo-trans _ _ _ _ _ _ reached up', reached'),
      which_latest gs address g l l1 l2 which which',
    )

first_reached :
    (l l' : SubgroupReader) (g : Subgroup)
    → g.group_id ≡ l.info.group_id
    → g.subgroup_id ≡ l.info.subgroup_id
    → IsUpTo l.info.group_id l.info.subgroup_id l'.info.group_id l'.info.subgroup_id
    → IsUpTo g.group_id g.subgroup_id l'.info.group_id l'.info.subgroup_id
first_reached l l' g p q up = ground arith

first-Any :
    (gs : List (ℕ × Subgroup)) (address : ℕ) (g : Subgroup) (l l' : SubgroupReader)
    → IsAt l (address, g)
    → (l' ≡ l) ⊎ Any (IsAt l') ((address, g) ∷ gs)
    → Any (IsAt l') ((address, g) ∷ gs)
first-Any gs address g l l' here (inl e) = inl (subst (λ r. IsAt r (address, g)) (sym e) here)
first-Any gs address g l l' here (inr any) = any

pub from_first :
    (address : ℕ) (g : Subgroup) (gs : List (ℕ × Subgroup)) (w : SubgroupsWriter)
    (s : StateInner SubgroupsState)
    → lock_mut s ≡ some s.value
    → s.value.latest ≡ none
    → All (λ h. h.1.group_id + 1 < 18446744073709551616) ((address, g) ∷ gs)
    → let (w', s') = creates ((address, g) ∷ gs) w s in
      (l : SubgroupReader) × IsAfter l w' s'
      × All (IsReached l) ((address, g) ∷ gs)
      × Any (IsAt l) ((address, g) ∷ gs)
unfolding creates
from_first address g gs w s live empty small =
    let c = subgroups_create address g w s in
    let (l, after, (at_state, at_group, at_subgroup, at_priority)) =
      first-IsAfter address g w s live empty small.0 in
    let (l', after', up, reached, which) = creates-Advances gs l c.writer c.state after small.1 in
    let here : IsAt l (address, g) = (at_state, at_group, at_subgroup, at_priority) in
    let got : (l' ≡ l) ⊎ Any (IsAt l') ((address, g) ∷ gs) =
      which_latest gs address g l l l' (inr here) which in
    (
      l',
      after',
      (first_reached l l' g (sym at_group) (sym at_subgroup) up, reached),
      first-Any gs address g l l' here got,
    )

-- However subgroups are created on a fresh track, in whatever order of their ids, readers see the
-- newest as the latest: it is one of those created, at or after each of them in the order of group ids
-- and then of subgroup ids. The next group of the writer is the one after it.
pub creates-newest :
    (track : Track) (address : ℕ) (g : Subgroup) (gs : List (ℕ × Subgroup))
    → All (λ h. h.1.group_id + 1 < 18446744073709551616) ((address, g) ∷ gs)
    → let (w, _, s) = subgroups_produce track in
      let (w', s') = creates ((address, g) ∷ gs) w s in
      (l : SubgroupReader) × (s'.value.latest ≡ some l)
      × All (IsReached l) ((address, g) ∷ gs)
      × Any (IsAt l) ((address, g) ∷ gs)
      × (w'.next_group_id ≡ l.info.group_id + 1)
unfolding subgroups_produce latest_new inner_new lock_mut
creates-newest track address g gs small =
    let (l, after, reached, here) = from_first address g gs _ _ refl refl small in
    (l, after.newest, reached, here, after.followed)
