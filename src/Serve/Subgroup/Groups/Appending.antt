-- ===== src/Serve/Subgroup/Groups/Appending.antt =====
-- moq-transport/src/serve/subgroup.rs: `append` goes on after the newest group, and a subgroup behind
-- the latest one gets a writer that is of no use.
use linode_moq.Prelude.{
  ℕ, ◌+◌, ◌<◌, ◌≡◌, ◌≢◌, refl, ap, List, [], ◌∷◌, some, arith, All, All-map, ◌⊎◌, inl, inr,
}
use linode_moq.Coding.Outcome.{ok, err}
use linode_moq.Watch.State.{StateInner, inner_new, lock_mut, state_drop, notify, commit}
use linode_moq.Serve.Error.{cancel, duplicate}
use linode_moq.Serve.Latest.{latest_new, replaced}
use linode_moq.Serve.Log.{log_new, log_push}
use linode_moq.Serve.Info.{Track, Subgroup}
use linode_moq.Serve.Subgroup.Group.{
  SubgroupReader, subgroup_produce, subgroup_create, subgroup_write, write_whole,
}
use linode_moq.Serve.Subgroup.Groups.{
  SubgroupsState, SubgroupsWriter, subgroups_create, subgroups_append, subgroups_produce,
  subgroup_info, make_latest,
}
use linode_moq.Serve.Subgroup.Groups.Newest.{
  lex_cases, IsAfter, IsReached, creates, from_first, create-newer, create-older, create-same,
  reader_of, writer_of,
}

-- The subgroup that `append` creates.
abbrev pub appended : ℕ → SubgroupsWriter → Subgroup
appended priority w = record { group_id = w.next_group_id; subgroup_id = 0; priority = priority }

append-IsAfter :
    (address priority : ℕ) (l : SubgroupReader) (w : SubgroupsWriter)
    (s : StateInner SubgroupsState)
    → IsAfter l w s
    → subgroups_append address priority w s
      ≡ make_latest
          (writer_of address (appended priority w) w)
          (reader_of address (appended priority w) w)
          (l ∷ [])
          s.value
          w
          s
unfolding subgroups_append
append-IsAfter address priority l w s h =
    create-newer address (appended priority w) l w s h.live h.newest
      (inl (omega (arith, h.followed)))

next-above :
    (w : SubgroupsWriter) (l : SubgroupReader) (gs : List (ℕ × Subgroup))
    → w.next_group_id ≡ l.info.group_id + 1
    → All (IsReached l) gs
    → All (λ h. h.1.group_id < w.next_group_id) gs
next-above w l gs e reached =
    All-map (IsReached l) (λ h. h.1.group_id < w.next_group_id) gs (λ h p. ground arith) reached

-- After any subgroups were created on a fresh track, `append` succeeds: it starts a group behind all of
-- theirs, with subgroup 0, which readers see as the latest from then on.
pub subgroups_append-creates :
    (track : Track) (address : ℕ) (g : Subgroup) (gs : List (ℕ × Subgroup)) (at priority : ℕ)
    → All (λ h. h.1.group_id + 1 < 18446744073709551616) ((address, g) ∷ gs)
    → let (w, _, s) = subgroups_produce track in
      let (w', s') = creates ((address, g) ∷ gs) w s in
      let c = subgroups_append at priority w' s' in
      (c.result ≡ ok (writer_of at (appended priority w') w'))
      × (c.state.value.latest ≡ some (reader_of at (appended priority w') w'))
      × All (λ h. h.1.group_id < w'.next_group_id) ((address, g) ∷ gs)
unfolding subgroups_produce latest_new inner_new lock_mut make_latest replaced commit notify
subgroups_append-creates track address g gs at priority small =
    let (l, after, reached, here) = from_first address g gs _ _ refl refl small in
    let w' =
      (creates ((address, g) ∷ gs) (subgroups_produce track).0 (subgroups_produce track).2).0 in
    let s' =
      (creates ((address, g) ∷ gs) (subgroups_produce track).0 (subgroups_produce track).2).1 in
    let e = append-IsAfter at priority l w' s' after in
    (
      ap (λ c. c.result) e,
      ap (λ c. c.state.value.latest) e,
      next-above w' l ((address, g) ∷ gs) after.followed reached,
    )

-- A live track refuses a subgroup that has the ids of its latest one, and no other.
pub subgroups_create-duplicate :
    (address : ℕ) (g : Subgroup) (l : SubgroupReader) (w : SubgroupsWriter)
    (s : StateInner SubgroupsState)
    → lock_mut s ≡ some s.value
    → s.value.latest ≡ some l
    → ((g.group_id ≡ l.info.group_id) × (g.subgroup_id ≡ l.info.subgroup_id)
        → (subgroups_create address g w s).result ≡ err duplicate)
      × ((g.group_id ≢ l.info.group_id) ⊎ (g.subgroup_id ≢ l.info.subgroup_id)
          → (subgroups_create address g w s).result ≡ ok (writer_of address g w))
unfolding make_latest
subgroups_create-duplicate address g l w s live newest = (
  λ same. ap (λ c. c.result) (create-same address g l w s live newest same),
  λ other. elim (lex_cases g.group_id g.subgroup_id l.info.group_id l.info.subgroup_id) [
    | inl older ↦ ap (λ c. c.result) (create-older address g l w s live newest older)
    | inr (inl same) ↦ absurd (ground arith)
    | inr (inr newer) ↦ ap (λ c. c.result) (create-newer address g l w s live newest newer)
  ],
)

-- A subgroup behind the latest one of a live track is accepted, yet its reader is dropped at once: the
-- track stays as it is for its readers, and whatever the writer of the subgroup writes is cancelled.
pub subgroups_create_behind :
    (address object_address : ℕ) (payload : List ℕ) (g : Subgroup) (l : SubgroupReader)
    (w : SubgroupsWriter) (s : StateInner SubgroupsState)
    → lock_mut s ≡ some s.value
    → s.value.latest ≡ some l
    → (g.group_id < l.info.group_id)
      ⊎ ((g.group_id ≡ l.info.group_id) × (g.subgroup_id < l.info.subgroup_id))
    → let c = subgroups_create address g w s in
      let (writer, reader, state) = subgroup_produce address (subgroup_info w.info g) in
      (c.result ≡ ok writer)
      × (c.released ≡ reader ∷ [])
      × (c.state.value ≡ s.value)
      × ((subgroup_write object_address payload writer (state_drop state)).0 ≡ err cancel)
unfolding subgroup_write write_whole subgroup_create state_drop notify lock_mut log_push
    subgroup_produce log_new inner_new commit
subgroups_create_behind address object_address payload g l w s live newest behind =
    let e = create-older address g l w s live newest behind in
    (ap (λ c. c.result) e, ap (λ c. c.released) e, ap (λ c. c.state.value) e, refl)
