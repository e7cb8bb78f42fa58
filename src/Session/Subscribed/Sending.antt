-- ===== src/Session/Subscribed/Sending.antt =====
-- moq-transport/src/session/subscribed.rs: the task that sends a subgroup on a stream of its own.
use linode_moq.Prelude.{ℕ, List, [], ◌∷◌, ◌++◌, Option, none, some}
use linode_moq.Coding.Outcome.{Outcome, ok, err, panic}
use linode_moq.Coding.Buffer.{VecBuf}
use linode_moq.Data.SubgroupHeader.{SubgroupHeader}
use linode_moq.Data.Header.{Header, header_encode}
use linode_moq.Data.SubgroupObject.{SubgroupObject, subgroup_object_encode}
use linode_moq.Watch.State.{StateInner, Round, returned, awaiting}
use linode_moq.Serve.Error.{ServeError}
use linode_moq.Serve.Subgroup.Object.{
  SubgroupObjectReader, SubgroupObjectState, subgroup_object_read,
}
use linode_moq.Serve.Subgroup.Group.{SubgroupReader, SubgroupState, subgroup_wait}
use linode_moq.Session.Error.{serve}
use linode_moq.Session.Subscribed.{SubscribedState, note_object}
use linode_moq.Session.Writer.{
  SendStream, Written, finished, failed, unfinished, panicked, writer_encode, writer_write,
}

-- What the task finds in one turn of its loop: the states of the subgroup at the locks of `next`, the
-- state of the subscription where the object is noted, and those of the object at the locks of `read`.
pub record Look : Type 0 where
  pub group : List (StateInner SubgroupState)
  pub subscription : StateInner SubscribedState
  pub object : List (StateInner SubgroupObjectState)

-- The header of an object.
unfoldable pub object_header : SubgroupObjectReader → SubgroupObject
object_header o = record {
  object_id = o.info.object_id;
  size = o.info.size;
  status = o.info.status;
}

module _ {E : Type 0} where
  -- What comes to a stream that has taken some bytes before.
  abbrev pub behind : List ℕ → Written E → Written E
  behind sent (finished more stream) = finished (sent ++ more) stream
  behind sent (failed more e) = failed (sent ++ more) e
  behind sent (unfinished more) = unfinished (sent ++ more)
  behind sent panicked = panicked

  -- `writer.encode(..).await?` or `writer.write(..).await?`, and what follows on the stream.
  abbrev pub then_send : Written E → (SendStream E → Written E) → Written E
  then_send (finished sent stream) k = behind sent (k stream)
  then_send (failed sent e) k = failed sent e
  then_send (unfinished sent) k = unfinished sent
  then_send panicked k = panicked

  -- What the loop over the chunks does with a round of `read`: `again` is the rest of the loop.
  abbrev pub after_chunk :
      (SubgroupObjectReader → SendStream E → Written E)
      → SendStream E
      → Round (Outcome ServeError (Option (List ℕ))) × SubgroupObjectReader
      → Written E
  after_chunk again stream (returned (ok (some chunk)), o) =
      then_send (writer_write stream [] chunk) (again o)
  after_chunk again stream (returned (ok none), o) = finished [] stream
  after_chunk again stream (returned (err e), o) = failed [] (serve e)
  after_chunk again stream (returned panic, o) = panicked
  after_chunk again stream (awaiting c, o) = again o stream

  -- The loop over the chunks of an object, on the states that it finds at its locks. It waits for the
  -- object behind the last of them.
  unfoldable pub send_chunks :
      List (StateInner SubgroupObjectState) → SubgroupObjectReader → SendStream E → Written E
  unfolding subgroup_object_read
  send_chunks [] o stream = unfinished []
  send_chunks (s ∷ later) o stream =
      after_chunk (send_chunks later) stream (subgroup_object_read o s)

  -- `update_max_group_id(..)?`, and what follows on the stream.
  abbrev pub then_noted :
      Outcome ServeError (Unit {0}) → (SendStream E → Written E) → SendStream E → Written E
  then_noted (ok _) k stream = k stream
  then_noted (err e) k stream = failed [] (serve e)
  then_noted panic k stream = panicked

  module _ {V : Type 0} (v : VecBuf V) where
    -- A turn of the loop, by what `next` has returned: `again` is the rest of the loop.
    abbrev pub after_object :
        Look
        → (SubgroupReader → SendStream E → Written E)
        → SendStream E
        → Option (Outcome ServeError (Option SubgroupObjectReader)) × SubgroupReader
        → Written E
    after_object look again stream (some (ok (some o)), r) =
        then_send
          (writer_encode v stream (subgroup_object_encode ⦃c = v.buf_mut⦄ (object_header o)))
          (then_noted (note_object r.info.group_id o.info.object_id look.subscription).0
            (λ stream. then_send (send_chunks look.object o stream) (again r)))
    after_object look again stream (some (ok none), r) = finished [] stream
    after_object look again stream (some (err e), r) = failed [] (serve e)
    after_object look again stream (some panic, r) = panicked
    after_object look again stream (none, r) = unfinished []

    -- The loop over the objects of a subgroup.
    unfoldable pub send_objects : List Look → SubgroupReader → SendStream E → Written E
    unfolding subgroup_wait note_object object_header
    send_objects [] r stream = unfinished []
    send_objects (look ∷ later) r stream =
        after_object look (send_objects later) stream (subgroup_wait look.group r)

    -- `serve_subgroup` on the stream that it opened, up to its `finish`, which is a call of the
    -- transport.
    unfoldable pub serve_subgroup :
        SubgroupHeader → List Look → SubgroupReader → SendStream E → Written E
    unfolding send_objects
    serve_subgroup header looks r stream =
        then_send (writer_encode v stream (header_encode ⦃c = v.buf_mut⦄ (Header.subgroup header)))
          (send_objects looks r)
