-- ===== src/Session/Handshake.antt =====
-- `connect_role` and `accept_role` of moq-transport/src/session/mod.rs, between the opening of the
-- control stream and the new session: what is sent, what is received, and the role that results.
pub mod Roles
pub mod Agreement
use linode_moq.Prelude.{ℕ, List, [], ◌∷◌, Bool, false, ◌||◌, ◌==◌, if◌then◌else◌}
use linode_moq.Coding.Outcome.{Outcome, ok, err, panic}
use linode_moq.Coding.Buffer.{CursorBuf, VecBuf}
use linode_moq.Coding.Params.{Params}
use linode_moq.Setup.Role.{Role, publisher, subscriber, both}
use linode_moq.Setup.Version.{Version, Versions, draft_07}
use linode_moq.Setup.Client.{Client, client_encode, client_decode}
use linode_moq.Setup.Server.{Server, server_encode, server_decode}
use linode_moq.Session.Error.{SessionError, version, role_incompatible}
use linode_moq.Session.Reader.{Reader, reader_decode}
use linode_moq.Session.Writer.{
  SendStream, Written, finished, failed, unfinished, panicked, writer_encode,
}

-- `[setup::Version::DRAFT_07].into()`
abbrev pub our_versions : Versions
our_versions = draft_07 ∷ []

-- `Params::default()`
abbrev pub default_params : Params
default_params = record { entries = [] }

-- The setup that a client of a role sends.
unfoldable pub client_setup : Role → Client
client_setup role = record { versions = our_versions; role = role; params = default_params }

-- The setup that a server of a role sends.
unfoldable pub server_setup : Role → Server
server_setup role = record { version = draft_07; role = role; params = default_params }

-- `versions.contains(&v)`
unfoldable pub contains : Versions → Version → Bool
contains [] v = false
contains (w ∷ ws) v = w.number == v.number || contains ws v

module _ {E : Type 0} where
  -- The match on the role of the other side.
  unfoldable pub downgrade : (other role : Role) → Outcome (SessionError E) Role
  downgrade both role = ok role
  downgrade publisher publisher = err (role_incompatible publisher publisher)
  downgrade publisher _ = ok subscriber
  downgrade subscriber subscriber = err (role_incompatible subscriber subscriber)
  downgrade subscriber _ = ok publisher

  -- `?` between two results
  unfoldable pub next :
      {A B : Type 0}
      → Outcome (SessionError E) A
      → (A → Outcome (SessionError E) B)
      → Outcome (SessionError E) B
  next (ok a) f = f a
  next (err e) f = err e
  next panic f = panic

  -- A server of a role, on the client's setup: the setup it sends, and its role from then on.
  unfoldable pub answer_client : Role → Client → Outcome (SessionError E) (Server × Role)
  answer_client role client =
      if contains client.versions draft_07
      then next (downgrade client.role role) (λ role. ok (server_setup role, role))
      else err (version client.versions our_versions)

-- What a side of the handshake comes to: a result, or a wait for a stream that takes no more.
pub data Handled (E A : Type 0) : Type 0 where
  returned : Outcome (SessionError E) A → Handled E A
  waiting : Handled E A

-- A side behind its handshake: the bytes it sent, its streams, and the role of its session.
pub record Opened (E : Type 0) : Type 0 where
  pub role : Role
  pub sent : List ℕ
  pub sender : SendStream E
  pub recver : Reader E

module _ {E : Type 0} where
  -- `sender.encode(..).await?`, and what follows it.
  unfoldable pub deliver :
      {A : Type 0} → Written E → (List ℕ → SendStream E → Handled E A) → Handled E A
  deliver (finished sent sender) f = f sent sender
  deliver (failed sent e) f = returned (err e)
  deliver (unfinished sent) f = waiting
  deliver panicked f = returned panic

  -- `recver.decode().await?` or a check with `?`, and what follows it.
  unfoldable pub settle :
      {A B : Type 0} → Outcome (SessionError E) A → (A → Handled E B) → Handled E B
  settle (ok a) f = f a
  settle (err e) f = returned (err e)
  settle panic f = returned panic

  module _ {C V : Type 0} (k : CursorBuf C) (v : VecBuf V) where
    -- `accept_role`, on the two halves of the control stream.
    unfoldable pub accept_role : Role → SendStream E → Reader E → Handled E (Opened E)
    accept_role role sender recver =
        settle (reader_decode k (client_decode ⦃b = k.buf⦄ k) recver) λ (client, recver).
          settle (answer_client role client) λ (server, role).
            deliver (writer_encode v sender (server_encode ⦃c = v.buf_mut⦄ v server)) λ sent sender.
              returned (ok (record { role = role; sent = sent; sender = sender; recver = recver }))

    -- `connect_role`, on the two halves of the control stream.
    unfoldable pub connect_role : Role → SendStream E → Reader E → Handled E (Opened E)
    connect_role role sender recver =
        deliver (writer_encode v sender (client_encode ⦃c = v.buf_mut⦄ v (client_setup role)))
          λ sent sender.
            settle (reader_decode k (server_decode ⦃b = k.buf⦄ k) recver) λ (server, recver).
              settle (downgrade server.role role) λ role.
                returned
                  (ok (record { role = role; sent = sent; sender = sender; recver = recver }))
