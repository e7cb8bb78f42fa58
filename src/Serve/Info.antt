-- ===== src/Serve/Info.antt =====
-- The descriptions in moq-transport/src/serve of what is written, by which writers and readers know it.
use linode_moq.Prelude.{ℕ, List}
use linode_moq.Coding.Tuple.{Tuple}
use linode_moq.Data.ObjectStatus.{ObjectStatus}

-- The name is the bytes of its text.
pub record Track : Type 0 where
  pub namespace : Tuple
  pub name : List ℕ

pub record Subgroup : Type 0 where
  pub group_id : ℕ
  pub subgroup_id : ℕ
  pub priority : ℕ

pub record SubgroupInfo : Type 0 where
  pub track : Track
  pub group_id : ℕ
  pub subgroup_id : ℕ
  pub priority : ℕ

pub record SubgroupObject : Type 0 where
  pub group : SubgroupInfo
  pub object_id : ℕ
  pub size : ℕ
  pub status : ObjectStatus

pub record Stream : Type 0 where
  pub track : Track
  pub priority : ℕ

pub record StreamGroup : Type 0 where
  pub stream : Stream
  pub group_id : ℕ

pub record StreamObject : Type 0 where
  pub group : StreamGroup
  pub object_id : ℕ
  pub size : ℕ
  pub status : ObjectStatus

pub record Object : Type 0 where
  pub group_id : ℕ
  pub object_id : ℕ
  pub priority : ℕ

pub record ObjectInfo : Type 0 where
  pub track : Track
  pub group_id : ℕ
  pub object_id : ℕ
  pub priority : ℕ
  pub status : ObjectStatus

pub record Datagram : Type 0 where
  pub group_id : ℕ
  pub object_id : ℕ
  pub priority : ℕ
  pub status : ObjectStatus
  pub payload : List ℕ
