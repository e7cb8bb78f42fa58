-- ===== src/Data.antt =====
-- moq-transport/src/data: headers of data streams and datagrams.
pub mod Datagram
pub mod Header
pub mod ObjectHeader
pub mod ObjectStatus
pub mod SizedStatus
pub mod SubgroupHeader
pub mod SubgroupObject
pub mod TrackHeader
pub mod TrackObject
