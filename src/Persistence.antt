-- ===== src/Persistence.antt =====
-- persistence/include/persistence: checksums, the journal's records, the journal files and their replay.
pub mod Bytes
pub mod Checksum
pub mod CommandBytes
pub mod Journal
pub mod Disk
pub mod Replay
pub mod Records
pub mod Stream
pub mod Files
pub mod Writing
pub mod Recovery
pub mod Survival
pub mod Metadata
pub mod SnapshotWriter
pub mod SnapshotReader
pub mod SnapshotFields
pub mod Snapshots
pub mod Recover
mod SnapshotTests
mod Tests
