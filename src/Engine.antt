-- ===== src/Engine.antt =====
-- The storage engine of src/engine: shards, each a map in memory over an index file and a file of
-- values. Index is wal.go, Shard is shard.go with the flush of group_committer.go, Committer is the
-- loop of the latter, Rewriting is compaction.go and cleanup.go, and Database is db.go.
pub mod Index
pub mod Shard
pub mod Replaying
pub mod Placing
pub mod Durability
pub mod Restart
pub mod Flushes
pub mod Rewriting
pub mod Cleaning
pub mod Compacting
pub mod Losing
pub mod Seeking
pub mod Committer
pub mod Committing
pub mod Keeping
pub mod Database
