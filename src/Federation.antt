-- ===== src/Federation.antt =====
-- Federation: the causal order of the service catalogs of the peers, and the resolution of
-- conflicts between two versions of a service (internal/federation).
pub mod VectorClock
pub mod Service
pub mod Resolver
pub mod Syncer
pub mod Gossip
pub mod Peers
mod Examples
mod SyncerExamples
