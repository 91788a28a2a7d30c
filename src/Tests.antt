-- ===== src/Tests.antt =====
-- Runs of the definitions on small inputs, and each theorem with hypotheses applied to one.
pub mod HintQueue
pub mod Diff
pub mod Wal
pub mod Snapshot
pub mod Ring
pub mod WriteQuorum
pub mod AntiEntropy
pub mod Wire
pub mod Store
pub mod Membership
pub mod Failure
pub mod ReadQuorum
