-- ===== src/Signing.antt =====
-- workers/escri.py, workers/sweeper_escri.py and services/documents/signing: the queue of signing
-- jobs, the lock on a document's PDF, and the worker that signs.
pub mod Tables
pub mod Claims
pub mod Closing
pub mod Queue
pub mod Poll
pub mod Sweeper
pub mod Orphans
pub mod Confirming
pub mod Runs
pub mod Fair
pub mod Fence
pub mod Polling
pub mod OrphanLaws
pub mod ConfirmingLaws
pub mod Lock
pub mod LockLaws
pub mod LockNext
pub mod LockSteps
pub mod LockSafety
pub mod LockExclusion
pub mod Failures
pub mod Common
pub mod CommonUpload
pub mod CommonLaws
pub mod Job
pub mod JobEnd
pub mod JobKeeps
pub mod JobLaws
pub mod JobConsistent
pub mod JobSigned
pub mod JobCompletes
pub mod Retries
mod Scenarios
mod LockScenarios
mod JobScenarios
