-- ===== src/Caller.antt =====
-- pipeline/caller.py: the text of a model's answer, the retry loop and the class SarvamCaller.
pub mod Thinking
pub mod Extract
pub mod Blocks
pub mod Answer
pub mod Request
pub mod Spacing
pub mod Retry
pub mod Verdicts
pub mod Attempts
pub mod Outage
pub mod Failures
pub mod Down
pub mod Pauses
pub mod Waits
pub mod Service
pub mod Handling
pub mod Batches
pub mod Pool
pub mod Metered
mod Tests
mod TextTests
mod DownTests
