-- ===== src/Jobs.antt =====
-- pipeline/job_store.py and api/routes.py: a job from its submission to its results.
pub mod Store
pub mod Submit
pub mod Shares
pub mod Named
pub mod Submitted
pub mod Process
pub mod Accounts
pub mod Quiet
pub mod Outcome
pub mod Results
pub mod Answers
pub mod Whole
pub mod Stream
pub mod Client
pub mod Resubmitted
pub mod Conforms
pub mod Faults
pub mod Intake
pub mod Faulty
pub mod Settled
mod Tests
pub mod Shared
mod ClientTests
mod FaultTests
