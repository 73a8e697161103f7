-- ===== src/Retry.antt =====
-- The retry rounds of a test group: the plan of a round (Retry/Plan), the loop that runs the rounds
-- (Retry/Runner), and what is proved of them.
pub mod Plan
pub mod Entries
pub mod States
pub mod Eligible
pub mod Chosen
pub mod Runner
pub mod Created
pub mod CaseCount
pub mod Rounds
pub mod Budget
pub mod Limits
