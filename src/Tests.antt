-- ===== src/Tests.antt =====
-- The theorems at concrete rows.
mod Data
mod Claims
mod Lives
mod Sessions
mod Rounds
mod Retries
mod Reasons
mod Viewers
mod Schedules
mod Mutations
mod Passes
mod Limits
mod Permissions
mod Compatibility
