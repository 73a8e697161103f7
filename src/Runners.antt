-- ===== src/Runners.antt =====
-- The runner services of apps/web/src/lib/runners, and the local browser of lib/runtime: host
-- resources (Resource), claiming a queued run (Claim), why there is none (Diagnosis), the protocol
-- of an owned run (Events), the sweeps (Reaper), cancellations (Cancel, SessionCancel), and the
-- local browser's runs (Local, Dispatch); how they change a run (Evolve, Changes), and every
-- sequence of them (InFlight, Lifecycle); the numbers of events (Numbers), claims (Candidate, Taken, ClaimLaws,
-- Claiming, NoClaim), the dispatcher's limits (Capacity), the versions of runners (Protocol,
-- Versions) and stopped sessions (Stopped).
pub mod Resource
pub mod Claim
pub mod Diagnosis
pub mod Events
pub mod Reaper
pub mod Cancel
pub mod Local
pub mod Protocol
pub mod Versions
pub mod Dispatch
pub mod SessionCancel
pub mod Evolve
pub mod Changes
pub mod Candidate
pub mod Taken
pub mod ClaimLaws
pub mod Claiming
pub mod NoClaim
pub mod Stopped
pub mod InFlight
pub mod Lifecycle
pub mod Numbers
pub mod Capacity
