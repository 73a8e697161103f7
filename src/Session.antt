-- ===== src/Session.antt =====
-- Run sessions: the aggregate status (Session/Rollup), what it means (Session/RollupLaws), the
-- service that keeps it (Session/Service) and shares its recomputations (Coalesce), and about that
-- service: recomputations (Settled) and sessions whose driver is gone (Aborted, Stranded).
pub mod Rollup
pub mod RollupLaws
pub mod Service
pub mod Coalesce
pub mod Settled
pub mod Aborted
pub mod Stranded
