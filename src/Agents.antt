-- ===== src/Agents.antt =====
-- agents/app: the service of the runtime agents.
pub mod Cron
pub mod Schedules
pub mod Approvals
pub mod Turns
