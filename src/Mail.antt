-- ===== src/Mail.antt =====
-- The mail service: its campaigns, the caps on what a domain sends, and the sends outside campaigns.
pub mod Rows
pub mod Suppression
pub mod Sources
pub mod Drafts
pub mod Quota
pub mod Pacer
pub mod Tick
pub mod Send
pub mod Lifecycle
pub mod Runs
pub mod Changes
pub mod Cap
pub mod Once
pub mod States
pub mod Tests
