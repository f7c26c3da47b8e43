-- ===== src/Jobs.antt =====
-- jobs/app: the observer service, which mirrors what the producers publish.
pub mod Store
