-- ===== src/Leads.antt =====
-- leads/app: the service of the leads.
pub mod ResolveCache
