-- ===== src/Plugin.antt =====
-- src/plugin: what the plugins offer.
pub mod Registry
