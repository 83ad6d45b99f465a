-- ===== src/Registry.antt =====
-- The skill registry (pilot-module/src/pilot_skill_registry.cpp): the skills by name, the dispatch of
-- a call to one of them, and the loader of plugins.
pub mod Skills
pub mod Plugins
pub mod Runs
pub mod Keys
