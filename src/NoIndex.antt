-- ===== src/NoIndex.antt =====
-- infrastructure/persistence/sql_noindex_registry.py, application/use_cases/manage_noindex_rules.py
-- and the glob patterns of Python's `fnmatch`, which both use.
pub mod Glob
pub mod Registry
pub mod Manage
