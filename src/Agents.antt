-- ===== src/Agents.antt =====
-- agents/*.py: the tools, their registry, the guardrails and the router.
pub mod Turn
pub mod Tool
pub mod Registry
pub mod Guardrails
pub mod Router
