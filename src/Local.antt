-- ===== src/Local.antt =====
-- cloudify/workflows/local.py: the storage of local workflows, where a change of a node instance
-- names the version that it was read at, and the parameters of an execution.
pub mod Storage
pub mod Parameters
pub mod Execute
mod Examples
