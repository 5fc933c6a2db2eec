-- ===== src/Interfaces.antt =====
-- The operations of node types, node templates and relationships, and how they are merged
-- (dsl_parser/interfaces/utils.py, operation_merger.py, interfaces_merger.py, interfaces_parser.py).
-- `V` is the type of YAML values. A field that may be None is an `Option`.
pub mod Operation
pub mod OperationMerger
pub mod InterfacesMerger
mod Inputs
mod Precedence
mod Merged
mod Examples
