-- ===== src/Linker.antt =====
-- src/hdl_kgraph/graph/builder.py: the pass-2 linker. Kinds has its tables, State the fields of
-- `_Linker`, Store the operations that touch the graph, Bindings the configurations, Targets the
-- filters and the scoring of candidates, Resolve the choice of a reference's targets, Scopes the
-- namespace of a design unit, Climb the unit of a node, Lex the identifiers of an expression, Loose
-- the references that are skipped where they match nothing, Ports the bindings of ports, Link the
-- loop over all references, Orphans the stubs that an incremental link removes.
pub mod Kinds
pub mod State
pub mod Store
pub mod Bindings
pub mod Targets
pub mod Resolve
pub mod Scopes
pub mod Lex
pub mod Loose
pub mod Ports
pub mod Link
pub mod Orphans
pub mod Climb
mod Samples
