-- ===== src/Incremental.antt =====
-- src/hdl_kgraph/incremental.py: which files a change makes dirty, and which references it can
-- move. The parts are the hash diff, the closure over include and macro dependents, and the names whose
-- definitions changed.
pub mod Hashes
pub mod Dirty
pub mod Names
pub mod Git
mod Samples
