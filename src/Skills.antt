-- ===== src/Skills.antt =====
-- harness/skills: the registry of skills and their revisions over two tables, and the record of how
-- the runs that used one ended. A fresh id is an argument. Texts are measured by parameters.
pub mod Registry
pub mod Selection
pub mod Lifecycle
pub mod Sound
pub mod Safety
