-- ===== src/Project.antt =====
-- core/project: references between projects (core/project/cross_project.py).
pub mod References
pub mod Cycles
pub mod Resolve
mod Examples
