-- ===== src/Generation.antt =====
-- core/generation: the planner of image refinements.
pub mod Keywords
pub mod Refine
mod Examples
