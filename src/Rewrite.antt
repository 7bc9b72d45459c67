-- ===== src/Rewrite.antt =====
-- include/trieste/rewrite.h: captures, patterns, and the quick test of a pattern.
pub mod Frames
pub mod Pattern
pub mod Operators
mod Samples
