-- ===== src/Pass.antt =====
-- include/trieste/pass.h: the rules of a pass, filed by parent and first token, and their use.
pub mod RuleMap
pub mod Select
pub mod Children
pub mod Good
mod Samples
