-- ===== src/Skills.antt =====
-- app/skills: how surface spans become ids of the skill graph.
pub mod Labels
pub mod Aliases
pub mod Contested
pub mod Report
pub mod Memo
pub mod Linker
pub mod Linked
mod Words
pub mod Scanned
pub mod Owners
