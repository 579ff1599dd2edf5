-- ===== src/Scopes.antt =====
-- The scopes, the contributions of modules, and their publication: crates/kanbei-scopes/src.
pub mod Contrib
pub mod State
pub mod Settings
pub mod Validate
pub mod Displaced
pub mod Apply
pub mod Snapshot
pub mod Composition
pub mod Publication
pub mod Vacancy
pub mod Standing
pub mod Guards
pub mod Keymap
pub mod Bindings
pub mod Removal
pub mod Tree
pub mod Leveled
pub mod Disposal
pub mod Unlisting
pub mod Disposed
pub mod Trees
pub mod Replace
pub mod Layers
pub mod Examples
