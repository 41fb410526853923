-- ===== src/Core.antt =====
-- crates/msgbus-core/src/lib.rs: errors, identifiers, messages and what they are validated by.
pub mod Error
pub mod Word
pub mod Node
pub mod Name
pub mod Message
pub mod Store
