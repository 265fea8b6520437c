-- ===== src/Store.antt =====
-- crates/nclav-store: the persisted state of src/state.rs and the store of src/memory.rs.
mod State
mod Value
pub mod Lifecycle
pub mod Memory
pub mod Documents
pub mod Redb
mod Examples
unfoldable pub use State.*
pub use Value.*
