-- ===== src/Domain.antt =====
-- crates/nclav-domain/src/types.rs: the data that every other crate works on. `Auth` has the types of
-- exports and of authentication, `Types` the records of enclaves and partitions.
mod Auth
mod Types
unfoldable pub use Types.*
unfoldable pub use Auth.*
