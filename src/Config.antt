-- ===== src/Config.antt =====
-- crates/nclav-config: the raw types of src/raw.rs, the conversions of src/loader.rs from them to the
-- domain, and the errors of src/error.rs.
pub mod Raw
pub mod Convert
mod Examples
