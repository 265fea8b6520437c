-- ===== src/Graph.antt =====
-- crates/nclav-graph: `validate` of src/validate.rs with the errors of src/error.rs. The crate
-- petgraph is the parameter `Petgraph`.
mod Interface
mod Checks
mod Order
mod Reference
mod Contract
mod Soundness
mod Completeness
mod Ordering
mod Wiring
mod Verdicts
pub mod Forward
mod Examples
pub use Interface.*
unfoldable pub use Checks.*
unfoldable pub use Order.*
