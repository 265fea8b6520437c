-- ===== src/Lib.antt =====
-- nclav provisions enclaves, groups of infrastructure with their own identity and network, from YAML.
-- A run of `reconcile` loads the configured enclaves (crates/nclav-config), checks the graph of their
-- imports and exports (crates/nclav-graph), compares them with the states in the store
-- (crates/nclav-store), and makes the world agree through the drivers of the clouds and through
-- Terraform (crates/nclav-driver). The outcome goes to the store, as states and as audit events, and
-- to a report.
--
-- The HTTP API (crates/nclav-api) runs it on request, reads and destroys what is stored, and is the
-- state backend of Terraform.
--
-- Base: equality and order tests, results, lists and association lists, for a HashMap. Base/Texts has
-- texts as lists of characters, Base/Order the order of texts and their sort, Base/Effects code that
-- may fail and changes a state, with rules for what holds after it.
--
-- Domain: crates/nclav-domain/src/types.rs. Domain/Auth has the types of exports, of authentication
-- and of what partitions produce, Domain/Types the records. A path is a text, a port a number.
--
-- Config: crates/nclav-config. Config/Raw has the types of a partition's file and the errors,
-- Config/Convert the conversions of src/loader.rs to the domain; Config/Convert/Printing writes a
-- partition as its file would have it.
--
-- Graph: crates/nclav-graph. Graph/Interface states what the code uses of petgraph, with its
-- documented laws. Graph/Checks has the checks of `validate`, one function per loop, over a state with
-- the errors and the wiring; Graph/Order the graph and its order. An index out of range is a panic,
-- `none`. Graph/Contract says without the code what a set of enclaves has to satisfy, Graph/Reference
-- gives the errors and the wiring as lists without state, and Soundness, Completeness, Wiring,
-- Ordering and Verdicts relate them to the code. Graph/Forward is a sort that has the laws.
--
-- Store: crates/nclav-store. Store/State is src/state.rs: a time is a number, a Uuid a number, the
-- generation wraps at 2 ^ 64. Store/Value states what the code uses of serde_json, and Store/Documents
-- is an instance. Store/Memory is src/memory.rs: each method takes the state behind the mutex and
-- returns it. Store/Lifecycle runs the writes to the metadata in any order. Store/Redb is
-- src/redb_store.rs: the disk is a parameter, by which any call may fail, with the documented laws of
-- tables and transactions; Redb/Refinement has the rules for what holds after its calls,
-- Redb/Represents says when the tables hold what the maps of the memory store do, and Redb/Writes
-- relates the writes.
--
-- Driver: crates/nclav-driver. A driver is a record of functions that take and return the world
-- outside, so its answers may depend on all that happened before. Driver/Registry is src/registry.rs,
-- Driver/Local is src/local.rs.
--
-- Driver/Terraform: crates/nclav-driver/src/terraform.rs. `Host` is what it uses of the file system,
-- the processes and the clock. Hcl has the generated texts, Workspace the files of a partition,
-- Process `run_tf`, `read_outputs` and `write_run`, Operations `provision`, `teardown` and `observe`,
-- cut where a failed process ends them. A process reaches the store by its requests to the API, so its
-- calls take the store too; Keeping says which parts leave a view of the store alone where the
-- processes do, Recording what the operations leave in the store, and Recording/InMemory joins them
-- with the store in memory. Hcl/Reading shows that the generated variables determine the inputs, by a
-- decoder of these lines alone, on fuel for the lines of the file, one round for each line and one for
-- the end.
--
-- Reconcile: crates/nclav-reconciler. Reconcile/Action is the monad of the run: the store, the world,
-- and the errors of the report; an error of `?` ends the run and keeps what was done. Plan is the
-- diff, Teardown, Enclaves with Partitions, and Imports are the steps 6 to 8, Pass is `reconcile`.
-- Template is `resolve_template`: a text is a list of characters and an offset counts characters,
-- where the source counts bytes; the brackets are ASCII, so both cut at the same places. Its loop runs
-- on fuel, one round more than there are characters, as each round goes past at least one of them.
-- Contract has the rules for what holds where an action ends; DryRun, Failures, ResourcesOnly and
-- Reliable apply them.
--
-- Api: crates/nclav-api. A handler changes the store and the world, and ends with an `ApiError` or by
-- a panic. Auth is the test of src/auth.rs; Enclaves, TfState, Graphs, History and Status are the
-- handlers of src/handlers.rs. An answer is the value that the source turns into JSON. Memory gives
-- the handlers the store of crates/nclav-store/src/memory.rs; Enclaves/Deletion joins them with that
-- store and with the Terraform backend.
--
-- Parameters, as code that is not in the repository or that reaches outside: petgraph, serde_json,
-- redb's disk, the SHA-256 of the canonical JSON, the clock and the Uuids, base64, the answers of
-- clouds, the file system and the processes of Terraform, and the reading of the configuration. The
-- maps are association lists, and a loop over a HashMap takes the order of the list.
--
-- Not modelled: the store over PostgreSQL and the opening of the file of redb, the drivers of the
-- clouds, the walk of the configuration directories, the routes and extractors of the HTTP server and
-- the command line; logging everywhere.
pub mod Api
pub mod Base
pub mod Domain
pub mod Config
pub mod Graph
pub mod Store
pub mod Driver
pub mod Reconcile
