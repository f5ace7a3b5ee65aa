-- ===== src/Api.antt =====
-- src/api/mod.rs: the management API. JSON is a parameter, of a crate; so are new ids, the clock of the
-- audit log, the map file of the client subnets as `reload` reads it, and SHA-256. The accepting thread
-- and errors of writing the response, which the code ignores, are not modelled.
pub mod Bodies
pub mod Reload
pub mod Route
pub mod Outcome
pub mod Kept
pub mod Blocking
