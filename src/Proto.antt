-- ===== src/Proto.antt =====
-- src/proto.rs: the DNS wire format. `Types` has the message model, `Text` what the code takes from
-- the standard library's Unicode tables, `Cursor` the bounds-checked reads, `Name` domain names with
-- compression, `Ecs` the client subnet option, `Flags` the header word, `Parse` and `Encode` whole
-- messages, `Edns` the operations on a message's OPT record.
pub mod Types
pub mod Text
pub mod Cursor
pub mod Name
pub mod Flags
pub mod Ecs
pub mod Parse
pub mod Fuel
pub mod Prefix
pub mod Encode
pub mod Edns
pub mod Texts
pub mod Reads
pub mod Data
pub mod RoundTrip
pub mod Soa
pub mod Queries
pub mod Masks
