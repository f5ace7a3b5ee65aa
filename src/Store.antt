-- ===== src/Store.antt =====
-- src/store/mod.rs: the repositories over MySQL, with the rows of src/model.rs. The database and its client
-- are a parameter: a pool that gives a connection or an error, and a connection that runs a statement with
-- its parameters. A row that does not fit the types of the code is a panic, as `from_row` of the client
-- documents. The text of the schema is an argument.
pub mod Values
pub mod Statements
pub mod Rows
