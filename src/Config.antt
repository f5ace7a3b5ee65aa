-- ===== src/Config.antt =====
-- src/config.rs: the configuration from environment variables and a file of them. The environment is a map
-- of texts in UTF-8, and a file its text, where it can be read. Times are the numbers that their variables
-- hold, in seconds or milliseconds as the names say.
pub mod Variables
pub mod Files
pub mod Settings
pub mod Dotenv
pub mod Bounds
