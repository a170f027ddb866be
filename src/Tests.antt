-- ===== src/Tests.antt =====
-- Runs of the program on concrete data, and the theorems at it.
pub mod Data
pub mod Frames
pub mod Books
pub mod Parsers
pub mod Feeds
pub mod Engines
pub mod Logs
pub mod Writers
pub mod Fanout
pub mod Readers
pub mod Clients
pub mod Archives
pub mod Pipelines
