-- ===== src/Runbooks.antt =====
-- The commands of docs/runbooks.
pub mod Flags
pub mod Send
pub mod SendMain
pub mod Streams
pub mod ServeHandler
pub mod Serve
