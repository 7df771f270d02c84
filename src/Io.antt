-- ===== src/Io.antt =====
-- The I/O handlers of the server.
pub mod Buffer
pub mod Memory
