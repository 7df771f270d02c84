-- ===== src/Zmm.antt =====
-- The base library of src/zmm: nullable strings, decimal numbers and the ring queue.
pub mod Strings
pub mod Number
pub mod Queue
