-- ===== src/Tools.antt =====
-- tools.cc: the codecs and the helpers for paths, texts and times that the server shares.
pub mod Hex
pub mod Url
pub mod Paths
pub mod Split
pub mod Clock
pub mod Protocol
pub mod Sorting
pub mod Escape
