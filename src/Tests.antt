-- ===== src/Tests.antt =====
-- The theorems at concrete inputs.
pub mod Buffers
pub mod Texts
pub mod Tables
pub mod Events
mod Containers
mod Removals
mod Purges
mod Objects
mod Trees
mod Tasks
