-- ===== src/Tests.antt =====
-- Runs of the model on concrete inputs.
pub mod Machines
pub mod Stack
pub mod Control
pub mod Arrays
pub mod Table
pub mod Locking
pub mod Spelling
pub mod Maps
pub mod Parsing
pub mod Loading
pub mod Memory
pub mod Collecting
pub mod Fields
