-- ===== src/Memory.antt =====
-- src/memory.rs: physical frames and the translation of addresses.
pub mod Frames
pub mod Addresses
pub mod Usable
pub mod Paging
pub mod Setup
