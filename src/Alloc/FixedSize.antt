-- ===== src/Alloc/FixedSize.antt =====
-- src/allocator/fixed_size_block.rs: the fixed-size block allocator.
mod Methods
mod Laws
unfoldable pub use Methods.*
pub use Laws.*
pub mod FreeLists
pub mod Outcomes
pub mod Trace
pub mod Calls
pub mod Reuse
