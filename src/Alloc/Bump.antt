-- ===== src/Alloc/Bump.antt =====
-- src/allocator/bump.rs: the bump allocator.
mod Methods
mod Laws
mod Trace
unfoldable pub use Methods.*
pub use Laws.*
pub use Trace.*
