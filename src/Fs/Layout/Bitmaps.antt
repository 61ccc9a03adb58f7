-- ===== src/Fs/Layout/Bitmaps.antt =====
-- src/fs/layout.rs: `Bitmap`, a view of bytes as bits. An index out of bounds panics.
mod Bits
pub mod Abs
mod Laws
mod Search
mod Preservation
unfoldable pub use Bits.*
pub use Laws.*
pub use Search.*
pub use Preservation.*
