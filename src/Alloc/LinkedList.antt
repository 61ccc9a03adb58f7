-- ===== src/Alloc/LinkedList.antt =====
-- src/allocator/linked_list.rs: the linked list allocator.
mod Methods
mod Parts
mod Laws
mod Sound
mod Trace
mod Unordered
unfoldable pub use Methods.*
pub use Parts.*
pub use Laws.*
pub use Sound.*
pub use Trace.*
pub use Unordered.*
