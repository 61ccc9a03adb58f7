-- ===== src/Vga.antt =====
-- src/vga_buffer.rs: the writer of the 80 × 25 text screen.
pub mod Colors
pub mod Screen
pub mod Writer
pub mod Scroll
pub mod Printing
pub mod Formatting
pub mod Lines
