-- ===== src/Virtio.antt =====
-- src/virtio/: the scan of the PCI bus, and the virtio driver's `Hal`.
pub mod Pci
pub mod Hal
