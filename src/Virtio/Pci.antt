-- ===== src/Virtio/Pci.antt =====
-- src/virtio/pci.rs: `PciConfigIo`, `read_config_dword` and `scan`.
use blog_os.Base.{
  ℕ, zero, suc, ◌+◌, ◌*◌, ◌^◌, ◌%◌, List, [], ◌∷◌, Option, none, some, bit_and, bit_or, ◌==◌,
  if◌then◌else◌,
}
pub mod Packets
pub mod Scanning

-- `DeviceFunction` of the `virtio-drivers` crate
pub record DeviceFunction : Type 0 where
  pub bus : ℕ
  pub device : ℕ
  pub function : ℕ

-- The address packet. The shifts of a `u32` drop nothing, since the fields are bytes.
unfoldable pub address : DeviceFunction → ℕ → ℕ
address device_function register_offset =
    bit_or
      (bit_or
        (bit_or (bit_or (device_function.bus * 2 ^ 16) (device_function.device * 2 ^ 11))
          (device_function.function * 2 ^ 8))
        (bit_and register_offset 0xfc))
      0x8000_0000

-- The `x86_64` crate's `Port<u32>`: what writing and reading a port does to the machine.
pub record Ports (M : Type 0) : Type 0 where
  pub write : ℕ → ℕ → M → M
  pub read : ℕ → M → ℕ × M

module _ {M : Type 0} ⦃ports : Ports M⦄ where
  -- `PciConfigIo::read_word`
  unfoldable pub read_word : DeviceFunction → ℕ → M → ℕ × M
  read_word device_function register_offset m =
      ports.read 0xcfc (ports.write 0xcf8 (address device_function register_offset) m)

  -- `PciConfigIo::write_word`
  unfoldable pub write_word : DeviceFunction → ℕ → ℕ → M → M
  write_word device_function register_offset word m =
      ports.write 0xcfc word (ports.write 0xcf8 (address device_function register_offset) m)

  -- `read_config_dword`
  unfoldable pub read_config_dword : ℕ → ℕ → ℕ → ℕ → M → ℕ × M
  read_config_dword bus device function offset m = ports.read 0xcfc (
      ports.write 0xcf8
        (address (record { bus = bus; device = device; function = function }) offset) m)

-- What `scan` reads of a `DeviceFunctionInfo`.
pub record Header : Type 0 where
  pub vendor_id : ℕ

-- The inner loop of `scan`, over what `enumerate_bus` gives for a bus.
unfoldable pub scan_bus : ℕ → List (DeviceFunction × Header) → Option DeviceFunction
scan_bus bus_num [] = none
scan_bus bus_num ((device_func, header) ∷ rest) =
    let later = scan_bus bus_num rest in
    if header.vendor_id == 0x1af4
    then some (record { bus = bus_num; device = device_func.device; function = 0 })
    else later

-- The outer loop, over `count` buses from `bus_num` on.
unfoldable pub scan_from : (ℕ → List (DeviceFunction × Header)) → ℕ → ℕ → Option DeviceFunction
scan_from enumerate_bus bus_num zero = none
scan_from enumerate_bus bus_num (suc count) =
    let later = scan_from enumerate_bus (bus_num + 1) count in
    elim (scan_bus bus_num (enumerate_bus bus_num)) [ some found ↦ some found | none ↦ later ]

-- `scan`, over the buses 0 to 255
unfoldable pub scan : (ℕ → List (DeviceFunction × Header)) → Option DeviceFunction
scan enumerate_bus = scan_from enumerate_bus 0 256
