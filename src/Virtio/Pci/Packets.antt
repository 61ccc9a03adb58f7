-- ===== src/Virtio/Pci/Packets.antt =====
-- src/virtio/pci.rs: what the address packet says.
use blog_os.Base.{ℕ, ◌+◌, ◌*◌, ◌/◌, ◌%◌, ◌^◌, ◌<◌, ◌≡◌, ◌∙◌, bit_and, bit_or, arith}
use blog_os.Base.Masks.{bit_and_high}
use blog_os.Base.Joins.{bit_or_low, bit_or_high}
use blog_os.Virtio.Pci.{DeviceFunction, address}

-- A bus has 32 devices, a device 8 functions, and a function 256 bytes of registers.
pub record IsAddress (df : DeviceFunction) (register_offset : ℕ) : Type 0 where
  pub bus : df.bus < 256
  pub device : df.device < 32
  pub function : df.function < 8
  pub offset : register_offset < 256

-- The packet is a sum of its fields.
address_sum :
    (df : DeviceFunction) (register_offset : ℕ)
    → IsAddress df register_offset
    → address df register_offset
      ≡ df.bus * 2 ^ 16
        + df.device * 2 ^ 11
        + df.function * 2 ^ 8
        + register_offset / 4 * 4
        + 2 ^ 31
unfolding address
address_sum df register_offset h =
    let b : ℕ = df.bus in
    let d : ℕ = df.device in
    let f : ℕ = df.function in
    let word : bit_and register_offset 0xfc ≡ register_offset / 4 * 4 =
      bit_and_high 2 6 register_offset h.offset in
    let one : bit_or (b * 2 ^ 16) (d * 2 ^ 11) ≡ (b * 32 + d) * 2 ^ 11 =
      bit_or_low 16 b (d * 2 ^ 11) (omega (arith, h.device)) ∙ omega arith in
    let two : bit_or ((b * 32 + d) * 2 ^ 11) (f * 2 ^ 8) ≡ ((b * 32 + d) * 8 + f) * 2 ^ 8 =
      bit_or_low 11 (b * 32 + d) (f * 2 ^ 8) (omega (arith, h.function)) ∙ omega arith in
    let three : bit_or (((b * 32 + d) * 8 + f) * 2 ^ 8) (register_offset / 4 * 4)
        ≡ ((b * 32 + d) * 8 + f) * 2 ^ 8 + register_offset / 4 * 4 =
      bit_or_low 8 ((b * 32 + d) * 8 + f) (register_offset / 4 * 4) (omega (arith, h.offset)) in
    let four =
      bit_or_high 31 1 (((b * 32 + d) * 8 + f) * 2 ^ 8 + register_offset / 4 * 4)
        (omega (arith, h.bus, h.device, h.function, h.offset)) in
    rw (address, word, one, two, three) (four ∙ omega arith)

-- The packet is a `u32` with its highest bit set, and its fields give back the bus, the device, the
-- function and the number of the register's 32-bit word.
pub address_lem :
    (df : DeviceFunction) (register_offset : ℕ)
    → IsAddress df register_offset
    → (address df register_offset / 2 ^ 31 ≡ 1)
      × (address df register_offset / 2 ^ 16 % 256 ≡ df.bus)
      × (address df register_offset / 2 ^ 11 % 32 ≡ df.device)
      × (address df register_offset / 2 ^ 8 % 8 ≡ df.function)
      × (address df register_offset % 256 ≡ register_offset / 4 * 4)
address_lem df register_offset h =
    let sum = address_sum df register_offset h in
    (
      omega (arith, sum, h.bus, h.device, h.function, h.offset),
      omega (arith, sum, h.bus, h.device, h.function, h.offset),
      omega (arith, sum, h.bus, h.device, h.function, h.offset),
      omega (arith, sum, h.bus, h.device, h.function, h.offset),
      omega (arith, sum, h.bus, h.device, h.function, h.offset),
    )
