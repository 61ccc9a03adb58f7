-- ===== src/Virtio/Pci/Scanning.antt =====
-- src/virtio/pci.rs: which device `scan` finds.
use blog_os.Base.{
  ℕ, zero, suc, ◌+◌, ◌≤◌, ◌<◌, ◌≡◌, ◌≢◌, refl, ap, sym, subst, List, [], ◌∷◌, ◌++◌, All, Option,
  none, some, ◌==◌, ◌⊎◌, inl, inr, arith, Bool-cases,
}
use native.Mathlib.Decide.{ℕ_discrete}
use blog_os.Virtio.Pci.{DeviceFunction, Header, scan_bus, scan_from, scan}

-- The header is of another vendor.
abbrev pub IsOther : DeviceFunction × Header → Type 0
IsOther item = item.1.vendor_id ≢ 0x1af4

-- The first header of the vendor on a bus.
pub record IsFirst (items : List (DeviceFunction × Header)) (device_func : DeviceFunction)
    : Type 0 where
  pub before : List (DeviceFunction × Header)
  pub header : Header
  pub behind : List (DeviceFunction × Header)
  pub there : items ≡ before ++ ((device_func, header) ∷ behind)
  pub vendor : header.vendor_id ≡ 0x1af4
  pub others : All IsOther before

-- What `scan` returns for the first header of the vendor, on a bus.
abbrev pub found : ℕ → DeviceFunction → DeviceFunction
found bus_num device_func = record { bus = bus_num; device = device_func.device; function = 0 }

scan_bus_lem :
    (bus_num : ℕ) (items : List (DeviceFunction × Header))
    → ((scan_bus bus_num items ≡ none) × All IsOther items)
      ⊎ ((device_func : DeviceFunction) × IsFirst items device_func
          × (scan_bus bus_num items ≡ some (found bus_num device_func)))
unfolding scan_bus
scan_bus_lem bus_num [] = inl (refl, tt)
scan_bus_lem bus_num ((device_func, header) ∷ rest) =
    elim (Bool-cases (header.vendor_id == 0x1af4)) [
      | inl e ↦ inr (
        device_func,
        record {
          before = [];
          header = header;
          behind = rest;
          there = refl;
          vendor = ground (arith, e);
          others = tt;
        },
        rw (scan_bus, e) refl,
      )
      | inr differ ↦
          let other : header.vendor_id ≢ 0x1af4 = λ e. absurd (ground (arith, differ, e)) in
          elim (scan_bus_lem bus_num rest) [
            | inl (none_found, all) ↦ inl (rw (scan_bus, differ) none_found, (other, all))
            | inr (later, first, e) ↦ inr (
              later,
              record {
                before = (device_func, header) ∷ first.before;
                header = first.header;
                behind = first.behind;
                there = ap (λ l. (device_func, header) ∷ l) first.there;
                vendor = first.vendor;
                others = (other, first.others);
              },
              rw (scan_bus, differ) e,
            )
          ]
    ]

-- What `scan` does with the buses from `low` up to `high`.
pub data Scanned (enumerate_bus : ℕ → List (DeviceFunction × Header)) (low high : ℕ)
    : Option DeviceFunction → Type 0 where
  not_found :
      ((b : ℕ) → low ≤ b → b < high → All IsOther (enumerate_bus b))
      → Scanned enumerate_bus low high none
  on_bus :
      (bus_num : ℕ) (device_func : DeviceFunction)
      → low ≤ bus_num
      → bus_num < high
      → ((b : ℕ) → low ≤ b → b < bus_num → All IsOther (enumerate_bus b))
      → IsFirst (enumerate_bus bus_num) device_func
      → Scanned enumerate_bus low high (some (found bus_num device_func))

scan_from-Scanned :
    (enumerate_bus : ℕ → List (DeviceFunction × Header)) (low count : ℕ)
    → Scanned enumerate_bus low (low + count) (scan_from enumerate_bus low count)
unfolding scan_from
scan_from-Scanned enumerate_bus low zero = not_found (λ b le lt. absurd (omega arith))
scan_from-Scanned enumerate_bus low (suc count) = elim (scan_bus_lem low (enumerate_bus low)) [
  | inr (device_func, first, e) ↦
      rw (scan_from, e)
        (on_bus low device_func (omega arith) (omega arith) (λ b le lt. absurd (omega arith)) first)
  | inl (none_found, all) ↦
      let later = scan_from-Scanned enumerate_bus (low + 1) count in
      let same : low + 1 + count ≡ low + suc count = omega arith in
      rw (scan_from, none_found) (further enumerate_bus low _ _ same all later)
]
  where
    at_low :
        (enumerate_bus : ℕ → List (DeviceFunction × Header)) (low high : ℕ)
        → All IsOther (enumerate_bus low)
        → ((b : ℕ) → low + 1 ≤ b → b < high → All IsOther (enumerate_bus b))
        → (b : ℕ) → low ≤ b
        → b < high
        → All IsOther (enumerate_bus b)
    at_low enumerate_bus low high all later b le lt = elim (ℕ_discrete b low) [
      | yes e ↦ subst (λ n. All IsOther (enumerate_bus n)) (sym e) all
      | no ne ↦ later b (omega arith) lt
    ]

    further :
        (enumerate_bus : ℕ → List (DeviceFunction × Header)) (low high : ℕ)
        (o : Option DeviceFunction) {high' : ℕ}
        → high' ≡ high
        → All IsOther (enumerate_bus low)
        → Scanned enumerate_bus (low + 1) high' o
        → Scanned enumerate_bus low high o
    further enumerate_bus low high none e all (not_found later) =
        not_found (at_low enumerate_bus low high all (λ b le lt. later b le (omega arith)))
    further enumerate_bus low high (some _) e all (on_bus n d le lt later first) =
        on_bus n d (omega arith) (omega arith) (at_low enumerate_bus low n all later) first

-- `scan` returns the first device of vendor 0x1AF4 on the lowest of the buses 0 to 255 that has
-- one, with the number 0 for its function whatever the header's is, and nothing if no bus has one.
pub scan-Scanned :
    (enumerate_bus : ℕ → List (DeviceFunction × Header))
    → Scanned enumerate_bus 0 256 (scan enumerate_bus)
unfolding scan
scan-Scanned enumerate_bus = scan_from-Scanned enumerate_bus 0 256
