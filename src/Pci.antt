-- ===== src/Pci.antt =====
-- The PCI devices of bus 0, source/pci.c. `bus` is the hardware: what the data port gives after an
-- address has been written to the address port. A device is the list of its double words.
pub mod Find
mod Tests
use nano_s.Prelude.{
  ℕ, zero, suc, ◌+◌, ◌-◌, ◌*◌, ◌/◌, ◌%◌, true, false, ◌&&◌, List, [], ◌∷◌, ◌++◌, Option, none, some,
  ◌==◌, leb, if◌then◌else◌, get_or, length,
}

abbrev pub max_pci_device : ℕ
max_pci_device = 16

abbrev pub vendor_id : List ℕ → ℕ
vendor_id device = get_or device 0 0 % 65536

abbrev pub device_id : List ℕ → ℕ
device_id device = get_or device 0 0 / 65536

-- The bits of the three parts of the address are disjoint.
unfoldable pub pci_read_config : (ℕ → ℕ) → ℕ → ℕ → ℕ
pci_read_config bus pci_dev offset = bus (0x80000000 + pci_dev + (offset % 256 - offset % 4))

-- The `n` double words from an offset on.
unfoldable pub read_dwords : (ℕ → ℕ) → ℕ → ℕ → ℕ → List ℕ
read_dwords bus pci_dev offset zero = []
read_dwords bus pci_dev offset (suc n) =
    pci_read_config bus pci_dev offset ∷ read_dwords bus pci_dev (offset + 4) n

-- The address of the function `n % 8` in the slot `n / 8`.
abbrev pub pci_dev_addr : ℕ → ℕ
pci_dev_addr n = n / 8 * 2048 + n % 8 * 256

abbrev pub vendor_at : (ℕ → ℕ) → ℕ → ℕ
vendor_at bus n = pci_read_config bus (pci_dev_addr n) 0 % 65536

abbrev pub device_at : (ℕ → ℕ) → ℕ → List ℕ
device_at bus n = read_dwords bus (pci_dev_addr n) 0 16

-- The loops of `pci_init` over slots and functions, with `left` functions to go from `n` on; the list
-- is the part of `pci_devices` that is filled.
unfoldable pub scan_loop : (ℕ → ℕ) → ℕ → ℕ → List (List ℕ) → List (List ℕ)
scan_loop bus zero n pci_devices = pci_devices
scan_loop bus (suc left) n pci_devices =
    let next = pci_devices ++ (device_at bus n ∷ []) in
    let skipped = scan_loop bus left (n + 1) pci_devices in
    let rest = scan_loop bus left (n + 1) next in
    if vendor_at bus n == 0xFFFF
    then skipped
    else if leb max_pci_device (length next)
    then next
    else rest

unfoldable pub pci_init : (ℕ → ℕ) → List (List ℕ)
pci_init bus = scan_loop bus 256 0 []

unfoldable pub pci_find_device : List (List ℕ) → ℕ → ℕ → Option (List ℕ)
pci_find_device [] vendor device = none
pci_find_device (d ∷ ds) vendor device =
    let rest = pci_find_device ds vendor device in
    if vendor == vendor_id d && device == device_id d then some d else rest
