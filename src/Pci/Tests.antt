-- ===== src/Pci/Tests.antt =====
-- A bus with a network card in slot 3.
use nano_s.Prelude.{ℕ, ◌≡◌, refl, some, none, ◌&&◌, leb, ltb, ◌==◌, if◌then◌else◌, arith, Searched}
use nano_s.Pci.{pci_init, pci_find_device}
use nano_s.Pci.Find.{functions, has_ids, header, pci_find_device-pci_init}

-- The first double word names the RTL8029, the others are 0.
abbrev bus : ℕ → ℕ
bus address =
    if leb 0x80001800 address && ltb address 0x80001900
    then if address == 0x80001800 then 0x802910EC else 0
    else 0xFFFFFFFF

one_present : functions bus 256 0 ≡ 1
unfolding functions
one_present = refl

pci_find_device-pci_init_example :
    Searched
      (has_ids bus 0x10EC 0x8029)
      0
      256
      (λ n. some (header bus n))
      none
      (pci_find_device (pci_init bus) 0x10EC 0x8029)
pci_find_device-pci_init_example =
    pci_find_device-pci_init bus 0x10EC 0x8029 (omega (arith, one_present))
