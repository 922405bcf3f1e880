-- ===== src/Pci/Find.antt =====
-- What `pci_find_device` of Pci.antt answers after `pci_init`.
use nano_s.Prelude.{
  ◌*◌, ◌/◌, ◌%◌, ℕ, zero, suc, ◌+◌, ◌≤◌, ◌≡◌, refl, sym, ◌∙◌, List, [], ◌∷◌, ◌++◌, none, some, ◌==◌,
  ◌&&◌, leb, arith, length, length-append, if◌then◌else◌, Bool-cases, inl, inr, Searched,
  Searched-empty, Searched-here, Searched-later, Bool, Option, not,
}
use mathlib.Core.List.{append_assoc, append-nil}
use nano_s.Pci.{
  read_dwords, pci_read_config, max_pci_device, vendor_id, device_id, vendor_at, device_at,
  scan_loop, pci_init, pci_find_device,
}

-- The double word `i` of function `n % 8` in slot `n / 8` of bus 0.
abbrev pub config : (ℕ → ℕ) → ℕ → ℕ → ℕ
config bus n i = bus (0x80000000 + (n / 8 * 2048 + n % 8 * 256) + 4 * i)

-- There is a function: its vendor, the low half of double word 0, is not 0xFFFF.
abbrev pub exists : (ℕ → ℕ) → ℕ → Bool
exists bus n = not (config bus n 0 % 65536 == 0xFFFF)

-- The 16 double words of its header.
abbrev pub header : (ℕ → ℕ) → ℕ → List ℕ
header bus n =
    config bus n 0
    ∷ config bus n 1
    ∷ config bus n 2
    ∷ config bus n 3
    ∷ config bus n 4
    ∷ config bus n 5
    ∷ config bus n 6
    ∷ config bus n 7
    ∷ config bus n 8
    ∷ config bus n 9
    ∷ config bus n 10
    ∷ config bus n 11
    ∷ config bus n 12
    ∷ config bus n 13
    ∷ config bus n 14
    ∷ config bus n 15
    ∷ []

-- How many functions exist, from `n` on.
unfoldable pub functions : (ℕ → ℕ) → ℕ → ℕ → ℕ
functions bus zero n = 0
functions bus (suc left) n =
    let rest = functions bus left (n + 1) in if exists bus n then suc rest else rest

-- Function `n` exists, with this vendor in the low and this device in the high half of double word 0.
abbrev pub has_ids : (ℕ → ℕ) → ℕ → ℕ → ℕ → Bool
has_ids bus vendor device n =
    exists bus n && (vendor == config bus n 0 % 65536 && device == config bus n 0 / 65536)

-- The devices that are listed, from `n` on.
present : (ℕ → ℕ) → ℕ → ℕ → List (List ℕ)
present bus zero n = []
present bus (suc left) n =
    let rest = present bus left (n + 1) in
    if vendor_at bus n == 0xFFFF then rest else device_at bus n ∷ rest

no_more {ℓ} : {A : Type ℓ} (xs : List A) → length xs ≡ 0 → xs ≡ []
no_more [] h = refl
no_more (x ∷ xs) h = absurd (omega arith)

scan_loop-present :
    (bus : ℕ → ℕ) (left n : ℕ) (found : List (List ℕ))
    → length found + length (present bus left n) ≤ max_pci_device
    → scan_loop bus left n found ≡ found ++ present bus left n
unfolding scan_loop present
scan_loop-present bus zero n found h = sym (append-nil found)
scan_loop-present bus (suc left) n found h = elim (Bool-cases (vendor_at bus n == 0xFFFF)) [
  | inl absent ↦ rw absent (scan_loop-present bus left (n + 1) found (rw absent at h))
  | inr here ↦
      let count : length found + suc (length (present bus left (n + 1))) ≤ max_pci_device =
        rw here at h in
      let next = found ++ (device_at bus n ∷ []) in
      let size : length next ≡ length found + 1 = length-append found (device_at bus n ∷ []) in
      elim (Bool-cases (leb max_pci_device (length next))) [
        | inl full ↦
            let over : present bus left (n + 1) ≡ [] =
              no_more (present bus left (n + 1)) (ground (arith, size)) in
            rw (here, full, over) refl
        | inr space ↦
            rw (here, space)
              (scan_loop-present bus left (n + 1) next (omega (arith, size))
                ∙ append_assoc found (device_at bus n ∷ []) (present bus left (n + 1)))
      ]
]

-- Whether function `n` is the device that is asked for.
abbrev is_device : (ℕ → ℕ) → ℕ → ℕ → ℕ → Bool
is_device bus vendor device n =
    not (vendor_at bus n == 0xFFFF)
    && (vendor == vendor_id (device_at bus n) && device == device_id (device_at bus n))

find-present :
    (bus : ℕ → ℕ) (vendor device left n : ℕ)
    → Searched
        (is_device bus vendor device)
        n
        (n + left)
        (λ m. some (device_at bus m))
        none
        (pci_find_device (present bus left n) vendor device)
unfolding present pci_find_device
find-present bus vendor device zero n = Searched-empty _ _ _ n (n + 0) (omega arith) refl
find-present bus vendor device (suc left) n =
    let test = is_device bus vendor device in
    let answer : ℕ → Option (List ℕ) = λ m. some (device_at bus m) in
    let bound : n + 1 + left ≡ n + suc left = omega arith in
    let rest = find-present bus vendor device left (n + 1) in
    elim (Bool-cases (vendor_at bus n == 0xFFFF)) [
      | inl absent ↦
          rw absent
            (Searched-later test answer none n (n + suc left) (ground arith) (rw bound at rest))
      | inr here ↦
          elim (Bool-cases
            (vendor == vendor_id (device_at bus n) && device == device_id (device_at bus n))) [
              | inl hit ↦
                  rw (here, hit)
                    (Searched-here test answer none n (n + suc left) (omega arith) (ground arith)
                      refl)
              | inr miss ↦
                  rw (here, miss)
                    (Searched-later test answer none n (n + suc left) (ground arith)
                      (rw bound at rest))
            ]
    ]

length-present : (bus : ℕ → ℕ) (left n : ℕ) → length (present bus left n) ≡ functions bus left n
unfolding present functions pci_read_config
length-present bus zero n = refl
length-present bus (suc left) n = ground (arith, length-present bus left (n + 1))

-- If at most 16 functions exist on bus 0, that is have a vendor that is not 0xFFFF in the low half of
-- their first double word, `pci_find_device` answers after `pci_init` the first one, in the order of
-- slots and functions, that has the vendor and the device asked for, with its 16 double words, and NULL
-- if there is none.
pub pci_find_device-pci_init :
    (bus : ℕ → ℕ) (vendor device : ℕ)
    → functions bus 256 0 ≤ 16
    → Searched
        (has_ids bus vendor device)
        0
        256
        (λ n. some (header bus n))
        none
        (pci_find_device (pci_init bus) vendor device)
unfolding pci_init read_dwords pci_read_config
pci_find_device-pci_init bus vendor device few =
    rw (scan_loop-present bus 256 0 [] (omega (arith, few, length-present bus 256 0)))
      (find-present bus vendor device 256 0)
