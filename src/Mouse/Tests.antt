-- ===== src/Mouse/Tests.antt =====
-- A packet that moves the pointer to the left edge and down.
use nano_s.Prelude.{ℕ, ◌≡◌, refl, arith}
use nano_s.Mouse.{Mouse, mouse_handler}
use nano_s.Mouse.Packet.{moved_up, moved_down, mouse_handler-packet}

abbrev mouse : Mouse
mouse = record { mouse_cycle = 0; byte0 = 0; byte1 = 0; mouse_x = 10; mouse_y = 590; mouse_b = 0 }

mouse_handler-packet_example :
    let handle = mouse_handler 800 600 in
    let after = handle 0xEC (handle 0xF0 (handle 0x39 mouse)) in
    (after.mouse_x ≡ moved_up 800 10 0xF0)
    × (after.mouse_y ≡ moved_down 600 590 0xEC)
    × (after.mouse_b ≡ 0x39)
    × (after.mouse_cycle ≡ 0)
mouse_handler-packet_example =
    mouse_handler-packet 800 600 0x39 0xF0 0xEC mouse refl (omega arith) (omega arith) (omega arith)
      (omega arith) (omega arith) (omega arith)

edge : ◌≡◌ {A = ℕ} (moved_up 800 10 0xF0) 0
edge = refl

bottom : ◌≡◌ {A = ℕ} (moved_down 600 590 0xEC) 600
bottom = refl
