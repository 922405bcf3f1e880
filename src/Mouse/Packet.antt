-- ===== src/Mouse/Packet.antt =====
-- What a packet does to the state of Mouse.antt.
use nano_s.Prelude.{ℕ, ◌+◌, ◌-◌, ◌≤◌, ◌<◌, ◌≡◌, ltb, if◌then◌else◌, min, arith, refl, u16}
use nano_s.Mouse.{Mouse, mouse_handler, clamp_to, signed_word}

-- A coordinate that is moved by a signed byte, between 0 and `limit`.
abbrev pub moved_up : ℕ → ℕ → ℕ → ℕ
moved_up limit v d = if ltb d 0x80 then min (v + d) limit else v - (0x100 - d)

abbrev pub moved_down : ℕ → ℕ → ℕ → ℕ
moved_down limit v d = if ltb d 0x80 then v - d else min (v + (0x100 - d)) limit

clamp_to-add :
    (limit v d : ℕ)
    → v ≤ limit
    → limit < 0x7F00
    → d < 0x100
    → clamp_to limit (u16 (v + signed_word d)) ≡ moved_up limit v d
clamp_to-add limit v d le small byte = ground arith

clamp_to-sub :
    (limit v d : ℕ)
    → v ≤ limit
    → limit < 0x7F00
    → d < 0x100
    → clamp_to limit (u16 (v + 0x10000 - signed_word d)) ≡ moved_down limit v d
clamp_to-sub limit v d le small byte = ground arith

-- Three bytes of a packet move the pointer by the signed distances in the second and the third, to the
-- right and upwards, and no further than to the edges of the screen; the first byte has the buttons,
-- and the handler waits for the next packet.
pub mouse_handler-packet :
    (width height b0 b1 b2 : ℕ) (m : Mouse)
    → m.mouse_cycle ≡ 0
    → m.mouse_x ≤ width
    → m.mouse_y ≤ height
    → width < 0x7F00
    → height < 0x7F00
    → b1 < 0x100
    → b2 < 0x100
    → let handle = mouse_handler width height in
      let after = handle b2 (handle b1 (handle b0 m)) in
      (after.mouse_x ≡ moved_up width m.mouse_x b1)
      × (after.mouse_y ≡ moved_down height m.mouse_y b2)
      × (after.mouse_b ≡ b0)
      × (after.mouse_cycle ≡ 0)
unfolding mouse_handler
mouse_handler-packet width height b0 b1 b2 m start in_x in_y w h l1 l2 = rw start (
  clamp_to-add width m.mouse_x b1 in_x w l1,
  clamp_to-sub height m.mouse_y b2 in_y h l2,
  refl,
  refl,
)
