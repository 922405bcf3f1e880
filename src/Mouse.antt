-- ===== src/Mouse.antt =====
-- The mouse, source/kernel.c: `mouse_handler`, which gets a byte of a packet of three with each
-- interrupt.
pub mod Packet
mod Tests
use nano_s.Prelude.{ℕ, ◌+◌, ◌-◌, ◌≤◌, ◌==◌, ltb, leb, if◌then◌else◌, u16}

-- The static variables of the handler, and the globals `mouse_x`, `mouse_y` and `mouse_b`.
pub record Mouse : Type 0 where
  pub mouse_cycle : ℕ
  pub byte0 : ℕ
  pub byte1 : ℕ
  pub mouse_x : ℕ
  pub mouse_y : ℕ
  pub mouse_b : ℕ

-- `m >= 0x80 ? m-0x100 : m` as a word; a `char` is unsigned here, as that test supposes.
abbrev pub signed_word : ℕ → ℕ
signed_word m = if leb 0x80 m then 0x10000 + m - 0x100 else m

-- Clamp to the screen, which ends at `limit`: the width or the height in pixels or in characters.
abbrev pub clamp_to : ℕ → ℕ → ℕ
clamp_to limit v = if leb 0x8000 v then 0 else if ltb limit v then limit else v

-- The state after the byte `b`.
unfoldable pub mouse_handler : ℕ → ℕ → ℕ → Mouse → Mouse
mouse_handler width height b m =
    if m.mouse_cycle == 0
    then record m { byte0 = b; mouse_cycle = 1 }
    else if m.mouse_cycle == 1
    then record m { byte1 = b; mouse_cycle = 2 }
    else if m.mouse_cycle == 2
    then record m {
      mouse_cycle = 0;
      mouse_b = m.byte0;
      mouse_x = clamp_to width (u16 (m.mouse_x + signed_word m.byte1));
      mouse_y = clamp_to height (u16 (m.mouse_y + 0x10000 - signed_word b));
    }
    else record m { mouse_cycle = 0 }
