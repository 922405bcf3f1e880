-- ===== src/Video/Tests.antt =====
-- Pixels and a blink of the cursor of Video.antt.
use nano_s.Prelude.{◌-◌, get_or, ℕ, ◌+◌, ◌*◌, true, ◌≡◌, refl, [], ◌∷◌, arith}
use nano_s.Video.{
  Video, get_pixel, video_set_pixel, video_blink_cursor, video_hide_cursor, video_set_cursor_pos,
  draw_cursor_buffer, draw_cursor, bar_loop, restore_loop, store_pixel, set_cursor_pixel,
}
use nano_s.Video.Pixels.{get_pixel-video_set_pixel}
use nano_s.Video.Frame.{base}
use nano_s.Video.Cursor.{Settled}
use nano_s.Video.Screen.{Keeps}
use nano_s.Video.Reach.{CursorReached-Keeps, here, later, blinks, moves, hides}

-- A black screen with the cursor at its top left corner.
abbrev black : Video
black = record {
  vram = λ bank offset. 0;
  selected = 0;
  current_bank = 0;
  video_window_y = 0;
  cursor_col = 0;
  cursor_row = 0;
  cursor_shown = 1;
  cursor_buff = 0 ∷ 0 ∷ 0 ∷ 0 ∷ 0 ∷ 0 ∷ [];
  cursor_buff_x = 1;
  cursor_buff_y = 7;
  cursor_blink_state = 0;
}

get_pixel-video_set_pixel_example : (get_pixel 800 3 7 true (video_set_pixel 800 3 7 4 black)).0 ≡ 4
get_pixel-video_set_pixel_example =
    get_pixel-video_set_pixel 800 3 7 4 3 7 black refl (omega arith) (omega arith) (omega arith)
      (omega arith) (omega arith) refl (omega arith)

-- The first blink draws the bar, the second one takes it away.
abbrev bar_pixel : Video → ℕ
bar_pixel v = v.vram 0 (3 + 800 * 7)

blink_on : bar_pixel (video_blink_cursor 800 black) ≡ 7
unfolding video_blink_cursor draw_cursor bar_loop set_cursor_pixel store_pixel draw_cursor_buffer
    restore_loop video_set_pixel
blink_on = refl

blink_off : bar_pixel (video_blink_cursor 800 (video_blink_cursor 800 black)) ≡ 0
unfolding video_blink_cursor draw_cursor bar_loop set_cursor_pixel store_pixel draw_cursor_buffer
    restore_loop video_set_pixel
blink_off = refl

black_byte : (j : ℕ) → get_or black.cursor_buff j 0 ≡ 0
black_byte j = ground arith

black-Settled : Settled 800 black
black-Settled = (
  record {
    synced = refl;
    size = refl;
    room = omega arith;
    bytes = λ j. rw (black_byte j) (omega arith);
    card = λ b. omega arith;
  },
  λ q b near. black_byte (b - base 800 black),
)

-- The cursor blinks, moves to the third column and is hidden.
CursorReached-Keeps_example :
    Keeps 800 black
      (video_hide_cursor 800 (video_set_cursor_pos 800 8 2 0 (video_blink_cursor 800 black)))
CursorReached-Keeps_example =
    let blinked = video_blink_cursor 800 black in
    let moved = video_set_cursor_pos 800 8 2 0 blinked in
    CursorReached-Keeps 800 8 black (video_hide_cursor 800 moved) black-Settled (
      later moved (video_hide_cursor 800 moved)
        (later blinked moved (later black blinked here (blinks black))
          (moves 2 0 blinked (omega arith)))
        (hides moved))
