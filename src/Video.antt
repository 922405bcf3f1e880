-- ===== src/Video.antt =====
-- Pixels and the emulated cursor of the graphics mode, source/video.c. The memory of the card is seen
-- through a window of 64 KB, which `io_set_vesa_bank` moves. `width` is screen_width_px and `font_h`
-- is video_font_h.
pub mod Pixels
pub mod Frame
pub mod Loops
pub mod Restore
pub mod Cursor
pub mod Screen
pub mod Reach
mod Tests
use nano_s.Prelude.{
  ℕ, zero, suc, ◌+◌, ◌-◌, ◌*◌, ◌/◌, ◌%◌, Bool, true, false, ◌&&◌, ◌||◌, not, List, [], ◌∷◌, ◌==◌,
  ltb, leb, if◌then◌else◌, u16, sub16, get_or, set,
}

-- `vram` has the bytes of the card by bank and offset, `selected` is the bank in its window.
pub record Video : Type 0 where
  pub vram : ℕ → ℕ → ℕ
  pub selected : ℕ
  pub current_bank : ℕ
  pub video_window_y : ℕ
  pub cursor_col : ℕ
  pub cursor_row : ℕ
  pub cursor_shown : ℕ
  pub cursor_buff : List ℕ
  pub cursor_buff_x : ℕ
  pub cursor_buff_y : ℕ
  pub cursor_blink_state : ℕ

abbrev pub cursor_width : ℕ
cursor_width = 6

abbrev pub def_text : ℕ
def_text = 7

-- The card is asked to move its window only if it is not there.
abbrev pub switch_bank : ℕ → Video → Video
switch_bank bank v =
    if bank == v.current_bank then v else record v { selected = bank; current_bank = bank }

-- `lmem_setbyte` and `lmem_getbyte` at an offset in the window, after the switch.
unfoldable pub store_pixel : ℕ → ℕ → Video → Video
store_pixel addr c v =
    let s = switch_bank (addr / 65536) v in
    record s {
      vram = λ bank offset.
          if bank == s.selected && offset == addr % 65536 then c % 256 else s.vram bank offset;
    }

unfoldable pub load_pixel : ℕ → Video → ℕ × Video
load_pixel addr v = let s = switch_bank (addr / 65536) v in (s.vram s.selected (addr % 65536), s)

-- Whether a pixel is behind the cursor, which is shown.
abbrev pub in_cursor : Video → ℕ → ℕ → Bool
in_cursor v x y =
    (not (v.cursor_shown == 0) && leb v.cursor_buff_x x)
    && (ltb x (u16 (v.cursor_buff_x + cursor_width)) && y == v.cursor_buff_y)

module _ (width : ℕ) where
  -- The product of two words fits `ul_t`.
  abbrev pub pixel_addr : Video → ℕ → ℕ → ℕ
  pixel_addr v x y = x + width * u16 (y + v.video_window_y)

  unfoldable pub get_pixel : ℕ → ℕ → Bool → Video → ℕ × Video
  get_pixel x y read_cursor_buffer v =
      if read_cursor_buffer && in_cursor v x y
      then (get_or v.cursor_buff (x - v.cursor_buff_x) 0, v)
      else load_pixel (pixel_addr v x y) v

  unfoldable pub video_set_pixel : ℕ → ℕ → ℕ → Video → Video
  video_set_pixel x y c v =
      let s = store_pixel (pixel_addr v x y) c v in
      if in_cursor v x y
      then record s { cursor_buff = set v.cursor_buff (x - v.cursor_buff_x) (c % 256) }
      else s

  unfoldable pub set_cursor_pixel : ℕ → ℕ → ℕ → Video → Video
  set_cursor_pixel x y c v = store_pixel (pixel_addr v x y) c v

  -- The loop of `update_cursor_buffer` at `i`.
  unfoldable pub update_loop : ℕ → ℕ → Video → Video
  update_loop zero i v = v
  update_loop (suc left) i v =
      let (c, s) = get_pixel (u16 (v.cursor_buff_x + i)) v.cursor_buff_y false v in
      update_loop left (i + 1) (record s { cursor_buff = set s.cursor_buff i c })

  unfoldable pub update_cursor_buffer : Video → Video
  unfolding update_loop
  update_cursor_buffer v = update_loop cursor_width 0 v

  -- The loop of `draw_cursor_buffer` at `i`; `set_pixel` is the system call of `video_set_pixel`.
  unfoldable pub restore_loop : ℕ → ℕ → Video → Video
  restore_loop zero i v = v
  restore_loop (suc left) i v =
      restore_loop left (i + 1)
        (video_set_pixel (u16 (v.cursor_buff_x + i)) v.cursor_buff_y (get_or v.cursor_buff i 0) v)

  unfoldable pub draw_cursor_buffer : Video → Video
  unfolding restore_loop
  draw_cursor_buffer v = restore_loop cursor_width 0 v

  -- The loop of `draw_cursor` with `left` pixels to go.
  unfoldable pub bar_loop : ℕ → ℕ → ℕ → ℕ → Video → Video
  bar_loop zero i y c v = v
  bar_loop (suc left) i y c v = bar_loop left (i + 1) y c (set_cursor_pixel i y c v)

  -- The loop does nothing if its end is past the last word.
  unfoldable pub draw_cursor : ℕ → ℕ → ℕ → Video → Video
  unfolding bar_loop
  draw_cursor x y c v = bar_loop (u16 (x + cursor_width) - x) x y c v

  unfoldable pub video_show_cursor : Video → Video
  video_show_cursor v =
      let s =
        if v.cursor_shown == 0 || v.cursor_blink_state == 0 then update_cursor_buffer v else v in
      record s { cursor_shown = 1 }

  unfoldable pub video_hide_cursor : Video → Video
  video_hide_cursor v =
      let s =
        if not (v.cursor_shown == 0) && not (v.cursor_blink_state == 0)
        then draw_cursor_buffer v
        else v in
      record s { cursor_shown = 0 }

  -- The timer of the blinking is not modelled, nor is the interrupt of the timer that calls this.
  unfoldable pub video_blink_cursor : Video → Video
  video_blink_cursor v =
      let blink = sub16 1 v.cursor_blink_state in
      let s = record v { cursor_blink_state = blink } in
      let off = draw_cursor_buffer s in
      let on = draw_cursor v.cursor_buff_x v.cursor_buff_y def_text s in
      if v.cursor_shown == 1 then if blink == 0 then off else on else v

module _ (width font_h : ℕ) where
  -- The cursor at another place, with the pixels behind it.
  abbrev pub place_cursor : ℕ → ℕ → Video → Video
  place_cursor col row v =
      let s = record v {
        cursor_col = col;
        cursor_row = row;
        cursor_buff_x = u16 (col * 8 + 1);
        cursor_buff_y = sub16 (u16 ((row + 1) * font_h)) 1;
      } in
      if v.cursor_shown == 0 then s else update_cursor_buffer width s

  unfoldable pub video_set_cursor_pos : ℕ → ℕ → Video → Video
  video_set_cursor_pos col row v =
      let s = if v.cursor_shown == 0 then v else draw_cursor_buffer width v in
      if col == v.cursor_col && row == v.cursor_row then v else place_cursor col row s

  unfoldable pub set_cursor_pos_fast : ℕ → ℕ → Video → Video
  set_cursor_pos_fast col row v =
      if col == v.cursor_col && row == v.cursor_row then v else place_cursor col row v
