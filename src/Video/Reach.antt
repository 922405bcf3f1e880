-- ===== src/Video/Reach.antt =====
-- The states of Video.antt that the operations of the cursor lead to.
use nano_s.Prelude.{ℕ, ◌+◌, ◌*◌, ◌^◌, ◌<◌, refl, ◌∙◌, u16}
use nano_s.Video.{
  Video, video_show_cursor, video_hide_cursor, video_blink_cursor, video_set_cursor_pos,
}
use nano_s.Video.Cursor.{Settled}
use nano_s.Video.Screen.{
  Keeps, video_show_cursor-Keeps, video_hide_cursor-Keeps, video_blink_cursor-Keeps,
  video_set_cursor_pos-Keeps,
}

-- One operation of the cursor. The cursor that is moved stays in the numbers of a word.
pub data CursorStep (width font_h : ℕ) : Video → Video → Type 0 where
  shows : (v : Video) → CursorStep width font_h v (video_show_cursor width v)
  hides : (v : Video) → CursorStep width font_h v (video_hide_cursor width v)
  blinks : (v : Video) → CursorStep width font_h v (video_blink_cursor width v)
  moves :
      (col row : ℕ) (v : Video)
      → u16 (col * 8 + 1) + 6 < 2 ^ 16
      → CursorStep width font_h v (video_set_cursor_pos width font_h col row v)

pub data CursorReached (width font_h : ℕ) (v : Video) : Video → Type 0 where
  here : CursorReached width font_h v v
  later :
      (s t : Video)
      → CursorReached width font_h v s
      → CursorStep width font_h s t
      → CursorReached width font_h v t

CursorStep-Keeps :
    (width font_h : ℕ) (s t : Video)
    → CursorStep width font_h s t
    → Settled width s
    → Keeps width s t
CursorStep-Keeps width font_h s t (shows v) h = video_show_cursor-Keeps width v h
CursorStep-Keeps width font_h s t (hides v) h = video_hide_cursor-Keeps width v h
CursorStep-Keeps width font_h s t (blinks v) h = video_blink_cursor-Keeps width v h
CursorStep-Keeps width font_h s t (moves col row v room) h =
    video_set_cursor_pos-Keeps width font_h col row v h room

-- Whatever sequence of showing, hiding, blinking and moving the cursor there has been, each as a
-- whole, the screen without the cursor, which is the buffer at the six pixels of a shown cursor
-- and the memory of the card elsewhere, is as before at every address. The state stays
-- well-formed: the card has the bank selected that current_bank tells, the buffer has six bytes,
-- the card has bytes, the cursor's pixels have numbers that fit words, and while the bar is not
-- drawn the buffer of a shown cursor has what the card has. Before, the state is well-formed, and
-- no place that the cursor is moved to has pixels past 2 ^ 16.
pub CursorReached-Keeps :
    (width font_h : ℕ) (v s : Video)
    → Settled width v
    → CursorReached width font_h v s
    → Keeps width v s
CursorReached-Keeps width font_h v s h here = (h, λ b. refl)
CursorReached-Keeps width font_h v s h (later u t r step) =
    let before = CursorReached-Keeps width font_h v u h r in
    let (settled, same) = CursorStep-Keeps width font_h u t step before.0 in
    (settled, λ b. same b ∙ before.1 b)
