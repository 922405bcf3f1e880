-- ===== src/Video/Frame.antt =====
-- What reading and writing pixels leaves of the state of Video.antt, and the pixels of its cursor.
use nano_s.Prelude.{ℕ, ◌+◌, ◌≡◌, Bool, ◌&&◌, ltb, leb, refl, ◌∙◌, length, get_or}
use nano_s.Video.{Video, pixel_addr}
use nano_s.Video.Pixels.{Synced}

-- What stays when pixels are read or written.
pub record Frame (v s : Video) : Type 0 where
  pub synced : Synced s
  pub window : s.video_window_y ≡ v.video_window_y
  pub shown : s.cursor_shown ≡ v.cursor_shown
  pub buff_x : s.cursor_buff_x ≡ v.cursor_buff_x
  pub buff_y : s.cursor_buff_y ≡ v.cursor_buff_y
  pub size : length s.cursor_buff ≡ length v.cursor_buff
  pub blink : s.cursor_blink_state ≡ v.cursor_blink_state

pub Frame-refl : (v : Video) → Synced v → Frame v v
Frame-refl v h = record {
  synced = h;
  window = refl;
  shown = refl;
  buff_x = refl;
  buff_y = refl;
  size = refl;
  blink = refl;
}

pub Frame-trans : (u v s : Video) → Frame u v → Frame v s → Frame u s
Frame-trans u v s f g = record {
  synced = g.synced;
  window = g.window ∙ f.window;
  shown = g.shown ∙ f.shown;
  buff_x = g.buff_x ∙ f.buff_x;
  buff_y = g.buff_y ∙ f.buff_y;
  size = g.size ∙ f.size;
  blink = g.blink ∙ f.blink;
}

-- The color in the buffer of the cursor.
abbrev pub behind : Video → ℕ → ℕ
behind v i = get_or v.cursor_buff i 0

abbrev pub within : ℕ → ℕ → ℕ → Bool
within from n b = leb from b && ltb b (from + n)

-- The address of the first pixel of the cursor.
abbrev pub base : ℕ → Video → ℕ
base width v = pixel_addr width v v.cursor_buff_x v.cursor_buff_y

pub base-Frame : (width : ℕ) (v s : Video) → Frame v s → base width s ≡ base width v
base-Frame width v s f = rw (f.buff_x, f.buff_y, f.window) refl
