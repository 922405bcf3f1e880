-- ===== src/Video/Pixels.antt =====
-- Reading and writing pixels of Video.antt, in the bank of the card where they are.
use nano_s.Prelude.{
  ℕ, ◌+◌, ◌-◌, ◌*◌, ◌/◌, ◌%◌, ◌^◌, ◌<◌, ◌≡◌, Bool, ap, true, ◌&&◌, ◌==◌, if◌then◌else◌, arith,
  Bool-cases, inl, inr, u16, dec_lt, length, get_or, get_or-set, length-set, ltb,
}
use nano_s.Video.{Video, store_pixel, load_pixel, pixel_addr, get_pixel, video_set_pixel, in_cursor}

-- The variable tells which bank the card has selected.
abbrev pub Synced : Video → Type 0
Synced v = v.selected ≡ v.current_bank

-- The byte of the card at a linear address.
abbrev pub peek : Video → ℕ → ℕ
peek v addr = v.vram (addr / 65536) (addr % 65536)

pub store_pixel-Synced : (addr c : ℕ) (v : Video) → Synced v → Synced (store_pixel addr c v)
unfolding store_pixel
store_pixel-Synced addr c v h = ground arith

pub peek-store_pixel :
    (addr c : ℕ) (v : Video) (b : ℕ)
    → Synced v
    → peek (store_pixel addr c v) b ≡ (if b == addr then c % 256 else peek v b)
unfolding store_pixel
peek-store_pixel addr c v b h = ground arith

pub load_pixel-peek : (addr : ℕ) (v : Video) → Synced v → (load_pixel addr v).0 ≡ peek v addr
unfolding load_pixel
load_pixel-peek addr v h = ground arith

row_lt : (width x x' r r' : ℕ) → x < width → r < r' → x + width * r < x' + width * r'
row_lt width x x' r r' p q = grind arith

pub pixel_eq :
    (width x x' r r' : ℕ)
    → x < width
    → x' < width
    → x + width * r ≡ x' + width * r'
    → (x ≡ x') × (r ≡ r')
pixel_eq width x x' r r' p q e = elim (dec_lt r r') [
  | yes lt ↦ absurd (omega (arith, row_lt width x x' r r' p lt))
  | no ge ↦ elim (dec_lt r' r) [
    | yes gt ↦ absurd (omega (arith, row_lt width x' x r' r q gt))
    | no le ↦
        let same : r ≡ r' = omega arith in (omega (arith, ap (λ (t : ℕ). width * t) same), same)
  ]
]

-- The fields that no access to the card changes.
pub store_pixel-fields :
    (addr c : ℕ) (v : Video)
    → let s = store_pixel addr c v in
      (s.video_window_y ≡ v.video_window_y)
      × (s.cursor_shown ≡ v.cursor_shown)
      × (s.cursor_buff ≡ v.cursor_buff)
      × (s.cursor_buff_x ≡ v.cursor_buff_x)
      × (s.cursor_buff_y ≡ v.cursor_buff_y)
      × (s.cursor_blink_state ≡ v.cursor_blink_state)
unfolding store_pixel
store_pixel-fields addr c v = ground arith

-- What `video_set_pixel` leaves.
pub record Changed (width x y c : ℕ) (v s : Video) : Type 0 where
  pub synced : Synced s
  pub pixels : (b : ℕ) → peek s b ≡ (if b == pixel_addr width v x y then c % 256 else peek v b)
  pub window : s.video_window_y ≡ v.video_window_y
  pub behind : (x' y' : ℕ) → in_cursor s x' y' ≡ in_cursor v x' y'
  pub buff_x : s.cursor_buff_x ≡ v.cursor_buff_x
  pub buff_y : s.cursor_buff_y ≡ v.cursor_buff_y
  pub shown : s.cursor_shown ≡ v.cursor_shown
  pub blink : s.cursor_blink_state ≡ v.cursor_blink_state
  pub size : length s.cursor_buff ≡ length v.cursor_buff
  pub buff :
      (i : ℕ)
      → get_or s.cursor_buff i 0 ≡ (
          if in_cursor v x y && (x - v.cursor_buff_x == i && ltb i (length v.cursor_buff))
          then c % 256
          else get_or v.cursor_buff i 0)

pub video_set_pixel-Changed :
    (width x y c : ℕ) (v : Video) → Synced v → Changed width x y c v (video_set_pixel width x y c v)
unfolding video_set_pixel store_pixel
video_set_pixel-Changed width x y c v h = record {
  synced = ground arith;
  pixels = λ b. ground arith;
  window = ground arith;
  behind = λ x' y'. ground arith;
  buff_x = ground arith;
  buff_y = ground arith;
  shown = ground arith;
  blink = ground arith;
  size = ground (arith, length-set v.cursor_buff (x - v.cursor_buff_x) (c % 256));
  buff = λ i. ground (arith, get_or-set v.cursor_buff (x - v.cursor_buff_x) i (c % 256) 0);
}

get_pixel-read :
    (width x y : ℕ) (v : Video)
    → Synced v
    → (get_pixel width x y true v).0 ≡ (
        if in_cursor v x y
        then get_or v.cursor_buff (x - v.cursor_buff_x) 0
        else peek v (pixel_addr width v x y))
unfolding get_pixel
get_pixel-read width x y v h = ground (arith, load_pixel-peek (pixel_addr width v x y) v h)

same_pixel :
    (width x y x' y' : ℕ) (v : Video)
    → x < width
    → x' < width
    → y + v.video_window_y < 2 ^ 16
    → y' + v.video_window_y < 2 ^ 16
    → (pixel_addr width v x' y' == pixel_addr width v x y) ≡ (x' == x && y' == y)
same_pixel width x y x' y' v x_lt x_lt' y_lt y_lt' =
    let row : u16 (y + v.video_window_y) ≡ y + v.video_window_y = omega arith in
    let row' : u16 (y' + v.video_window_y) ≡ y' + v.video_window_y = omega arith in
    let unequal = pixel_eq width x' x (y' + v.video_window_y) (y + v.video_window_y) x_lt' x_lt in
    elim (Bool-cases (x' == x && y' == y)) [
      | inl same ↦
          let col : x' ≡ x = ground arith in
          let line : y' ≡ y = ground arith in rw (same, col, line) (ground arith)
      | inr other ↦ rw (row, row', other) (ground (arith, unequal))
    ]

same_buffer :
    (x y x' y' c d : ℕ) (v : Video)
    → in_cursor v x' y' ≡ true
    → length v.cursor_buff ≡ 6
    → v.cursor_buff_x + 6 < 2 ^ 16
    → (if in_cursor v x y
          && (x - v.cursor_buff_x == x' - v.cursor_buff_x
              && ltb (x' - v.cursor_buff_x) (length v.cursor_buff))
        then c
        else d)
      ≡ (if x' == x && y' == y then c else d)
same_buffer x y x' y' c d v covered six room = ground (arith, covered, six)

-- If the card has the bank selected that current_bank tells, what is read at a pixel after
-- another has been set is the color that was set, if it is the same pixel, and what was read
-- before, if not. This holds behind the cursor too, where the buffer of the cursor is read, and
-- across banks, for pixels whose columns are below the width and whose rows in the memory of the
-- card are below 2 ^ 16, a color below 256, and a cursor whose buffer has six bytes and whose
-- pixels have numbers below 2 ^ 16.
pub get_pixel-video_set_pixel :
    (width x y c x' y' : ℕ) (v : Video)
    → Synced v
    → x < width
    → x' < width
    → y + v.video_window_y < 2 ^ 16
    → y' + v.video_window_y < 2 ^ 16
    → c < 256
    → length v.cursor_buff ≡ 6
    → v.cursor_buff_x + 6 < 2 ^ 16
    → (get_pixel width x' y' true (video_set_pixel width x y c v)).0
      ≡ (if x' == x && y' == y then c else (get_pixel width x' y' true v).0)
get_pixel-video_set_pixel width x y c x' y' v synced x_lt x_lt' y_lt y_lt' byte six room =
    let s = video_set_pixel width x y c v in
    let h = video_set_pixel-Changed width x y c v synced in
    let color : c % 256 ≡ c = omega arith in
    let window : pixel_addr width s x' y' ≡ pixel_addr width v x' y' =
      ap (λ (w : ℕ). x' + width * u16 (y' + w)) h.window in
    let read = get_pixel-read width x' y' s h.synced in
    let before = get_pixel-read width x' y' v synced in
    elim (Bool-cases (in_cursor v x' y')) [
      | inl covered ↦
          rw (read, before, h.behind x' y', covered, h.buff_x, h.buff (x' - v.cursor_buff_x), color)
            (same_buffer x y x' y' c (get_or v.cursor_buff (x' - v.cursor_buff_x) 0) v covered six
              room)
      | inr free ↦
          rw
            (read, before, h.behind x' y', free, window, h.pixels (pixel_addr width v x' y'), color)
            (ap (λ (t : Bool). if t then c else peek v (pixel_addr width v x' y'))
              (same_pixel width x y x' y' v x_lt x_lt' y_lt y_lt'))
    ]
