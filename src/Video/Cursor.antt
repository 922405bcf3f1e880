-- ===== src/Video/Cursor.antt =====
-- What is on the screen of Video.antt without its cursor, and that the cursor never changes it.
use nano_s.Prelude.{
  ℕ, ◌+◌, ◌-◌, ◌^◌, ◌<◌, ◌≡◌, Bool, ◌&&◌, not, ◌==◌, refl, ◌∙◌, if◌then◌else◌, arith, u16, length,
  true,
}
use nano_s.Video.{Video, def_text, bar_loop, update_cursor_buffer, draw_cursor_buffer, draw_cursor}
use nano_s.Video.Pixels.{Synced, peek}
use nano_s.Video.Frame.{Frame, base, base-Frame, behind, within}
use nano_s.Video.Restore.{restore_loop_lem}
use nano_s.Video.Loops.{update_loop_lem, bar_loop_lem}

-- The color at an address of the card without the cursor.
abbrev pub screen : ℕ → Video → ℕ → ℕ
screen width v b =
    if not (v.cursor_shown == 0) && within (base width v) 6 b
    then behind v (b - base width v)
    else peek v b

-- The bytes are bytes, and the six pixels of the cursor have numbers below 2 ^ 16.
pub record Sound (v : Video) : Type 0 where
  pub synced : Synced v
  pub size : length v.cursor_buff ≡ 6
  pub room : v.cursor_buff_x + 6 < 2 ^ 16
  pub bytes : (j : ℕ) → behind v j < 256
  pub card : (b : ℕ) → peek v b < 256

-- The buffer has what the card has.
abbrev pub Clean : ℕ → Video → Type 0
Clean width v = (b : ℕ) → within (base width v) 6 b ≡ true → behind v (b - base width v) ≡ peek v b

-- While the bar is not drawn, the buffer has what the card has.
abbrev pub Settled : ℕ → Video → Type 0
Settled width v =
    Sound v × (not (v.cursor_shown == 0) && v.cursor_blink_state == 0 ≡ true → Clean width v)

if_lt : (c : Bool) (x y n : ℕ) → x < n → y < n → (if c then x else y) < n
if_lt c x y n p q = ground arith

-- The bytes of what comes from `v` with other colors.
Sound-Frame :
    (v s : Video)
    → Sound v
    → Frame v s
    → ((j : ℕ) → behind s j < 256)
    → ((b : ℕ) → peek s b < 256)
    → Sound s
Sound-Frame v s h f bytes card = record {
  synced = f.synced;
  size = f.size ∙ h.size;
  room = omega (arith, f.buff_x, h.room);
  bytes = bytes;
  card = card;
}

Clean-taken :
    (width : ℕ) (v s : Video)
    → Frame v s
    → ((b : ℕ) → peek s b ≡ peek v b)
    → ((j : ℕ) → behind s j ≡ (if within 0 6 j then peek v (base width v + j) else behind v j))
    → Clean width s
Clean-taken width v s f same read b q =
    let start = base-Frame width v s f in
    let q' : within (base width v) 6 b ≡ true = rw start at q in
    let back : base width v + (b - base width v) ≡ b = ground arith in
    let near : within 0 6 (b - base width v) ≡ true = ground arith in
    rw (start, read (b - base width v), near, back, same b) refl

pub update_cursor_buffer_lem :
    (width : ℕ) (v : Video)
    → Sound v
    → let s = update_cursor_buffer width v in
      Frame v s × ((b : ℕ) → peek s b ≡ peek v b) × Clean width s × Sound s
unfolding update_cursor_buffer
update_cursor_buffer_lem width v h =
    let (f, same, read) =
      update_loop_lem width 6 0 v h.synced (omega (arith, h.room)) (omega (arith, h.size)) in
    (
      f,
      same,
      Clean-taken width v _ f same read,
      Sound-Frame v _ h f
          (λ j. rw (read j) (
            if_lt (within 0 6 j) (peek v (base width v + j)) (behind v j) 256 (h.card _)
              (h.bytes j)))
          λ b. rw (same b) (h.card b),
    )

drawn_from :
    (width n : ℕ) (v s : Video) (f : ℕ → ℕ)
    → n ≡ base width v
    → Sound v
    → Frame v s
    → ((j : ℕ) → f j < 256)
    → ((b : ℕ) → peek s b ≡ (if within n 6 b then f b else peek v b))
    → ((j : ℕ) → behind s j ≡ behind v j)
    → Frame v s
      × ((b : ℕ) → peek s b ≡ (if within (base width v) 6 b then f b else peek v b))
      × ((j : ℕ) → behind s j ≡ behind v j)
      × Sound s
drawn_from width n v s f start h frame bytes drawn kept = (
  frame,
  (λ b. rw start at drawn b),
  kept,
  Sound-Frame v s h frame (λ j. rw (kept j) (h.bytes j))
      λ b. rw (drawn b) (if_lt (within n 6 b) (f b) (peek v b) 256 (bytes b) (h.card b)),
)

pub draw_cursor_buffer_lem :
    (width : ℕ) (v : Video)
    → Sound v
    → let s = draw_cursor_buffer width v in
      Frame v s
      × ((b : ℕ)
          → peek s b
            ≡ (if within (base width v) 6 b then behind v (b - base width v) else peek v b))
      × ((j : ℕ) → behind s j ≡ behind v j)
      × Sound s
unfolding draw_cursor_buffer
draw_cursor_buffer_lem width v h =
    let (f, drawn, kept) = restore_loop_lem width 6 0 v h.synced (omega (arith, h.room)) h.bytes in
    drawn_from width (base width v + 0) v _ (λ b. behind v (b - base width v)) (omega arith) h f
      (λ b. h.bytes _) drawn kept

bar_from :
    (width n : ℕ) (v : Video)
    → n ≡ 6
    → Sound v
    → let s = bar_loop width n v.cursor_buff_x v.cursor_buff_y def_text v in
      Frame v s
      × ((b : ℕ) → peek s b ≡ (if within (base width v) 6 b then def_text else peek v b))
      × ((j : ℕ) → behind s j ≡ behind v j)
      × Sound s
bar_from width n v six h =
    let (f, drawn, kept) =
      bar_loop_lem width n v.cursor_buff_x v.cursor_buff_y def_text v h.synced (omega arith) in
    drawn_from width (base width v) v _ (λ b. def_text) refl h f (λ b. omega arith)
      (λ b. drawn b ∙ rw six refl) kept

pub draw_cursor_lem :
    (width : ℕ) (v : Video)
    → Sound v
    → let s = draw_cursor width v.cursor_buff_x v.cursor_buff_y def_text v in
      Frame v s
      × ((b : ℕ) → peek s b ≡ (if within (base width v) 6 b then def_text else peek v b))
      × ((j : ℕ) → behind s j ≡ behind v j)
      × Sound s
unfolding draw_cursor
draw_cursor_lem width v h =
    bar_from width (u16 (v.cursor_buff_x + 6) - v.cursor_buff_x) v (omega (arith, h.room)) h
