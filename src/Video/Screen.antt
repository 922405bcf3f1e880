-- ===== src/Video/Screen.antt =====
-- That the emulated cursor of Video.antt never changes what is on the screen without it.
use nano_s.Prelude.{
  ℕ, ◌+◌, ◌-◌, ◌*◌, ◌^◌, ◌<◌, ◌≡◌, Bool, ◌&&◌, ◌||◌, not, ◌==◌, refl, ◌∙◌, sym, if◌then◌else◌,
  arith, u16, sub16, Bool-cases, inl, inr, true, false,
}
use nano_s.Video.{
  Video, def_text, update_cursor_buffer, draw_cursor_buffer, draw_cursor, video_show_cursor,
  video_hide_cursor, video_blink_cursor, video_set_cursor_pos, place_cursor,
}
use nano_s.Video.Pixels.{peek}
use nano_s.Video.Frame.{Frame, base, base-Frame, behind, within}
use nano_s.Video.Cursor.{
  screen, Sound, Clean, Settled, update_cursor_buffer_lem, draw_cursor_buffer_lem, draw_cursor_lem,
}

-- The screen stays, and so does what the buffer is for.
abbrev pub Keeps : ℕ → Video → Video → Type 0
Keeps width v s = Settled width s × ((b : ℕ) → screen width s b ≡ screen width v b)

Sound-shown : (n : ℕ) (v : Video) → Sound v → Sound (record v { cursor_shown = n })
Sound-shown n v h = record {
  synced = h.synced;
  size = h.size;
  room = h.room;
  bytes = h.bytes;
  card = h.card;
}

Sound-blink : (n : ℕ) (v : Video) → Sound v → Sound (record v { cursor_blink_state = n })
Sound-blink n v h = record {
  synced = h.synced;
  size = h.size;
  room = h.room;
  bytes = h.bytes;
  card = h.card;
}

-- While the bar is not drawn, the card has the screen.
screen-clean :
    (width : ℕ) (v : Video) (b : ℕ)
    → Settled width v
    → (not (v.cursor_shown == 0) && not (v.cursor_blink_state == 0)) ≡ false
    → screen width v b ≡ peek v b
screen-clean width v b (h, clean) rest =
    elim (Bool-cases (not (v.cursor_shown == 0) && within (base width v) 6 b)) [
      | inl q ↦
          let quiet : (not (v.cursor_shown == 0) && v.cursor_blink_state == 0) ≡ true =
            ground arith in
          let near : within (base width v) 6 b ≡ true = ground arith in rw q (clean quiet b near)
      | inr q ↦ rw q refl
    ]

-- If the buffer has what the card has, so has the screen.
screen-Clean : (width : ℕ) (s : Video) (b : ℕ) → Clean width s → screen width s b ≡ peek s b
screen-Clean width s b clean =
    elim (Bool-cases (not (s.cursor_shown == 0) && within (base width s) 6 b)) [
      | inl q ↦ let near : within (base width s) 6 b ≡ true = ground arith in rw q (clean b near)
      | inr q ↦ rw q refl
    ]

if_outer : (c : Bool) (x y z : ℕ) → (if c then x else if c then y else z) ≡ (if c then x else z)
if_outer c x y z = ground arith

screen-Frame :
    (width : ℕ) (v s : Video) (f : ℕ → ℕ) (b : ℕ)
    → Frame v s
    → (v.cursor_shown == 0) ≡ false
    → ((b : ℕ) → peek s b ≡ (if within (base width v) 6 b then f b else peek v b))
    → ((j : ℕ) → behind s j ≡ behind v j)
    → screen width s b ≡ screen width v b
screen-Frame width v s f b frame on drawn kept =
    rw (frame.shown, base-Frame width v s frame, on, drawn b, kept (b - base width v))
      (if_outer (within (base width v) 6 b) (behind v (b - base width v)) (f b) (peek v b))

pub video_show_cursor-Keeps :
    (width : ℕ) (v : Video) → Settled width v → Keeps width v (video_show_cursor width v)
unfolding video_show_cursor
video_show_cursor-Keeps width v (h, clean) =
    elim (Bool-cases (v.cursor_shown == 0 || v.cursor_blink_state == 0)) [
      | inl rest ↦
          let (f, same, fresh, sound) = update_cursor_buffer_lem width v h in
          let s = update_cursor_buffer width v in
          rw rest (
            (Sound-shown 1 s sound, λ q. fresh),
            λ b.
                screen-Clean width (record s { cursor_shown = 1 }) b fresh
                ∙ same b
                ∙ sym (screen-clean width v b (h, clean) (ground arith)),
          )
      | inr drawn ↦ rw drawn ((Sound-shown 1 v h, λ q. absurd (ground arith)), λ b. ground arith)
    ]

pub video_hide_cursor-Keeps :
    (width : ℕ) (v : Video) → Settled width v → Keeps width v (video_hide_cursor width v)
unfolding video_hide_cursor
video_hide_cursor-Keeps width v (h, clean) =
    elim (Bool-cases (not (v.cursor_shown == 0) && not (v.cursor_blink_state == 0))) [
      | inl on ↦
          let (f, drawn, kept, sound) = draw_cursor_buffer_lem width v h in
          let s = draw_cursor_buffer width v in
          let shown : (v.cursor_shown == 0) ≡ false = ground arith in
          rw on ((Sound-shown 0 s sound, λ q. absurd (ground arith)), λ b. drawn b ∙ rw shown refl)
      | inr rest ↦ rw rest (
        (Sound-shown 0 v h, λ q. absurd (ground arith)),
        λ b. sym (screen-clean width v b (h, clean) rest),
      )
    ]

blink_off-Keeps :
    (width : ℕ) (v : Video)
    → Sound v
    → (v.cursor_shown == 0) ≡ false
    → Keeps width v (draw_cursor_buffer width v)
blink_off-Keeps width v h on =
    let (f, drawn, kept, sound) = draw_cursor_buffer_lem width v h in
    let s = draw_cursor_buffer width v in
    (
      (
        sound,
        λ q b near.
            let near' : within (base width v) 6 b ≡ true = rw (base-Frame width v s f) at near in
            rw (base-Frame width v s f, kept (b - base width v), drawn b, near') refl,
      ),
      λ b. screen-Frame width v s (λ b. behind v (b - base width v)) b f on drawn kept,
    )

blink_on-Keeps :
    (width : ℕ) (v : Video)
    → Sound v
    → (v.cursor_shown == 0) ≡ false
    → (v.cursor_blink_state == 0) ≡ false
    → Keeps width v (draw_cursor width v.cursor_buff_x v.cursor_buff_y def_text v)
blink_on-Keeps width v h on blink =
    let (f, drawn, kept, sound) = draw_cursor_lem width v h in
    let s = draw_cursor width v.cursor_buff_x v.cursor_buff_y def_text v in
    (
      (sound, λ q. let lit = f.blink in absurd (ground arith)),
      λ b. screen-Frame width v s (λ b. def_text) b f on drawn kept,
    )

pub video_blink_cursor-Keeps :
    (width : ℕ) (v : Video) → Settled width v → Keeps width v (video_blink_cursor width v)
unfolding video_blink_cursor
video_blink_cursor-Keeps width v (h, clean) = elim (Bool-cases (v.cursor_shown == 1)) [
  | inl one ↦
      let blink = sub16 1 v.cursor_blink_state in
      let u : Video = record v { cursor_blink_state = blink } in
      let on : (v.cursor_shown == 0) ≡ false = ground arith in
      elim (Bool-cases (blink == 0)) [
        | inl off ↦ rw (one, off) (blink_off-Keeps width u (Sound-blink blink v h) on)
        | inr lit ↦ rw (one, lit) (blink_on-Keeps width u (Sound-blink blink v h) on lit)
      ]
  | inr none ↦ rw none ((h, clean), λ b. refl)
]

-- The cursor at another place of a card that has the screen.
place_cursor-Keeps :
    (width font_h col row : ℕ) (v : Video)
    → Sound v
    → u16 (col * 8 + 1) + 6 < 2 ^ 16
    → let s = place_cursor width font_h col row v in
      Settled width s × ((b : ℕ) → screen width s b ≡ peek v b)
place_cursor-Keeps width font_h col row v h room =
    let t : Video = record v {
      cursor_col = col;
      cursor_row = row;
      cursor_buff_x = u16 (col * 8 + 1);
      cursor_buff_y = sub16 (u16 ((row + 1) * font_h)) 1;
    } in
    let placed : Sound t = record {
      synced = h.synced;
      size = h.size;
      room = room;
      bytes = h.bytes;
      card = h.card;
    } in
    elim (Bool-cases (v.cursor_shown == 0)) [
      | inl off ↦ rw off ((placed, λ q. absurd (ground arith)), λ b. rw off refl)
      | inr on ↦
          let (f, same, fresh, sound) = update_cursor_buffer_lem width t placed in
          let s = update_cursor_buffer width t in
          rw on ((sound, λ q. fresh), λ b. screen-Clean width s b fresh ∙ same b)
    ]

pub video_set_cursor_pos-Keeps :
    (width font_h col row : ℕ) (v : Video)
    → Settled width v
    → u16 (col * 8 + 1) + 6 < 2 ^ 16
    → Keeps width v (video_set_cursor_pos width font_h col row v)
unfolding video_set_cursor_pos
video_set_cursor_pos-Keeps width font_h col row v (h, clean) room =
    elim (Bool-cases (col == v.cursor_col && row == v.cursor_row)) [
      | inl stays ↦ rw stays ((h, clean), λ b. refl)
      | inr moves ↦ elim (Bool-cases (v.cursor_shown == 0)) [
        | inl off ↦
            let (settled, there) = place_cursor-Keeps width font_h col row v h room in
            rw (moves, off) (settled, λ b. there b)
        | inr on ↦
            let (f, drawn, kept, sound) = draw_cursor_buffer_lem width v h in
            let (settled, there) =
              place_cursor-Keeps width font_h col row (draw_cursor_buffer width v) sound room in
            rw (moves, on) (settled, λ b. there b ∙ drawn b)
      ]
    ]
