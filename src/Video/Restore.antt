-- ===== src/Video/Restore.antt =====
-- The loop of Video.antt that draws the pixels behind the cursor again.
use nano_s.Prelude.{
  ℕ, zero, suc, ◌+◌, ◌-◌, ◌%◌, ◌^◌, ◌<◌, ◌≡◌, Bool, ◌&&◌, ◌==◌, refl, ◌∙◌, if◌then◌else◌, arith,
  u16, Bool-cases, inl, inr,
}
use nano_s.Video.{Video, pixel_addr, video_set_pixel, restore_loop}
use nano_s.Video.Pixels.{Synced, peek, Changed, video_set_pixel-Changed}
use nano_s.Video.Frame.{Frame, Frame-refl, Frame-trans, behind, within, base, base-Frame}

restore_one-peek :
    (width i : ℕ) (v : Video) (b : ℕ)
    → Synced v
    → v.cursor_buff_x + i < 2 ^ 16
    → behind v i < 256
    → peek (video_set_pixel width (u16 (v.cursor_buff_x + i)) v.cursor_buff_y (behind v i) v) b
      ≡ (if b == base width v + i then behind v i else peek v b)
restore_one-peek width i v b h room byte =
    let small : u16 (v.cursor_buff_x + i) ≡ v.cursor_buff_x + i = omega arith in
    let color : behind v i % 256 ≡ behind v i = omega arith in
    let addr : pixel_addr width v (v.cursor_buff_x + i) v.cursor_buff_y ≡ base width v + i =
      omega arith in
    let h' = video_set_pixel-Changed width (v.cursor_buff_x + i) v.cursor_buff_y (behind v i) v h in
    rw (small, h'.pixels b, addr, color) refl

same_at : (f : ℕ → ℕ) (i j : ℕ) (p q : Bool) → (if p && (i == j && q) then f i else f j) ≡ f j
same_at f i j p q = ground arith

restore_one-behind :
    (width i : ℕ) (v : Video) (j : ℕ)
    → Synced v
    → v.cursor_buff_x + i < 2 ^ 16
    → behind v i < 256
    → behind (video_set_pixel width (u16 (v.cursor_buff_x + i)) v.cursor_buff_y (behind v i) v) j
      ≡ behind v j
restore_one-behind width i v j h room byte =
    let small : u16 (v.cursor_buff_x + i) ≡ v.cursor_buff_x + i = omega arith in
    let color : behind v i % 256 ≡ behind v i = omega arith in
    let back : v.cursor_buff_x + i - v.cursor_buff_x ≡ i = omega arith in
    let h' = video_set_pixel-Changed width (v.cursor_buff_x + i) v.cursor_buff_y (behind v i) v h in
    rw (small, h'.buff j, back, color) (same_at (behind v) i j _ _)

within_from :
    (f : ℕ → ℕ) (from i n b d : ℕ)
    → (if within (from + (i + 1)) n b then f (b - from) else if b == from + i then f i else d)
      ≡ (if within (from + i) (suc n) b then f (b - from) else d)
within_from f from i n b d = elim (Bool-cases (b == from + i)) [
  | inl here ↦ let at : b - from ≡ i = ground arith in ground (arith, at)
  | inr there ↦ ground arith
]

Changed-Frame : (width x y c : ℕ) (v s : Video) → Changed width x y c v s → Frame v s
Changed-Frame width x y c v s h = record {
  synced = h.synced;
  window = h.window;
  shown = h.shown;
  buff_x = h.buff_x;
  buff_y = h.buff_y;
  size = h.size;
  blink = h.blink;
}

-- Drawing the buffer from `i` on.
pub restore_loop_lem :
    (width left i : ℕ) (v : Video)
    → Synced v
    → v.cursor_buff_x + i + left < 2 ^ 16
    → ((j : ℕ) → behind v j < 256)
    → let s = restore_loop width left i v in
      Frame v s
      × ((b : ℕ)
          → peek s b
            ≡ (if within (base width v + i) left b then behind v (b - base width v) else peek v b))
      × ((j : ℕ) → behind s j ≡ behind v j)
unfolding restore_loop
restore_loop_lem width zero i v h room bytes = (Frame-refl v h, (λ b. ground arith), λ j. refl)
restore_loop_lem width (suc left) i v h room bytes =
    let at = u16 (v.cursor_buff_x + i) in
    let u = video_set_pixel width at v.cursor_buff_y (behind v i) v in
    let f =
      Changed-Frame width at v.cursor_buff_y (behind v i) v u
        (video_set_pixel-Changed width at v.cursor_buff_y (behind v i) v h) in
    let kept : (j : ℕ) → behind u j ≡ behind v j =
      λ j. restore_one-behind width i v j h (omega (arith, room)) (bytes i) in
    let rest =
      restore_loop_lem width left (i + 1) u f.synced (omega (arith, room, f.buff_x))
        (λ j. rw (kept j) (bytes j)) in
    (
      Frame-trans v u (restore_loop width left (i + 1) u) f rest.0,
      (λ b.
          rest.1 b
          ∙ rw
              (
                base-Frame width v u f,
                kept (b - base width v),
                restore_one-peek width i v b h (omega (arith, room)) (bytes i),
              )
              (within_from (behind v) (base width v) i left b (peek v b))),
      λ j. rest.2 j ∙ kept j,
    )
