-- ===== src/Video/Loops.antt =====
-- The loops over the six pixels of the cursor of Video.antt that draw the bar and read the card.
use nano_s.Prelude.{
  ℕ, zero, suc, ◌+◌, ◌*◌, ◌%◌, ◌^◌, ◌≤◌, ◌<◌, ◌≡◌, ◌==◌, refl, ◌∙◌, ap, if◌then◌else◌, arith, u16,
  length, get_or-set, length-set, set,
}
use nano_s.Video.{
  Video, pixel_addr, get_pixel, set_cursor_pixel, update_loop, bar_loop, store_pixel, load_pixel,
}
use nano_s.Video.Pixels.{Synced, peek, peek-store_pixel}
use nano_s.Video.Frame.{Frame, Frame-refl, Frame-trans, behind, within, base, base-Frame}

set_cursor_pixel-Frame :
    (width x y c : ℕ) (v : Video) → Synced v → Frame v (set_cursor_pixel width x y c v)
unfolding set_cursor_pixel store_pixel
set_cursor_pixel-Frame width x y c v h = record {
  synced = ground arith;
  window = ground arith;
  shown = ground arith;
  buff_x = ground arith;
  buff_y = ground arith;
  size = ground arith;
  blink = ground arith;
}

set_cursor_pixel-peek :
    (width x y c : ℕ) (v : Video) (b : ℕ)
    → Synced v
    → c < 256
    → peek (set_cursor_pixel width x y c v) b
      ≡ (if b == pixel_addr width v x y then c else peek v b)
unfolding set_cursor_pixel
set_cursor_pixel-peek width x y c v b h byte =
    let color : c % 256 ≡ c = omega arith in
    peek-store_pixel (pixel_addr width v x y) c v b h ∙ rw color refl

set_cursor_pixel-behind :
    (width x y c : ℕ) (v : Video) (i : ℕ) → behind (set_cursor_pixel width x y c v) i ≡ behind v i
unfolding set_cursor_pixel store_pixel
set_cursor_pixel-behind width x y c v i = ground arith

-- A pixel at the start and the ones behind it.
within-suc :
    (from n b c d : ℕ)
    → (if within (suc from) n b then c else if b == from then c else d)
      ≡ (if within from (suc n) b then c else d)
within-suc from n b c d = ground arith

-- The first index and the ones behind it.
within_first :
    (f : ℕ → ℕ) (i n j d : ℕ)
    → (if within (i + 1) n j then f j else if j == i then f i else d)
      ≡ (if within i (suc n) j then f j else d)
within_first f i n j d = ground arith

-- The bar has `left` pixels of the color; the buffer stays.
pub bar_loop_lem :
    (width left x y c : ℕ) (v : Video)
    → Synced v
    → c < 256
    → let s = bar_loop width left x y c v in
      Frame v s
      × ((b : ℕ) → peek s b ≡ (if within (pixel_addr width v x y) left b then c else peek v b))
      × ((i : ℕ) → behind s i ≡ behind v i)
unfolding bar_loop
bar_loop_lem width zero x y c v h byte = (Frame-refl v h, (λ b. ground arith), λ i. refl)
bar_loop_lem width (suc left) x y c v h byte =
    let u = set_cursor_pixel width x y c v in
    let f = set_cursor_pixel-Frame width x y c v h in
    let rest = bar_loop_lem width left (x + 1) y c u f.synced byte in
    let next : pixel_addr width u (x + 1) y ≡ suc (pixel_addr width v x y) =
      omega (arith, ap (λ (w : ℕ). x + width * u16 (y + w)) f.window) in
    (
      Frame-trans v u (bar_loop width left (x + 1) y c u) f rest.0,
      (λ b.
          rest.1 b
          ∙ rw (next, set_cursor_pixel-peek width x y c v b h byte)
              (within-suc (pixel_addr width v x y) left b c (peek v b))),
      λ i. rest.2 i ∙ set_cursor_pixel-behind width x y c v i,
    )

-- A pixel of the card into the buffer.
abbrev take_pixel : ℕ → ℕ → Video → Video
take_pixel i addr v =
    let (c, r) = load_pixel addr v in record r { cursor_buff = set r.cursor_buff i c }

take_pixel-Frame : (i addr : ℕ) (v : Video) → Synced v → Frame v (take_pixel i addr v)
unfolding load_pixel
take_pixel-Frame i addr v h = record {
  synced = ground arith;
  window = ground arith;
  shown = ground arith;
  buff_x = ground arith;
  buff_y = ground arith;
  size = ground (arith, length-set v.cursor_buff i (peek v addr));
  blink = ground arith;
}

take_pixel-peek : (i addr : ℕ) (v : Video) (b : ℕ) → peek (take_pixel i addr v) b ≡ peek v b
unfolding load_pixel
take_pixel-peek i addr v b = ground arith

take_pixel-behind :
    (i addr : ℕ) (v : Video) (j : ℕ)
    → Synced v
    → i < length v.cursor_buff
    → behind (take_pixel i addr v) j ≡ (if j == i then peek v addr else behind v j)
unfolding load_pixel
take_pixel-behind i addr v j h size = ground (arith, get_or-set v.cursor_buff i j (peek v addr) 0)

-- Reading the pixels behind the cursor into the buffer from `i` on.
pub update_loop_lem :
    (width left i : ℕ) (v : Video)
    → Synced v
    → v.cursor_buff_x + i + left < 2 ^ 16
    → i + left ≤ length v.cursor_buff
    → let s = update_loop width left i v in
      Frame v s
      × ((b : ℕ) → peek s b ≡ peek v b)
      × ((j : ℕ) → behind s j ≡ (if within i left j then peek v (base width v + j) else behind v j))
unfolding update_loop get_pixel
update_loop_lem width zero i v h room size = (Frame-refl v h, (λ b. refl), λ j. ground arith)
update_loop_lem width (suc left) i v h room size =
    let addr = pixel_addr width v (u16 (v.cursor_buff_x + i)) v.cursor_buff_y in
    let small : u16 (v.cursor_buff_x + i) ≡ v.cursor_buff_x + i = omega (arith, room) in
    let place : addr ≡ base width v + i = omega (arith, small) in
    let u = take_pixel i addr v in
    let f = take_pixel-Frame i addr v h in
    let rest =
      update_loop_lem width left (i + 1) u f.synced (omega (arith, room, f.buff_x))
        (omega (arith, size, f.size)) in
    (
      Frame-trans v u (update_loop width left (i + 1) u) f rest.0,
      (λ b. rest.1 b ∙ take_pixel-peek i addr v b),
      λ j.
          rest.2 j
          ∙ rw
              (
                base-Frame width v u f,
                take_pixel-peek i addr v (base width v + j),
                take_pixel-behind i addr v j h (omega (arith, size)),
                place,
              )
              (within_first (λ (t : ℕ). peek v (base width v + t)) i left j (behind v j)),
    )
