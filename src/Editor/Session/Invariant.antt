-- ===== src/Editor/Session/Invariant.antt =====
-- What every turn of the editor's loop keeps: the state of Editor/Session.antt stays valid.
use nano_s.Prelude.{
  ℕ, ◌+◌, ◌-◌, ◌<◌, ◌≡◌, ◌∙◌, List, arith, Bool-cases, inl, inr, ltb, ltb→lt, ◌==◌, u16, sub16,
  sub32, u32, min, if-both,
}
use nano_s.Memory.{lmemcpy}
use nano_s.Memory.Copy.{lmemcpy_lem}
use nano_s.Memory.Range.{get_or-range}
use nano_s.Editor.Keys
use nano_s.Editor.{linecol_to_buffer_offset}
use nano_s.Editor.Session.{
  Screen, Session, Input, text, position, move_to, insert_char, delete_before, delete_at,
  is_cursor_key, cursor_key, edit_key, scroll, click, turn, is_ignored,
}
use nano_s.Editor.Session.Edits.{
  IsValid, before_fields, at_fields, insert_mem, insert_fields, cursor_key-same,
}
use nano_s.Editor.Session.Cursor.{linecol_to_buffer_offset-le, strlen-le}

linecol-lt :
    (width : ℕ) (s : Session) (col line : ℕ)
    → IsValid s
    → linecol_to_buffer_offset width (text s) col line < s.buff_size
linecol-lt width s col line v =
    let last = get_or-range s.mem s.buff s.buff_size (s.buff_size - 1) 0 (omega arith) in
    omega (
      arith,
      linecol_to_buffer_offset-le width (text s) col line,
      strlen-le (text s) (s.buff_size - 1) (last ∙ v.ended),
    )

move_to-IsValid :
    (screen : Screen) (s : Session) (col line : ℕ) → IsValid s → IsValid (move_to screen s col line)
move_to-IsValid screen s col line v = record {
  within = linecol-lt screen.width s col line v;
  small = v.small;
  fits = v.fits;
  ended = v.ended;
}

insert_char-IsValid :
    (k : ℕ) (s : Session) → s.buff_size < 0xFFFF → IsValid s → IsValid (insert_char k s)
insert_char-IsValid k s room v =
    let (size, at, base) = insert_fields s v k in
    let b = s.buff in
    let c = s.buff_cursor_offset in
    let moved =
      lmemcpy_lem (b + c + 1) (b + c) (s.buff_size - c) s.mem (omega arith) (omega arith)
        (b + s.buff_size) in
    let from : b + c + (b + s.buff_size - (b + c + 1)) ≡ b + (s.buff_size - 1) = omega arith in
    let last : s.buff_size + 1 - 1 ≡ s.buff_size = omega arith in
    let place : u32 (b + c) ≡ b + c = omega arith in
    record {
      within = omega (arith, size, at);
      small = omega (arith, size);
      fits = omega (arith, v.fits, base);
      ended = rw (size, base, last, insert_mem s v k, place) (ground (arith, moved, from, v.ended));
    }

-- A state in which the byte at `k` has been closed up.
closed-IsValid :
    (s s' : Session) (k : ℕ)
    → IsValid s
    → k < s.buff_size - 1
    → s'.buff_size ≡ s.buff_size - 1
    → s'.buff_cursor_offset ≡ k
    → s'.buff ≡ s.buff
    → s'.mem ≡ (lmemcpy (s.buff + k) (s.buff + k + 1) (s.buff_size - k - 1) s.mem).1
    → IsValid s'
closed-IsValid s s' k v lt size at base mem =
    let b = s.buff in
    let moved =
      lmemcpy_lem (b + k) (b + k + 1) (s.buff_size - k - 1) s.mem (omega arith) (omega arith)
        (b + (s.buff_size - 1 - 1)) in
    let from : b + k + 1 + (b + (s.buff_size - 1 - 1) - (b + k)) ≡ b + (s.buff_size - 1) =
      omega arith in
    record {
      within = omega arith;
      small = omega (arith, v.small);
      fits = omega (arith, v.fits);
      ended = rw (size, base, mem) (ground (arith, moved, from, v.ended));
    }

delete_before-IsValid : (s : Session) → IsValid s → IsValid (delete_before s)
unfolding delete_before
delete_before-IsValid s v = elim (Bool-cases (ltb 0 s.buff_cursor_offset)) [
  | inr first ↦ rw first v
  | inl later ↦
      let pos = ltb→lt 0 s.buff_cursor_offset later in
      let (size, at, base, mem) = before_fields s v pos in
      closed-IsValid s (delete_before s) (s.buff_cursor_offset - 1) v (omega arith) size at base mem
]

delete_at-IsValid : (s : Session) → IsValid s → IsValid (delete_at s)
unfolding delete_at
delete_at-IsValid s v = elim (Bool-cases (ltb s.buff_cursor_offset (sub32 s.buff_size 1))) [
  | inr last ↦ rw last v
  | inl inside ↦
      let lt : s.buff_cursor_offset < s.buff_size - 1 = ground arith in
      let (size, at, base, mem) = at_fields s v lt in
      closed-IsValid s (delete_at s) s.buff_cursor_offset v lt size at base mem
]

cursor_key-lt :
    (screen : Screen) (k : ℕ) (s : Session)
    → IsValid s
    → (cursor_key screen k s).buff_cursor_offset < s.buff_size
unfolding cursor_key
cursor_key-lt screen k s v =
    let (col, line) = position screen s in
    ground (
      arith,
      linecol-lt screen.width s col (line - 1) v,
      linecol-lt screen.width s col (u16 (line + 1)) v,
      linecol-lt screen.width s 0 line v,
      linecol-lt screen.width s 0xFFFF line v,
      linecol-lt screen.width s col (u16 (line + sub16 screen.height 1)) v,
      linecol-lt screen.width s col (line - min line (sub16 screen.height 1)) v,
    )

cursor_key-IsValid :
    (screen : Screen) (k : ℕ) (s : Session) → IsValid s → IsValid (cursor_key screen k s)
cursor_key-IsValid screen k s v =
    let (mem, base, size) = cursor_key-same screen k s in
    record {
      within = omega (arith, cursor_key-lt screen k s v, size);
      small = omega (arith, v.small, size);
      fits = omega (arith, v.fits, base);
      ended = rw (mem, base, size) v.ended;
    }

edit_key-IsValid :
    (screen : Screen) (write_file : List ℕ → ℕ → ℕ) (k : ℕ) (s : Session)
    → s.buff_size < 0xFFFF
    → IsValid s
    → IsValid (edit_key screen write_file k s)
unfolding edit_key
edit_key-IsValid screen write_file k s room v =
    if-both IsValid (k == Keys.f1) _ _
      (record { within = v.within; small = v.small; fits = v.fits; ended = v.ended })
      (if-both IsValid (is_cursor_key k) _ _ (cursor_key-IsValid screen k s v) (
        if-both IsValid (k == Keys.backspace) _ _ (delete_before-IsValid s v) (
          if-both IsValid (k == Keys.del) _ _ (delete_at-IsValid s v)
            (if-both IsValid (k == Keys.esc) _ _ v (insert_char-IsValid k s room v)))))

scroll-IsValid : (screen : Screen) (s : Session) → IsValid s → IsValid (scroll screen s)
unfolding scroll
scroll-IsValid screen s v =
    let kept : (n : ℕ) → IsValid (record s { current_line = n }) =
      λ n. record { within = v.within; small = v.small; fits = v.fits; ended = v.ended } in
    if-both IsValid (ltb (position screen s).1 s.current_line) _ _ (kept _)
      (if-both IsValid _ _ _ (kept _) v)

pub click-IsValid :
    (screen : Screen) (input : Input) (s : Session) → IsValid s → IsValid (click screen input s)
unfolding click
click-IsValid screen input s v =
    if-both IsValid input.left_button _ _ (move_to-IsValid screen s _ _ v) v

-- A turn of the loop, with any key and with the mouse anywhere, keeps the state valid, if the buffer
-- of 64 KB has room for one more byte: the cursor stays in the text, which keeps its final 0.
pub turn-IsValid :
    (screen : Screen) (write_file : List ℕ → ℕ → ℕ) (input : Input) (s : Session)
    → s.buff_size < 0xFFFF
    → IsValid s
    → IsValid (turn screen write_file input s)
unfolding turn
turn-IsValid screen write_file input s room v =
    let clicked = click-IsValid screen input s v in
    let same : (click screen input s).buff_size ≡ s.buff_size = unfold click in ground arith in
    if-both IsValid (is_ignored input.k) _ _ clicked (
      scroll-IsValid screen _
        (edit_key-IsValid screen write_file input.k (click screen input s) (omega arith) clicked))
