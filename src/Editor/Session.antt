-- ===== src/Editor/Session.antt =====
-- The state of the editor and its keys: the loop of `main` in source/programs/edit.c. `buff` is an
-- address in far memory, whose bytes are `mem`.
pub mod Edits
pub mod Cursor
pub mod Invariant
pub mod Text
pub mod Saving
mod Tests
use nano_s.Prelude.{
  ℕ, zero, suc, ◌+◌, ◌-◌, ◌%◌, Bool, true, false, ◌&&◌, ◌||◌, List, [], ◌∷◌, ◌==◌, ltb, leb,
  if◌then◌else◌, u16, u32, sub16, sub32, min,
}
use nano_s.Memory.{Segment, range, store_byte, lmemcpy}
use nano_s.Fs.Types.{error_any}
use nano_s.Editor.Keys
use nano_s.Editor.{
  newline, buffer_offset_to_linecol, linecol_to_buffer_offset, buffer_offset_to_fileline,
}

-- The variables of `main`, the far memory, and the character behind the name in the title.
pub record Session : Type 0 where
  pub mem : Segment
  pub buff : ℕ
  pub buff_size : ℕ
  pub buff_cursor_offset : ℕ
  pub current_line : ℕ
  pub indicator : ℕ

-- The bytes in use, the final 0 included.
abbrev pub text : Session → List ℕ
text s = range s.mem s.buff s.buff_size

-- SCREEN_WIDTH and SCREEN_HEIGHT.
pub record Screen : Type 0 where
  pub width : ℕ
  pub height : ℕ

abbrev pub position : Screen → Session → ℕ × ℕ
position screen s = buffer_offset_to_linecol screen.width (text s) s.buff_cursor_offset

-- The cursor at a column and a line.
abbrev pub move_to : Screen → Session → ℕ → ℕ → Session
move_to screen s col line = record s {
  buff_cursor_offset = linecol_to_buffer_offset screen.width (text s) col line;
}

-- `setlc`: `c` is cast to a byte.
abbrev pub setlc : Segment → ℕ → ℕ → ℕ → Segment
setlc mem ptr offset c = store_byte mem (u32 (ptr + offset)) (c % 256)

-- KEY_BACKSPACE.
unfoldable pub delete_before : Session → Session
delete_before s =
    let at = s.buff_cursor_offset in
    if ltb 0 at
    then record s {
      mem =
          (lmemcpy (sub32 (u32 (s.buff + at)) 1) (u32 (s.buff + at)) (sub32 s.buff_size at)
            s.mem).1;
      buff_size = sub32 s.buff_size 1;
      buff_cursor_offset = at - 1;
      indicator = 42;
    }
    else s

-- KEY_DEL.
unfoldable pub delete_at : Session → Session
delete_at s =
    let at = s.buff_cursor_offset in
    if ltb at (sub32 s.buff_size 1)
    then record s {
      mem =
          (lmemcpy (u32 (s.buff + at)) (u32 (s.buff + at + 1)) (sub32 (sub32 s.buff_size at) 1)
            s.mem).1;
      buff_size = sub32 s.buff_size 1;
      indicator = 42;
    }
    else s

-- The byte that a key stands for.
abbrev pub char_of : ℕ → ℕ
char_of k = if k == Keys.enter then newline else if k == Keys.tab then 9 else k

unfoldable pub insert_char : ℕ → Session → Session
insert_char k s =
    let at = s.buff_cursor_offset in
    let moved =
      (lmemcpy (u32 (s.buff + at + 1)) (u32 (s.buff + at)) (sub32 s.buff_size at) s.mem).1 in
    record s {
      mem = setlc moved s.buff at (char_of k);
      buff_size = u32 (s.buff_size + 1);
      buff_cursor_offset = u32 (at + 1);
      indicator = 42;
    }

abbrev pub is_ignored : ℕ → Bool
is_ignored k =
    (ltb Keys.f1 k && leb k Keys.f10)
    || ((k == Keys.f11 || k == Keys.f12) || ((k == Keys.prt_sc || k == Keys.ins) || k == 0))

-- The keys that move the cursor.
unfoldable pub cursor_key : Screen → ℕ → Session → Session
cursor_key screen k s =
    let (col, line) = position screen s in
    if k == Keys.up
    then if ltb 0 line then move_to screen s col (line - 1) else s
    else if k == Keys.down
    then move_to screen s col (u16 (line + 1))
    else if k == Keys.left
    then if ltb 0 s.buff_cursor_offset
      then record s { buff_cursor_offset = s.buff_cursor_offset - 1 }
      else s
    else if k == Keys.right
    then if ltb s.buff_cursor_offset (sub32 s.buff_size 1)
      then record s { buff_cursor_offset = s.buff_cursor_offset + 1 }
      else s
    else if k == Keys.home
    then move_to screen s 0 line
    else if k == Keys.end
    then move_to screen s 0xFFFF line
    else if k == Keys.pg_dn
    then move_to screen s col (u16 (line + sub16 screen.height 1))
    else move_to screen s col (line - min line (sub16 screen.height 1))

abbrev pub is_cursor_key : ℕ → Bool
is_cursor_key k =
    ((k == Keys.up || k == Keys.down) || (k == Keys.left || k == Keys.right))
    || ((k == Keys.home || k == Keys.end) || (k == Keys.pg_dn || k == Keys.pg_up))

-- KEY_F1: the chunks that are given to `write_file` with their offsets, and the last result; `n` is
-- more than the number of chunks.
unfoldable pub save_chunks : (List ℕ → ℕ → ℕ) → ℕ → Session → ℕ → ℕ → List (ℕ × List ℕ) × ℕ
save_chunks write_file zero s offset result = ([], result)
save_chunks write_file (suc n) s offset result =
    let to_copy = min 512 (sub32 s.buff_size offset) in
    let chunk = range s.mem (s.buff + offset) to_copy in
    let written = write_file chunk (u16 offset) in
    let (rest, last) = save_chunks write_file n s (offset + to_copy) written in
    if ltb offset s.buff_size && ltb result error_any
    then ((u16 offset, chunk) ∷ rest, last)
    else ([], result)

unfoldable pub save : (List ℕ → ℕ → ℕ) → Session → List (ℕ × List ℕ) × ℕ
unfolding save_chunks
save write_file s = save_chunks write_file (suc s.buff_size) s 0 0

-- The keys that are not ignored, before the screen is updated.
unfoldable pub edit_key : Screen → (List ℕ → ℕ → ℕ) → ℕ → Session → Session
edit_key screen write_file k s =
    if k == Keys.f1
    then record s { indicator = if ltb (save write_file s).1 error_any then 32 else 42 }
    else if is_cursor_key k
    then cursor_key screen k s
    else if k == Keys.backspace
    then delete_before s
    else if k == Keys.del
    then delete_at s
    else if k == Keys.esc
    then s
    else insert_char k s

-- The first line that is shown follows the line of the cursor.
unfoldable pub scroll : Screen → Session → Session
scroll screen s =
    let line = (position screen s).1 in
    if ltb line s.current_line
    then record s { current_line = line }
    else if ltb (sub16 (u16 (s.current_line + screen.height)) 2) line
    then record s { current_line = u16 (sub16 line screen.height + 2) }
    else s

-- The mouse and the key that a turn of the loop reads.
pub record Input : Type 0 where
  pub mouse_x : ℕ
  pub mouse_y : ℕ
  pub left_button : Bool
  pub k : ℕ

unfoldable pub click : Screen → Input → Session → Session
click screen input s =
    if input.left_button then move_to screen s input.mouse_x (sub16 input.mouse_y 1) else s

-- A turn of the loop of `main`.
unfoldable pub turn : Screen → (List ℕ → ℕ → ℕ) → Input → Session → Session
turn screen write_file input s =
    let clicked = click screen input s in
    if is_ignored input.k
    then clicked
    else scroll screen (edit_key screen write_file input.k clicked)
