-- ===== src/LineInput.antt =====
-- The line that `getstr` of source/ulib/ulib.c reads from the keyboard. The buffer is at the address
-- `str` in near memory and has `max_count` bytes. What is drawn on the screen is not modelled.
pub mod Edits
pub mod Keyboard
mod Tests
use nano_s.Prelude.{
  ℕ, zero, suc, ◌+◌, ◌-◌, ◌%◌, true, false, ◌&&◌, ◌||◌, not, List, [], ◌∷◌, ◌==◌, ltb,
  if◌then◌else◌, sub16, u16,
}
use nano_s.Memory.{Segment, range, store_byte, memcpy, memset}
use nano_s.Strings.{strlen}
use nano_s.Editor.Keys

-- `i` is the index of the cursor.
pub record Line : Type 0 where
  pub mem : Segment
  pub i : ℕ

module _ (str max_count : ℕ) where
  -- `strlen(str)`.
  abbrev pub line_length : Line → ℕ
  line_length l = strlen (range l.mem str max_count)

  unfoldable pub key_backspace : Line → Line
  key_backspace l =
      if ltb 0 l.i
      then record {
        mem = (memcpy (u16 (str + l.i - 1)) (u16 (str + l.i)) (sub16 max_count l.i) l.mem).1;
        i = l.i - 1;
      }
      else l

  unfoldable pub key_del : Line → Line
  key_del l =
      if ltb l.i (sub16 max_count 1)
      then record l {
        mem =
            (memcpy (u16 (str + l.i)) (u16 (str + l.i + 1)) (sub16 (sub16 max_count l.i) 1)
              l.mem).1;
      }
      else l

  unfoldable pub key_char : ℕ → Line → Line
  key_char k l =
      let moved =
        (memcpy (u16 (str + l.i + 1)) (u16 (str + l.i)) (sub16 (sub16 max_count l.i) 2) l.mem).1 in
      if ltb (line_length l) (sub16 max_count 1)
      then record { mem = store_byte moved (u16 (str + l.i)) (k % 256); i = l.i + 1 }
      else l

  -- A turn of the loop, for a key other than Return.
  unfoldable pub key_press : ℕ → Line → Line
  key_press k l =
      if k == Keys.backspace
      then key_backspace l
      else if k == Keys.del
      then key_del l
      else if k == Keys.left && ltb 0 l.i
      then record l { i = l.i - 1 }
      else if k == Keys.right && ltb l.i (line_length l)
      then record l { i = l.i + 1 }
      else if k == Keys.home
      then record l { i = 0 }
      else if k == Keys.end
      then record l { i = line_length l }
      else if not (k == Keys.tab) && (ltb k 0x20 || ltb 0x7E k)
      then l
      else key_char k l

  -- The loop, over the keys that are pressed. Where these run out the source waits for more; here the
  -- loop ends as with Return.
  unfoldable pub key_loop : List ℕ → Line → Line
  key_loop [] l = l
  key_loop (k ∷ keys) l = elim (k == Keys.enter) [
    | true ↦ l
    | false ↦ key_loop keys (key_press k l)
  ]

  -- The length that is returned, and the memory.
  unfoldable pub getstr : List ℕ → Segment → ℕ × Segment
  getstr keys mem =
      let cleared = (memset str 0 max_count mem).1 in
      let l = key_loop keys (record { mem = cleared; i = 0 }) in
      let ended = store_byte l.mem (u16 (str + sub16 max_count 1)) 0 in
      (strlen (range ended str max_count), ended)
