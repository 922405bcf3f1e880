-- ===== src/Editor.antt =====
-- Positions in the text of the editor, source/programs/edit.c: `buffer_offset_to_linecol`,
-- `linecol_to_buffer_offset` and `buffer_offset_to_fileline`. The text is the list of its bytes; it
-- ends at a 0 or at the end of the list. `width` is SCREEN_WIDTH.
pub mod Keys
pub mod Position
pub mod Session
mod Tests
use nano_s.Prelude.{
  ℕ, zero, suc, ◌+◌, ◌-◌, Bool, true, false, ◌||◌, List, [], ◌∷◌, ◌==◌, leb, if◌then◌else◌, u16,
}

abbrev pub newline : ℕ
newline = 10

-- The loop of `buffer_offset_to_linecol`: `col` and `line` at its end.
pub offset_loop : ℕ → ℕ → List ℕ → ℕ → ℕ → ℕ × ℕ
offset_loop width zero text col line = (col, line)
offset_loop width (suc offset) [] col line = (col, line)
offset_loop width (suc offset) (c ∷ cs) col line = elim (c == 0) [
  | true ↦ (col, line)
  | false ↦ elim (c == newline) [
    | true ↦ offset_loop width offset cs 0 (u16 (line + 1))
    | false ↦ elim (leb width (col + 1)) [
      | true ↦ offset_loop width offset cs 0 (u16 (line + 1))
      | false ↦ offset_loop width offset cs (col + 1) line
    ]
  ]
]

pub buffer_offset_to_linecol : ℕ → List ℕ → ℕ → ℕ × ℕ
buffer_offset_to_linecol width text offset = offset_loop width offset text 0 0

-- The first loop of `linecol_to_buffer_offset`: the offset and the text from there on.
pub row_loop : ℕ → List ℕ → ℕ → ℕ → ℕ → ℕ × List ℕ
row_loop width [] line c offset = (offset, [])
row_loop width (t ∷ ts) line c offset = elim (t == 0 || line == 0) [
  | true ↦ (offset, t ∷ ts)
  | false ↦ elim (t == newline || leb width c) [
    | true ↦ row_loop width ts (line - 1) 1 (offset + 1)
    | false ↦ row_loop width ts line (c + 1) (offset + 1)
  ]
]

-- The second loop.
pub col_loop : List ℕ → ℕ → ℕ → ℕ
col_loop [] col offset = offset
col_loop (t ∷ ts) col offset = elim ((t == 0 || col == 0) || t == newline) [
  | true ↦ offset
  | false ↦ col_loop ts (col - 1) (offset + 1)
]

pub linecol_to_buffer_offset : ℕ → List ℕ → ℕ → ℕ → ℕ
linecol_to_buffer_offset width text col line =
    let (offset, rest) = row_loop width text line 0 0 in col_loop rest col offset

-- The loop of `buffer_offset_to_fileline`.
pub fileline_loop : ℕ → List ℕ → ℕ → ℕ
fileline_loop zero text line = line
fileline_loop (suc offset) [] line = line
fileline_loop (suc offset) (c ∷ cs) line = elim (c == 0) [
  | true ↦ line
  | false ↦ fileline_loop offset cs (if c == newline then u16 (line + 1) else line)
]

pub buffer_offset_to_fileline : List ℕ → ℕ → ℕ
buffer_offset_to_fileline text offset = fileline_loop offset text 0
