-- ===== src/Editor/Tests.antt =====
-- Witnesses for the positions of source/programs/edit.c, and a run on a long line.
use nano_s.Prelude.{ℕ, ◌<◌, ◌≡◌, ◌≢◌, refl, List, [], ◌∷◌, arith, replicate}
use nano_s.Editor.{
  newline, buffer_offset_to_linecol, linecol_to_buffer_offset, offset_loop, row_loop, col_loop,
}
use nano_s.Editor.Position.{
  Lines, stop, feed, char, linecol_to_buffer_offset-buffer_offset_to_linecol,
}

-- "ab\nc"
abbrev two_lines : List ℕ
two_lines = 97 ∷ 98 ∷ 10 ∷ 99 ∷ []

letter : (c : ℕ) → 90 < c → c ≢ 0
letter c h e = absurd (omega arith)

letter' : (c : ℕ) → 90 < c → c ≢ newline
letter' c h e = absurd (omega arith)

two_lines-Lines : Lines 80 0 two_lines
two_lines-Lines = char (letter 97 (omega arith)) (letter' 97 (omega arith)) (omega arith) (
    char (letter 98 (omega arith)) (letter' 98 (omega arith)) (omega arith)
      (feed (char (letter 99 (omega arith)) (letter' 99 (omega arith)) (omega arith) stop)))

linecol_to_buffer_offset-buffer_offset_to_linecol_example :
    let r = buffer_offset_to_linecol 80 two_lines 4 in
    linecol_to_buffer_offset 80 two_lines r.0 r.1 ≡ 4
linecol_to_buffer_offset-buffer_offset_to_linecol_example =
    linecol_to_buffer_offset-buffer_offset_to_linecol 80 two_lines 4 two_lines-Lines (omega arith)
      (omega arith)

-- In a first line that is longer than the screen the two conversions differ by one.
long_line_there : buffer_offset_to_linecol 4 (replicate 6 97) 4 ≡ (0, 1)
unfolding buffer_offset_to_linecol offset_loop
long_line_there = refl

long_line_back : linecol_to_buffer_offset 4 (replicate 6 97) 0 1 ≡ 5
unfolding linecol_to_buffer_offset row_loop col_loop
long_line_back = refl
