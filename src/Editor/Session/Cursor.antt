-- ===== src/Editor/Session/Cursor.antt =====
-- The cursor of Editor/Session.antt stays in the text.
use nano_s.Prelude.{ℕ, zero, suc, ◌+◌, ◌-◌, ◌≤◌, ◌≡◌, refl, List, [], ◌∷◌, arith, get_or}
use nano_s.Strings.{strlen}
use nano_s.Editor.{row_loop, col_loop, linecol_to_buffer_offset}

row_loop-strlen :
    (width : ℕ) (t : List ℕ) (line c offset : ℕ)
    → let (at, rest) = row_loop width t line c offset in at + strlen rest ≡ offset + strlen t
unfolding row_loop strlen
row_loop-strlen width [] line c offset = refl
row_loop-strlen width (x ∷ xs) line c offset = ground (
  arith,
  row_loop-strlen width xs (line - 1) 1 (offset + 1),
  row_loop-strlen width xs line (c + 1) (offset + 1),
)

col_loop-le : (t : List ℕ) (col offset : ℕ) → col_loop t col offset ≤ offset + strlen t
unfolding col_loop strlen
col_loop-le [] col offset = omega arith
col_loop-le (x ∷ xs) col offset = ground (arith, col_loop-le xs (col - 1) (offset + 1))

-- No position is behind the end of the text.
pub linecol_to_buffer_offset-le :
    (width : ℕ) (t : List ℕ) (col line : ℕ) → linecol_to_buffer_offset width t col line ≤ strlen t
unfolding linecol_to_buffer_offset
linecol_to_buffer_offset-le width t col line =
    let (at, rest) = row_loop width t line 0 0 in
    omega (arith, row_loop-strlen width t line 0 0, col_loop-le rest col at)

pub strlen-le : (t : List ℕ) (i : ℕ) → get_or t i 0 ≡ 0 → strlen t ≤ i
unfolding strlen
strlen-le [] i h = omega arith
strlen-le (x ∷ xs) zero h = ground arith
strlen-le (x ∷ xs) (suc i) h = ground (arith, strlen-le xs i h)
