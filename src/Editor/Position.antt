-- ===== src/Editor/Position.antt =====
-- The two conversions of Editor.antt against each other.
use nano_s.Prelude.{
  ℕ, zero, suc, ◌+◌, ◌-◌, ◌^◌, ◌≤◌, ◌<◌, ◌≡◌, ◌≢◌, refl, ap, ◌∙◌, List, [], ◌∷◌, ◌==◌,
  if◌then◌else◌, u16, arith, length, take,
}
use nano_s.Editor.{
  newline, offset_loop, buffer_offset_to_linecol, row_loop, col_loop, linecol_to_buffer_offset,
  fileline_loop, buffer_offset_to_fileline,
}

-- A text, from column `k` of a line on, without 0 and with less than `width` characters in each line.
pub data Lines (width : ℕ) : ℕ → List ℕ → Type 0 where
  stop : {k : ℕ} → Lines width k []
  feed : {k : ℕ} {cs : List ℕ} → Lines width 0 cs → Lines width k (newline ∷ cs)
  char :
      {k c : ℕ} {cs : List ℕ}
      → c ≢ 0
      → c ≢ newline
      → k + 1 < width
      → Lines width (k + 1) cs
      → Lines width k (c ∷ cs)

-- The two loops of `linecol_to_buffer_offset`.
abbrev locate : ℕ → List ℕ → ℕ → ℕ → ℕ → ℕ → ℕ
locate width text line c col offset =
    let r = row_loop width text line c offset in col_loop r.1 col r.0

-- What the position `r`, `off` bytes further in the text, leads back to.
data Located (width k c off line : ℕ) (text : List ℕ) (r : ℕ × ℕ) : Type 0 where
  here :
      r.0 ≡ k + off
      → r.1 ≡ line
      → ((o : ℕ) → col_loop text off o ≡ o + off)
      → Located width k c off line text r
  below :
      line < r.1
      → ((o : ℕ) → locate width text (r.1 - line) c r.0 o ≡ o + off)
      → Located width k c off line text r

offset_loop-feed :
    (width off : ℕ) (cs : List ℕ) (k line : ℕ)
    → offset_loop width (suc off) (newline ∷ cs) k line
      ≡ offset_loop width off cs 0 (u16 (line + 1))
unfolding offset_loop
offset_loop-feed width off cs k line = refl

offset_loop-char :
    (width off c : ℕ) (cs : List ℕ) (k line : ℕ)
    → c ≢ 0
    → c ≢ newline
    → k + 1 < width
    → offset_loop width (suc off) (c ∷ cs) k line ≡ offset_loop width off cs (k + 1) line
unfolding offset_loop
offset_loop-char width off c cs k line nz nn room = ground arith

row_loop-none : (width : ℕ) (text : List ℕ) (c o : ℕ) → row_loop width text 0 c o ≡ (o, text)
unfolding row_loop
row_loop-none width [] c o = refl
row_loop-none width (t ∷ ts) c o = ground arith

row_loop-feed :
    (width : ℕ) (ts : List ℕ) (line c o : ℕ)
    → 0 < line
    → row_loop width (newline ∷ ts) line c o ≡ row_loop width ts (line - 1) 1 (o + 1)
unfolding row_loop
row_loop-feed width ts line c o pos = ground arith

row_loop-char :
    (width t : ℕ) (ts : List ℕ) (line c o : ℕ)
    → 0 < line
    → t ≢ 0
    → t ≢ newline
    → c < width
    → row_loop width (t ∷ ts) line c o ≡ row_loop width ts line (c + 1) (o + 1)
unfolding row_loop
row_loop-char width t ts line c o pos nz nn room = ground arith

col_loop-none : (text : List ℕ) (o : ℕ) → col_loop text 0 o ≡ o
unfolding col_loop
col_loop-none [] o = refl
col_loop-none (t ∷ ts) o = ground arith

col_loop-char :
    (t : ℕ) (ts : List ℕ) (col o : ℕ)
    → t ≢ 0
    → t ≢ newline
    → col_loop (t ∷ ts) (suc col) o ≡ col_loop ts col (o + 1)
unfolding col_loop
col_loop-char t ts col o nz nn = ground arith

offset_loop-zero :
    (width : ℕ) (text : List ℕ) (k line : ℕ) → offset_loop width 0 text k line ≡ (k, line)
unfolding offset_loop
offset_loop-zero width text k line = refl

Located-feed :
    (width k c off line : ℕ) (ts : List ℕ) {r : ℕ × ℕ}
    → line + 1 < 2 ^ 16
    → Located width 0 1 off (line + 1) ts r
    → Located width k c (suc off) line (newline ∷ ts) r
Located-feed width k c off line ts {r} fits (here col row at) = below (omega arith) λ o. go o
  where
    one : r.1 - line ≡ 1
    one = omega arith

    plain : 0 + off ≡ off
    plain = omega arith

    go : (o : ℕ) → locate width (newline ∷ ts) (r.1 - line) c r.0 o ≡ o + suc off
    go o =
        rw
          (
            one,
            row_loop-feed width ts 1 c o (omega arith),
            row_loop-none width ts 1 (o + 1),
            col,
            plain,
          )
          (at (o + 1) ∙ omega arith)
Located-feed width k c off line ts {r} fits (below after at) = below (omega arith) λ o. go o
  where
    less : r.1 - line - 1 ≡ r.1 - (line + 1)
    less = omega arith

    go : (o : ℕ) → locate width (newline ∷ ts) (r.1 - line) c r.0 o ≡ o + suc off
    go o =
        rw (row_loop-feed width ts (r.1 - line) c o (omega arith), less) (at (o + 1) ∙ omega arith)

Located-char :
    (width k c off line t : ℕ) (ts : List ℕ) {r : ℕ × ℕ}
    → t ≢ 0
    → t ≢ newline
    → c < width
    → Located width (k + 1) (c + 1) off line ts r
    → Located width k c (suc off) line (t ∷ ts) r
Located-char width k c off line t ts nz nn room (here col row at) =
    here (omega arith) row λ o. col_loop-char t ts off o nz nn ∙ (at (o + 1) ∙ omega arith)
Located-char width k c off line t ts {r} nz nn room (below after at) = below after λ o. go o
  where
    go : (o : ℕ) → locate width (t ∷ ts) (r.1 - line) c r.0 o ≡ o + suc off
    go o =
        rw (row_loop-char width t ts (r.1 - line) c o (omega arith) nz nn room)
          (at (o + 1) ∙ omega arith)

offset_loop-Located :
    (width k off c line : ℕ) {text : List ℕ}
    → Lines width k text
    → c ≤ k + 1
    → off ≤ length text
    → line + off < 2 ^ 16
    → Located width k c off line text (offset_loop width off text k line)
offset_loop-Located width k zero c line {text} v le len fits =
    rw (offset_loop-zero width text k line)
      (here (omega arith) refl λ o. col_loop-none text o ∙ omega arith)
offset_loop-Located width k (suc off) c line stop le len fits = absurd (omega arith)
offset_loop-Located width k (suc off) c line (feed {cs = ts} v) le len fits =
    let next : u16 (line + 1) ≡ line + 1 = omega arith in
    rw (offset_loop-feed width off ts k line, next)
      (Located-feed width k c off line ts (omega arith)
        (offset_loop-Located width 0 off 1 (line + 1) v (omega arith) (omega arith) (omega arith)))
offset_loop-Located width k (suc off) c line (char {c = t} {cs = ts} nz nn room v) le len fits =
    rw (offset_loop-char width off t ts k line nz nn room) (
      Located-char width k c off line t ts nz nn (omega arith) (
        offset_loop-Located width (k + 1) off (c + 1) line v (omega arith) (omega arith)
          (omega arith)))

-- In a text whose lines are all shorter than the screen, the line and the column of an offset lead
-- back to that offset. The offset fits 16 bits, as the line number does.
pub linecol_to_buffer_offset-buffer_offset_to_linecol :
    (width : ℕ) (text : List ℕ) (offset : ℕ)
    → Lines width 0 text
    → offset ≤ length text
    → offset < 2 ^ 16
    → let r = buffer_offset_to_linecol width text offset in
      linecol_to_buffer_offset width text r.0 r.1 ≡ offset
unfolding buffer_offset_to_linecol linecol_to_buffer_offset
linecol_to_buffer_offset-buffer_offset_to_linecol width text offset v len fits =
    found (offset_loop-Located width 0 offset 0 0 v (omega arith) len (omega arith))
  where
    plain : 0 + offset ≡ offset
    plain = omega arith

    found : {r : ℕ × ℕ} → Located width 0 0 offset 0 text r → locate width text r.1 0 r.0 0 ≡ offset
    found {r} (here col row at) = rw (row, row_loop-none width text 0 0, col, plain) (at 0 ∙ plain)
    found {r} (below after at) = let same : r.1 - 0 ≡ r.1 = omega arith in rw same at (at 0) ∙ plain

-- The number of line ends in a text.
unfoldable pub newlines : List ℕ → ℕ
newlines [] = 0
newlines (c ∷ cs) = (if c == newline then 1 else 0) + newlines cs

fileline_loop-char :
    (off c : ℕ) (cs : List ℕ) (line : ℕ)
    → c ≢ 0
    → c ≢ newline
    → fileline_loop (suc off) (c ∷ cs) line ≡ fileline_loop off cs line
unfolding fileline_loop
fileline_loop-char off c cs line nz nn = ground arith

newlines-char : (c : ℕ) (cs : List ℕ) → c ≢ newline → newlines cs ≡ newlines (c ∷ cs)
unfolding newlines
newlines-char c cs nn = ground arith

fileline_loop_lem :
    (width off k line : ℕ) {text : List ℕ}
    → Lines width k text
    → line + off < 2 ^ 16
    → fileline_loop off text line ≡ line + newlines (take off text)
unfolding fileline_loop newlines
fileline_loop_lem width zero k line v fits = omega arith
fileline_loop_lem width (suc off) k line stop fits = omega arith
fileline_loop_lem width (suc off) k line (feed v) fits =
    let next : u16 (line + 1) ≡ line + 1 = omega arith in
    rw next (fileline_loop_lem width off 0 (line + 1) v (omega arith) ∙ omega arith)
fileline_loop_lem width (suc off) k line (char {c = c} {cs = cs} nz nn room v) fits =
    fileline_loop-char off c cs line nz nn
    ∙ (fileline_loop_lem width off (k + 1) line v (omega arith)
        ∙ ap (λ (n : ℕ). line + n) (newlines-char c (take off cs) nn))

-- In a text without 0 whose lines are shorter than the screen, and for an offset that fits 16 bits,
-- the line of the file is the number of line ends before the offset.
pub buffer_offset_to_fileline_lem :
    (width : ℕ) (text : List ℕ) (offset : ℕ)
    → Lines width 0 text
    → offset < 2 ^ 16
    → buffer_offset_to_fileline text offset ≡ newlines (take offset text)
unfolding buffer_offset_to_fileline
buffer_offset_to_fileline_lem width text offset v fits =
    fileline_loop_lem width offset 0 0 v (omega arith) ∙ omega arith
