-- ===== src/Editor/Session/Saving.antt =====
-- What F1 of Editor/Session.antt writes, and which lines are on the screen.
use nano_s.Prelude.{
  subst, ap₂, length, ℕ, zero, suc, ◌+◌, ◌-◌, ◌^◌, ◌≤◌, ◌<◌, ◌≡◌, List, [], ◌∷◌, ◌++◌, arith,
  Bool-cases, inl, inr, ltb, ltb→lt, lt→ltb, u16, sub32, min,
}
use nano_s.Memory.{range}
use nano_s.Memory.Range.{range-append, length-range}
use nano_s.Fs.Types.{error_any}
use nano_s.Editor.Session.{Screen, Session, text, position, save_chunks, save, scroll}

-- Writes one behind the other from offset `at` on, of 1 to 512 bytes each, which together are `t`.
pub data Written : ℕ → List ℕ → List (ℕ × List ℕ) → Type 0 where
  nothing : {at : ℕ} → Written at [] []
  piece :
      {at : ℕ} (chunk rest : List ℕ) {writes : List (ℕ × List ℕ)}
      → 0 < length chunk
      → length chunk ≤ 512
      → Written (at + length chunk) rest writes
      → Written at (chunk ++ rest) ((at, chunk) ∷ writes)

save_chunks-Written :
    (write_file : List ℕ → ℕ → ℕ) (n : ℕ) (s : Session) (offset result : ℕ)
    → ((chunk : List ℕ) (at : ℕ) → write_file chunk at < error_any)
    → s.buff_size ≤ 0xFFFF
    → offset ≤ s.buff_size
    → s.buff_size < offset + n
    → result < error_any
    → Written offset
        (range s.mem (s.buff + offset) (s.buff_size - offset))
        (save_chunks write_file n s offset result).0
unfolding save_chunks range
save_chunks-Written write_file zero s offset result ok small le fuel good = absurd (omega arith)
save_chunks-Written write_file (suc n) s offset result ok small le fuel good =
    elim (Bool-cases (ltb offset s.buff_size)) [
      | inr end ↦ let none : s.buff_size - offset ≡ 0 = ground arith in rw (end, none) nothing
      | inl more ↦
          let lt = ltb→lt offset s.buff_size more in
          let size = min 512 (sub32 s.buff_size offset) in
          let chunk = range s.mem (s.buff + offset) size in
          let at : u16 offset ≡ offset = omega arith in
          let step : (0 < size) × (size ≤ 512) × (offset + size ≤ s.buff_size) = ground arith in
          let long = length-range s.mem (s.buff + offset) size in
          let parts : s.buff_size - offset ≡ size + (s.buff_size - (offset + size)) =
            omega (arith, step.2) in
          let from : s.buff + offset + size ≡ s.buff + (offset + size) = omega arith in
          let rest =
            save_chunks-Written write_file n s (offset + size) (write_file chunk offset) ok small
              step.2 (omega (arith, step.0)) (ok chunk offset) in
          rw
            (
              more,
              lt→ltb result error_any good,
              at,
              parts,
              range-append s.mem (s.buff + offset) size (s.buff_size - (offset + size)),
              from,
            )
            (piece chunk (range s.mem (s.buff + (offset + size)) (s.buff_size - (offset + size)))
              (omega (arith, long, step.0)) (omega (arith, long, step.1)) (rw long rest))
    ]

-- If no call of `write_file` fails, F1 calls it with chunks of 1 to 512 bytes, each at the offset where
-- the one before ends, the first at 0, and together they are the text; the buffer has less than 64 KB.
-- What a call makes of the file is not said.
pub save-Written :
    (write_file : List ℕ → ℕ → ℕ) (s : Session)
    → ((chunk : List ℕ) (offset : ℕ) → write_file chunk offset < error_any)
    → s.buff_size ≤ 0xFFFF
    → Written 0 (text s) (save write_file s).0
unfolding save
save-Written write_file s ok small =
    let start : s.buff + 0 ≡ s.buff = omega arith in
    let whole : s.buff_size - 0 ≡ s.buff_size = omega arith in
    subst (λ (t : List ℕ). Written 0 t (save_chunks write_file (suc s.buff_size) s 0 0).0)
      (ap₂ (range s.mem) start whole)
      (save_chunks-Written write_file (suc s.buff_size) s 0 0 ok small (omega arith) (omega arith)
        (omega arith))

-- The line of the cursor is one of those shown below the title from the line that `scroll` takes as the
-- first, for a screen of at least two rows and lines that do not reach 2 ^ 16.
pub scroll-shows :
    (screen : Screen) (s : Session)
    → 2 ≤ screen.height
    → s.current_line + screen.height < 2 ^ 16
    → (position screen s).1 + 2 < 2 ^ 16
    → let top = (scroll screen s).current_line in
      let line = (position screen s).1 in (top ≤ line) × (line ≤ top + (screen.height - 2))
unfolding scroll
scroll-shows screen s rows top bottom = ground arith
