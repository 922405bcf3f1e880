-- ===== src/Editor/Session/Text.antt =====
-- What a turn of the loop of Editor/Session.antt makes of the text, whatever the mouse and the key.
use nano_s.Prelude.{
  ℕ, ◌+◌, ◌-◌, ◌%◌, ◌≡◌, ap, ◌∙◌, Bool, ◌||◌, ◌&&◌, List, ◌∷◌, ◌++◌, take, drop, arith, length, leb,
  ltb, if◌then◌else◌, true, false, ◌==◌, Bool-cases, inl, inr,
}
use nano_s.Editor.Keys
use nano_s.Editor.Session.{
  Screen, Session, Input, text, turn, click, scroll, edit_key, is_ignored, is_cursor_key, char_of,
}
use nano_s.Editor.Session.Edits.{IsValid, edited, text-edit_key}
use nano_s.Editor.Session.Invariant.{click-IsValid}

-- 0, F1 to F10, F11, F12, PrtSc, Ins, Esc, the four arrows, Home, End, Page Up and Page Down.
abbrev pub keeps_text : ℕ → Bool
keeps_text k =
    ((k == 0 || k == 0x1B) || (leb 0x3B00 k && leb k 0x4400))
    || (((k == 0x8500 || k == 0x8600) || (k == 0x7200 || k == 0x5200))
        || (((k == 0x4800 || k == 0x5000) || (k == 0x4B00 || k == 0x4D00))
            || ((k == 0x4700 || k == 0x4F00) || (k == 0x4900 || k == 0x5100))))

-- The text after a key with the cursor at `at`: backspace is 8, Del is 0x5300, and Return, 13, is
-- stored as 10.
abbrev pub after_key : ℕ → ℕ → List ℕ → List ℕ
after_key k at t =
    if keeps_text k
    then t
    else if k == 8
    then take (at - 1) t ++ drop at t
    else if k == 0x5300
    then if ltb (at + 1) (length t) then take at t ++ drop (at + 1) t else t
    else take at t ++ ((if k == 13 then 10 else k % 256) ∷ drop at t)

ignored-keeps : (k : ℕ) → is_ignored k ≡ true → keeps_text k ≡ true
ignored-keeps k h = ground arith

-- A key that is not ignored keeps the text if it is F1, Esc or a key of the cursor.
keeps-cases :
    (k : ℕ)
    → is_ignored k ≡ false
    → keeps_text k ≡ ((k == Keys.f1 || k == Keys.esc) || is_cursor_key k)
keeps-cases k h = ground arith

typed_byte : (k : ℕ) → char_of k % 256 ≡ (if k == 13 then 10 else k % 256)
typed_byte k = ground arith

-- Esc may be tested first.
esc-first :
    (f1 move back del esc : Bool) (t x y z : List ℕ)
    → (esc ≡ true → (back ≡ false) × (del ≡ false))
    → (if f1
        then t
        else if move
        then t
        else if back
        then x
        else if del
        then y
        else if esc
        then t
        else z)
      ≡ (if (f1 || esc) || move then t else if back then x else if del then y else z)
esc-first f1 move back del esc t x y z h = elim (Bool-cases esc) [
  | inl is ↦ let (not_back, not_del) = h is in rw (is, not_back, not_del) (ground arith)
  | inr other ↦ rw other (ground arith)
]

edited-after_key : (k at : ℕ) (t : List ℕ) → is_ignored k ≡ false → edited k at t ≡ after_key k at t
edited-after_key k at t h =
    rw (keeps-cases k h, typed_byte k)
      (esc-first (k == Keys.f1) (is_cursor_key k) (k == 8) (k == 0x5300) (k == Keys.esc) t
        (take (at - 1) t ++ drop at t)
        (if ltb (at + 1) (length t) then take at t ++ drop (at + 1) t else t)
        (take at t ++ ((if k == 13 then 10 else k % 256) ∷ drop at t))
        (λ e. (ground arith, ground arith)))

text-click : (screen : Screen) (input : Input) (s : Session) → text (click screen input s) ≡ text s
unfolding click
text-click screen input s = ground arith

text-scroll : (screen : Screen) (s : Session) → text (scroll screen s) ≡ text s
unfolding scroll
text-scroll screen s = ground arith

-- In a valid state, a turn of the loop makes one edit of the text at the cursor, which a click may have
-- moved before. Backspace removes the byte before the cursor if there is one, Del the byte at the cursor
-- unless it is the last one in use. The code 0, F1 to F12, PrtSc, Ins, Esc, the arrows, Home, End, Page
-- Up, Page Down and all codes between those of F1 and F10 keep the text. Every other key puts the low
-- byte of its code in front of the cursor, but Return puts 10.
pub text-turn :
    (screen : Screen) (write_file : List ℕ → ℕ → ℕ) (input : Input) (s : Session)
    → IsValid s
    → text (turn screen write_file input s)
      ≡ after_key input.k (click screen input s).buff_cursor_offset (text s)
unfolding turn
text-turn screen write_file input s v = elim (Bool-cases (is_ignored input.k)) [
  | inl ignored ↦ rw (ignored, ignored-keeps input.k ignored) (text-click screen input s)
  | inr key ↦
      let clicked = click screen input s in
      rw key (
        text-scroll screen (edit_key screen write_file input.k clicked)
        ∙ (text-edit_key screen write_file input.k clicked (click-IsValid screen input s v)
            ∙ (edited-after_key input.k clicked.buff_cursor_offset (text clicked) key
                ∙ ap (after_key input.k clicked.buff_cursor_offset) (text-click screen input s))))
]
