-- ===== src/Editor/Session/Tests.antt =====
-- The loop of the editor at a short text.
use nano_s.Prelude.{ℕ, ◌≡◌, refl, List, [], ◌∷◌, true, arith, get_or}
use nano_s.Memory.{range}
use nano_s.Editor.Keys
use nano_s.Editor.Session.{Screen, Session, Input, text, click, turn, save}
use nano_s.Editor.Session.Edits.{IsValid}
use nano_s.Editor.Session.Text.{after_key, text-turn}
use nano_s.Editor.Session.Invariant.{turn-IsValid}
use nano_s.Editor.Session.Saving.{Written, save-Written}

-- "ab", a new line and "c", with the cursor at the "b".
abbrev four : Session
four = record {
  mem = λ a. get_or (97 ∷ 98 ∷ 10 ∷ 99 ∷ 0 ∷ []) a 7;
  buff = 0;
  buff_size = 5;
  buff_cursor_offset = 1;
  current_line = 0;
  indicator = 32;
}

abbrev screen : Screen
screen = record { width = 80; height = 25 }

four-IsValid : IsValid four
four-IsValid = record {
  within = omega arith;
  small = omega arith;
  fits = omega arith;
  ended = refl;
}

abbrev written : List ℕ → ℕ → ℕ
written chunk offset = 0

inserted : after_key 120 1 (text four) ≡ 97 ∷ 120 ∷ 98 ∷ 10 ∷ 99 ∷ 0 ∷ []
unfolding range
inserted = refl

erased : after_key Keys.backspace 1 (text four) ≡ 98 ∷ 10 ∷ 99 ∷ 0 ∷ []
unfolding range
erased = refl

abbrev typed : Input
typed = record { mouse_x = 0; mouse_y = 0; left_button = true; k = 120 }

-- The click is in the title row, which leads to the end of the text.
text-turn_example :
    text (turn screen written typed four)
    ≡ after_key 120 (click screen typed four).buff_cursor_offset (text four)
text-turn_example = text-turn screen written typed four four-IsValid

turn-IsValid_example : IsValid (turn screen written typed four)
turn-IsValid_example = turn-IsValid screen written typed four (omega arith) four-IsValid

save-Written_example : Written 0 (text four) (save written four).0
save-Written_example = save-Written written four (λ chunk offset. omega arith) (omega arith)
