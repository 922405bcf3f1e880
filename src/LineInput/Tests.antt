-- ===== src/LineInput/Tests.antt =====
-- A line that is typed and corrected.
use nano_s.Prelude.{ℕ, ◌+◌, ◌%◌, ◌≤◌, ◌<◌, ◌≡◌, ◌⊎◌, refl, List, [], ◌∷◌, get_or, length, arith}
use nano_s.Memory.{Segment}
use nano_s.Editor.Keys
use nano_s.LineInput.{getstr}
use nano_s.LineInput.Keyboard.{typed_line, getstr_lem}

-- "dor", two steps back, Del, "i", End, a backspace and "e": "die".
abbrev keys : List ℕ
keys =
    100 ∷ 111 ∷ 114 ∷ Keys.left ∷ Keys.left ∷ Keys.del ∷ 105 ∷ Keys.end ∷ Keys.backspace ∷ 101
    ∷ Keys.enter ∷ []

line : typed_line 8 keys [] 0 ≡ 100 ∷ 105 ∷ 101 ∷ []
line = refl

-- No more than three bytes and the final 0.
full : typed_line 4 (97 ∷ 98 ∷ 99 ∷ 100 ∷ []) [] 0 ≡ 97 ∷ 98 ∷ 99 ∷ []
full = refl

getstr_lem_example :
    let mem : Segment = λ a. a % 256 in
    let s = typed_line 8 keys [] 0 in
    let (ret, after) = getstr 100 8 keys mem in
    (ret ≡ length s)
    × (length s < 8)
    × ((j : ℕ) → j < 8 → after (100 + j) ≡ get_or s j 0)
    × ((a : ℕ) → (a < 100) ⊎ (100 + 8 ≤ a) → after a ≡ mem a)
getstr_lem_example = getstr_lem 100 8 keys (λ a. a % 256) (omega arith) (omega arith) (omega arith)
