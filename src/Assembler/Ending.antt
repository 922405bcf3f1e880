-- ===== src/Assembler/Ending.antt =====
-- The loop over the lines of source/programs/nas.c ends, and what it leaves.
use nano_s.Prelude.{
  ℕ, zero, suc, ◌+◌, ◌-◌, ◌≤◌, ◌<◌, ◌≡◌, ◌⊎◌, inl, inr, refl, List, [], ◌∷◌, ◌++◌, arith, length,
  length-replicate, replicate, ◌^◌, drop, set, ℕ_discrete,
}
use nano_s.Assembler.Tokens.{
  clamp_line, read_line, tokenize_loop, tokenize_line, separators, token_length, error_any, eof,
}
use nano_s.Assembler.Program.{
  State, Outcome, next, stopped, process_line, failed, s_max, s_max_ref, obuff_size, max_tokens,
  fbuff_size,
}
use nano_s.Assembler.Pass.{
  Pass, done, undefined, after_line, read_lines, assemble, initial, free_symbol, free_ref,
}
use nano_s.Assembler.References.{AllFree, nil, cons, free}
use nano_s.Assembler.Invariant.{IsValid, After, valid, ended, process_line-After}

length-tokenize_loop :
    (fuel max_tok tokc : ℕ) (buff : List ℕ)
    → tokc ≤ max_tok
    → tokc + length (tokenize_loop fuel max_tok tokc buff).0 ≤ max_tok
unfolding tokenize_loop
length-tokenize_loop zero max_tok tokc buff h = omega arith
length-tokenize_loop (suc fuel) max_tok tokc buff h =
    let rest = drop (token_length (drop (separators buff) buff)) (drop (separators buff) buff) in
    let same = length-tokenize_loop fuel max_tok tokc rest h in
    let more : tokc + 1 ≤ max_tok
        → tokc + 1 + length (tokenize_loop fuel max_tok (tokc + 1) rest).0 ≤ max_tok =
      length-tokenize_loop fuel max_tok (tokc + 1) rest in
    ground arith

few : (line : List ℕ) → length (tokenize_line line fbuff_size max_tokens).0 ≤ max_tokens
unfolding tokenize_line
few line =
    let tokens =
      length-tokenize_loop (length (set line (fbuff_size - 1) 0)) max_tokens 0
        (set line (fbuff_size - 1) 0) (omega arith) in
    omega (arith, tokens)

-- `read_file` of a file of `n` bytes: as many as there are from the offset on, at most `size`.
pub record IsFile (n : ℕ) (file : ℕ → ℕ → ℕ × List ℕ) : Type 0 where
  pub in_file : (offset size : ℕ) → (file offset size).0 ≤ n - offset
  pub in_buffer : (offset size : ℕ) → (file offset size).0 ≤ size

clamp_line-next :
    (buff_size readed offset i : ℕ) (bytes : List ℕ)
    → offset + readed < 2 ^ 16
    → let r = (clamp_line buff_size readed offset i bytes).0 in
      (r ≡ error_any) ⊎ ((offset < r) × (r ≤ offset + readed))
unfolding clamp_line
clamp_line-next buff_size readed offset i [] h = inl refl
clamp_line-next buff_size readed offset i (c ∷ cs) h =
    let rest = clamp_line-next buff_size readed offset (i + 1) cs h in ground arith

-- The next line is further on in the file, or there is none.
read_line-next :
    (n : ℕ) (file : ℕ → ℕ → ℕ × List ℕ) (size offset : ℕ)
    → IsFile n file
    → n < eof
    → size < error_any
    → let r = (read_line file size offset).0 in
      (r ≡ eof) ⊎ ((error_any ≤ r) ⊎ ((offset < r) × (r ≤ n)))
unfolding read_line
read_line-next n file size offset is lt fits =
    let (readed, bytes) = file offset size in
    let more = is.in_file offset size in
    let most = is.in_buffer offset size in
    let buff = bytes ++ replicate (size - length bytes) 0 in
    elim (ℕ_discrete readed 0) [
      | yes z ↦ ground arith
      | no nz ↦
          let line = clamp_line-next size readed offset 0 buff (omega (arith, more, lt)) in
          ground arith
    ]

-- What the pass leaves: a valid state, or an error with offset 0, or nothing defined.
pub data Ended : Pass → Type 0 where
  complete : {state : State} → IsValid state → Ended (done state)
  refused : {state : State} → state.ooffset ≡ 0 → Ended (done state)
  lost : Ended undefined

module _ (n : ℕ) (file : ℕ → ℕ → ℕ × List ℕ) (is : IsFile n file) (lt : n < eof) where
  step-eof :
      (fuel foffset : ℕ) (state : State)
      → (read_line file fbuff_size foffset).0 ≡ eof
      → read_lines (suc fuel) file foffset state ≡ done state
  unfolding read_lines
  step-eof fuel foffset state e = ground arith

  step-error :
      (fuel foffset : ℕ) (state : State)
      → error_any ≤ (read_line file fbuff_size foffset).0
      → read_lines (suc fuel) file foffset state ≡ done (failed state state.s_table)
  unfolding read_lines
  step-error fuel foffset state e = ground arith

  step-line :
      (fuel foffset : ℕ) (state : State)
      → (read_line file fbuff_size foffset).0 ≤ n
      → let (after, line) = read_line file fbuff_size foffset in
        read_lines (suc fuel) file foffset state
        ≡ after_line
            (process_line state (tokenize_line line fbuff_size max_tokens).0)
            (read_lines fuel file after)
  unfolding read_lines
  step-line fuel foffset state e = ground arith

  after_line-Ended :
      (r : Outcome) (turn : State → Pass)
      → After r
      → ((state : State) → IsValid state → Ended (turn state))
      → Ended (after_line r turn)
  unfolding after_line
  after_line-Ended (next state) turn (valid h) t = t state h
  after_line-Ended (stopped state) turn (ended z) t = refused z
  after_line-Ended Outcome.overrun turn h t = lost

  read_lines-Ended :
      (fuel foffset : ℕ) (state : State)
      → IsValid state
      → foffset ≤ n
      → n - foffset < fuel
      → Ended (read_lines fuel file foffset state)
  read_lines-Ended zero foffset state h le enough = absurd (omega arith)
  read_lines-Ended (suc fuel) foffset state h le enough =
      elim (read_line-next n file fbuff_size foffset is lt (omega arith)) [
        | inl e ↦ rw (step-eof fuel foffset state e) (complete h)
        | inr (inl e) ↦ rw (step-error fuel foffset state e) (refused refl)
        | inr (inr (on, in_n)) ↦
            let (after, line) = read_line file fbuff_size foffset in
            let tokens = (tokenize_line line fbuff_size max_tokens).0 in
            rw (step-line fuel foffset state in_n) (
              after_line-Ended (process_line state tokens) (read_lines fuel file after)
                (process_line-After state tokens h (few line))
                λ state' h'. read_lines-Ended fuel after state' h' in_n (omega (arith, on, enough)))
      ]

pub replicate-AllFree : (k : ℕ) → AllFree (replicate k free_ref)
replicate-AllFree zero = nil
replicate-AllFree (suc k) = cons refl (replicate-AllFree k)

pub initial-IsValid : IsValid initial
unfolding initial
initial-IsValid = record {
  code = length-replicate {A = ℕ} obuff_size 0;
  offset = omega arith;
  symbols = length-replicate s_max free_symbol;
  refs = free (replicate-AllFree s_max_ref);
}

-- For a file of `n` bytes, fewer than 0xFFE0, the loop over the lines ends within `n + 1` turns: in
-- a valid state, in an error with offset 0, or at a store outside the arrays.
pub assemble-Ended :
    (n : ℕ) (file : ℕ → ℕ → ℕ × List ℕ) → IsFile n file → n < eof → Ended (assemble (n + 1) file)
unfolding assemble
assemble-Ended n file is lt =
    read_lines-Ended n file is lt (n + 1) 0 initial initial-IsValid (omega arith) (omega arith)
