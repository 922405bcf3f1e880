-- ===== src/Assembler/Overwrite.antt =====
-- Where `encode_instruction` of source/programs/nas.c writes: the bytes of the instruction from the
-- offset on, and nothing else. `main` relies on it when it codes an instruction again.
use mathlib.Core.List.{append_assoc}
use nano_s.Prelude.{
  ℕ, suc, ◌+◌, ◌-◌, ◌≤◌, ◌<◌, ◌^◌, ◌≡◌, refl, ap, sym, some, List, [], ◌∷◌, ◌++◌, arith, get_or,
  set, take, drop, length, length-set, length-append, length-drop, length-take, u16, drop-set,
  take-set, drop-take_append, take_append-drop, take-take_append, drop-append, drop-drop,
}
use nano_s.Assembler.Tables.{Instr, i_data}
use nano_s.Assembler.Machine.{decode, insn}
use nano_s.Assembler.Encode.{
  Block, block, op_at, block_bytes, instruction_bytes, store_bytes, encode_instruction,
}
use nano_s.Assembler.RoundTrip.{Fits, InReach, operands, instruction_bytes-reads}

-- The buffer with `bs` from `offset` on.
abbrev pub overwrite : List ℕ → ℕ → List ℕ → List ℕ
overwrite bs offset buffer = take offset buffer ++ (bs ++ drop (offset + length bs) buffer)

pub store_bytes_lem :
    (bs buffer : List ℕ) (offset : ℕ)
    → offset + length bs ≤ length buffer
    → length buffer < 2 ^ 16
    → store_bytes bs buffer offset ≡ (offset + length bs, overwrite bs offset buffer)
unfolding store_bytes
store_bytes_lem [] buffer offset h fit =
    let e : offset ≡ offset + 0 = omega arith in
    rw (← e) (ap (λ t. (offset, t)) (sym (take_append-drop offset buffer)))
store_bytes_lem (b ∷ bs) buffer offset h fit =
    let next : u16 (offset + 1) ≡ suc offset = omega arith in
    let end : offset + suc (length bs) ≡ suc offset + length bs = omega arith in
    let rest =
      store_bytes_lem bs (set buffer offset b) (suc offset) (rw length-set (omega arith))
        (rw length-set fit) in
    rw
      (
        next,
        end,
        rest,
        drop-set (suc offset + length bs) offset buffer b (omega arith),
        take-set offset buffer b (omega arith),
        append_assoc,
      )
      refl

-- A second write of the same length covers the first one.
overwrite-overwrite :
    (bs bs' buffer : List ℕ) (offset : ℕ)
    → length bs' ≡ length bs
    → offset ≤ length buffer
    → overwrite bs' offset (overwrite bs offset buffer) ≡ overwrite bs' offset buffer
overwrite-overwrite bs bs' buffer offset n h =
    rw
      (
        take-take_append offset buffer _ h,
        ← drop-drop offset (length bs'),
        drop-take_append offset buffer _ h,
        n,
        drop-append bs,
      )
      refl

pub length-overwrite :
    (bs buffer : List ℕ) (offset : ℕ)
    → offset + length bs ≤ length buffer
    → length (overwrite bs offset buffer) ≡ length buffer
length-overwrite bs buffer offset h =
    rw (length-append, length-append, length-take, length-drop) (omega arith)

unfoldable pub block_length : Block → ℕ
block_length Block.ret = 1
block_length Block.push_pop = 1
block_length Block.int_imm = 2
block_length Block.short_jump = 2
block_length Block.near_jump = 3
block_length Block.mov_imm = 3
block_length Block.reg_reg = 2
block_length Block.reg_mem = 4
block_length Block.mem_reg = 4
block_length Block.reg_ind = 2
block_length Block.ind_reg = 2
block_length (Block.reg_imm ext) = 4
block_length (Block.reg_only ext) = 2

pub length-block_bytes :
    (b : Block) (c org offset : ℕ) (op : List ℕ)
    → length (block_bytes b c org offset op) ≡ block_length b
unfolding block_bytes block_length
length-block_bytes Block.ret c org offset op = refl
length-block_bytes Block.push_pop c org offset op = refl
length-block_bytes Block.int_imm c org offset op = refl
length-block_bytes Block.short_jump c org offset op = refl
length-block_bytes Block.near_jump c org offset op = refl
length-block_bytes Block.mov_imm c org offset op = refl
length-block_bytes Block.reg_reg c org offset op = refl
length-block_bytes Block.reg_mem c org offset op = refl
length-block_bytes Block.mem_reg c org offset op = refl
length-block_bytes Block.reg_ind c org offset op = refl
length-block_bytes Block.ind_reg c org offset op = refl
length-block_bytes (Block.reg_imm ext) c org offset op = refl
length-block_bytes (Block.reg_only ext) c org offset op = refl

pub block_length_le : (b : Block) → block_length b ≤ 4
unfolding block_length
block_length_le Block.ret = omega arith
block_length_le Block.push_pop = omega arith
block_length_le Block.int_imm = omega arith
block_length_le Block.short_jump = omega arith
block_length_le Block.near_jump = omega arith
block_length_le Block.mov_imm = omega arith
block_length_le Block.reg_reg = omega arith
block_length_le Block.reg_mem = omega arith
block_length_le Block.mem_reg = omega arith
block_length_le Block.reg_ind = omega arith
block_length_le Block.ind_reg = omega arith
block_length_le (Block.reg_imm ext) = omega arith
block_length_le (Block.reg_only ext) = omega arith

module _ (id : Instr) (org offset : ℕ) (buffer : List ℕ)
    (room : offset + block_length (block id) ≤ length buffer) (fit : length buffer < 2 ^ 16) where
  pub length-instruction_bytes :
      (op : List ℕ) → length (instruction_bytes id org offset op) ≡ block_length (block id)
  unfolding instruction_bytes
  length-instruction_bytes op = length-block_bytes (block id) (i_data id).opcode org offset op

  -- The instruction's bytes are the only ones that change, and their number does not depend on the
  -- operands.
  pub encode_instruction_lem :
      (op : List ℕ)
      → encode_instruction org buffer offset (some id) op ≡ (
        offset + block_length (block id),
        overwrite (instruction_bytes id org offset op) offset buffer,
      )
  unfolding encode_instruction
  encode_instruction_lem op =
      let n = length-instruction_bytes op in
      rw (← n) (
        store_bytes_lem (instruction_bytes id org offset op) buffer offset
          (omega (arith, n, block_length_le (block id))) fit)

  drop-code :
      (op : List ℕ)
      → drop offset (encode_instruction org buffer offset (some id) op).1
        ≡ instruction_bytes id org offset op
          ++ drop (offset + length (instruction_bytes id org offset op)) buffer
  drop-code op = rw encode_instruction_lem (drop-take_append offset buffer _ (omega arith))

  -- An instruction of the table, coded at an offset with room for it in a buffer of less than 64
  -- KB, is read there by the processor as the instruction of the table with these operands, of
  -- the length by which the offset advances. The origin is below 2 ^ 16; the operands are words,
  -- and registers where the table wants them; an interrupt number is below 256; the distance of a
  -- conditional jump is from -128 to 127; and the distance of a call or jmp has a low byte that
  -- is not 0, as the code gives the others a wrong high byte.
  pub encode_instruction-decode :
      (op : List ℕ)
      → org < 2 ^ 16
      → Fits (get_or (i_data id).op_type 0 0) (op_at op 0)
      → Fits (get_or (i_data id).op_type 1 0) (op_at op 1)
      → InReach (block id) org offset op
      → let (next, code) = encode_instruction org buffer offset (some id) op in
        decode (u16 (org + offset)) (drop offset code)
        ≡ some (insn (i_data id).mnemonic (operands id op) (next - offset))
  encode_instruction-decode op o f g near =
      let n = length-instruction_bytes op in
      let size : offset + block_length (block id) - offset
          ≡ length (instruction_bytes id org offset op) =
        omega (arith, n) in
      rw (drop-code op, encode_instruction_lem op, size)
        (instruction_bytes-reads id org offset op _ o f g near)

-- With room for an instruction at `offset` of a buffer of less than 64 KB, coding it there again
-- with other operands gives the buffer and the offset that coding it once with these operands gives.
pub encode_instruction-encode_instruction :
    (id : Instr) (org offset : ℕ) (buffer op op' : List ℕ)
    → offset + block_length (block id) ≤ length buffer
    → length buffer < 2 ^ 16
    → encode_instruction org
        (encode_instruction org buffer offset (some id) op).1
        offset
        (some id)
        op'
      ≡ encode_instruction org buffer offset (some id) op'
encode_instruction-encode_instruction id org offset buffer op op' room fit =
    let n = length-instruction_bytes id org offset buffer room fit op in
    let n' = length-instruction_bytes id org offset buffer room fit op' in
    let le = block_length_le (block id) in
    let bs = instruction_bytes id org offset op in
    let same = length-overwrite bs buffer offset (omega (arith, n, le)) in
    rw
      (
        encode_instruction_lem id org offset buffer room fit,
        encode_instruction_lem id org offset (overwrite bs offset buffer) (rw same room)
            (rw same fit),
        overwrite-overwrite bs (instruction_bytes id org offset op') buffer offset
            (omega (arith, n, n')) (omega (arith, room)),
        encode_instruction_lem id org offset buffer room fit op',
      )
      refl
