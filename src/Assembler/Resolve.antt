-- ===== src/Assembler/Resolve.antt =====
-- The resolution of references in source/programs/nas.c: the instruction of each reference is coded
-- again with the address of its symbol, and those around it stay.
use mathlib.Core.List.{append_assoc}
use nano_s.Prelude.{
  ap₂, if◌then◌else◌, ◌==◌, ◌%◌, get_or-set, ℕ, ◌+◌, ◌≤◌, ◌<◌, ◌^◌, ◌≡◌, ◌≢◌, refl, ap, sym, ◌∙◌,
  Option, none, some, List, [], ◌∷◌, ◌++◌, arith, get_or, take, drop, length, u16, length-append,
  length-take, take_append-drop, drop-take_append, take-take_append, take-take, take-append,
}
use nano_s.Assembler.Tables.{Instr, i_data}
use nano_s.Assembler.Machine.{decode, insn, Operand}
use nano_s.Assembler.Encode.{Block, distance, block, op_at, instruction_bytes, encode_instruction}
use nano_s.Assembler.RoundTrip.{Fits, InReach, operands, instruction_bytes-reads}
use nano_s.Assembler.Overwrite.{
  overwrite, length-overwrite, encode_instruction_lem, length-instruction_bytes,
}
use nano_s.Assembler.Symbols.{Symbol, SymbolRef}
use nano_s.Assembler.Pass.{resolved_operands, resolve}
use nano_s.Assembler.Program.{no_row}
use nano_s.Assembler.References.{size, AllFree, cons, Slots, free, used}

-- The rows in use.
pub data IsUsed (r : SymbolRef) : List SymbolRef → Type 0 where
  first : {rs : List SymbolRef} → r.offset ≢ 0 → IsUsed r (r ∷ rs)
  later : {q : SymbolRef} {rs : List SymbolRef} → q.offset ≢ 0 → IsUsed r rs → IsUsed r (q ∷ rs)

-- Buffers that agree up to `n` agree below it.
take-within : (k n : ℕ) (xs ys : List ℕ) → k ≤ n → take n xs ≡ take n ys → take k xs ≡ take k ys
take-within k n xs ys le e = sym (take-take k n xs le) ∙ (ap (take k) e ∙ take-take k n ys le)

take-overwrite :
    (bs buffer : List ℕ) (offset k : ℕ)
    → k ≤ offset
    → offset ≤ length buffer
    → take k (overwrite bs offset buffer) ≡ take k buffer
take-overwrite bs buffer offset k le in_buffer =
    take-within k offset (overwrite bs offset buffer) buffer le
      (take-take_append offset buffer _ in_buffer)

-- What is at `offset` when the buffer keeps what was written there.
drop-kept :
    (bs buffer code : List ℕ) (offset k : ℕ)
    → length bs ≡ k
    → offset ≤ length buffer
    → take (offset + k) code ≡ take (offset + k) (overwrite bs offset buffer)
    → drop offset code ≡ bs ++ drop (offset + k) code
drop-kept bs buffer code offset k n in_buffer e =
    let P = take offset buffer in
    let at_offset : length P ≡ offset = omega (arith, length-take offset buffer) in
    let D = drop (offset + length bs) buffer in
    let wide : length (P ++ bs) ≡ offset + k = omega (arith, length-append P bs, at_offset, n) in
    let front : take (offset + k) code ≡ P ++ bs =
      e
      ∙ (ap (take (offset + k)) (sym (append_assoc P bs D))
          ∙ (ap (λ t. take t ((P ++ bs) ++ D)) (sym wide) ∙ take-append (P ++ bs) D)) in
    let whole : code ≡ P ++ (bs ++ drop (offset + k) code) =
      sym (take_append-drop (offset + k) code)
      ∙ (ap (λ t. t ++ drop (offset + k) code) front
          ∙ append_assoc P bs (drop (offset + k) code)) in
    ap (drop offset) whole ∙ drop-take_append offset buffer (bs ++ drop (offset + k) code) in_buffer

abbrev id_or : Instr → Option Instr → Instr
id_or i none = i
id_or i (some id) = id

-- The instruction of a reference in use ends below `hi`.
used-ends :
    (hi : ℕ) (rs : List SymbolRef) (lo : ℕ) (q : SymbolRef) (id : Instr)
    → Slots hi lo rs
    → IsUsed q rs
    → q.instr_id ≡ some id
    → q.offset + size id ≤ hi
used-ends hi [] lo q id s is e = elim is [ ]
used-ends hi (r ∷ rs) lo q id (free (cons z f)) (first nz) e = absurd (nz z)
used-ends hi (r ∷ rs) lo q id (free (cons z f)) (later nz is) e = absurd (nz z)
used-ends hi (r ∷ rs) lo q id (used i u s) (first nz) e =
    let same_id : i ≡ id = ap (id_or i) (sym u.is_coded ∙ e) in
    omega (arith, u.ends, ap size same_id)
used-ends hi (r ∷ rs) lo q id (used i u s) (later nz is) e =
    used-ends hi rs (r.offset + size i) q id s is e

-- Only the first operand decides what is in reach.
InReach-same :
    (b : Block) (org offset : ℕ) (op op' : List ℕ)
    → op_at op 0 ≡ op_at op' 0
    → InReach b org offset op'
    → InReach b org offset op
unfolding InReach distance
InReach-same Block.ret org offset op op' e h = h
InReach-same Block.push_pop org offset op op' e h = h
InReach-same Block.mov_imm org offset op op' e h = h
InReach-same Block.reg_reg org offset op op' e h = h
InReach-same Block.reg_mem org offset op op' e h = h
InReach-same Block.mem_reg org offset op op' e h = h
InReach-same Block.reg_ind org offset op op' e h = h
InReach-same Block.ind_reg org offset op op' e h = h
InReach-same (Block.reg_imm k) org offset op op' e h = h
InReach-same (Block.reg_only k) org offset op op' e h = h
InReach-same Block.int_imm org offset op op' e h = rw e h
InReach-same Block.short_jump org offset op op' e h = rw e h
InReach-same Block.near_jump org offset op op' e h = rw e h

module _ (org : ℕ) (s_table : List Symbol) where
  resolve-free :
      (rs : List SymbolRef) (buffer : List ℕ) → AllFree rs → resolve org s_table rs buffer ≡ buffer
  unfolding resolve
  resolve-free [] buffer f = refl
  resolve-free (r ∷ rs) buffer (cons z f) = rw z refl

  resolve-used :
      (r : SymbolRef) (rs : List SymbolRef) (buffer : List ℕ)
      → r.offset ≢ 0
      → resolve org s_table (r ∷ rs) buffer
        ≡ resolve org s_table rs
            (encode_instruction org buffer r.offset r.instr_id (resolved_operands org s_table r)).1
  unfolding resolve
  resolve-used r rs buffer nz = ground arith

  -- The bytes that a reference is resolved to.
  abbrev resolved : Instr → SymbolRef → List ℕ
  resolved id r = instruction_bytes id org r.offset (resolved_operands org s_table r)

  written :
      (r : SymbolRef) (id : Instr) (buffer : List ℕ)
      → r.instr_id ≡ some id
      → r.offset + size id ≤ length buffer
      → length buffer < 2 ^ 16
      → (encode_instruction org buffer r.offset r.instr_id (resolved_operands org s_table r)).1
        ≡ overwrite (resolved id r) r.offset buffer
  written r id buffer e room fit =
      let op = resolved_operands org s_table r in
      ap (λ t. (encode_instruction org buffer r.offset t op).1) e
      ∙ ap (λ t. t.1) (encode_instruction_lem id org r.offset buffer room fit op)

  length-resolved :
      (r : SymbolRef) (id : Instr) (buffer : List ℕ)
      → r.offset + size id ≤ length buffer
      → length buffer < 2 ^ 16
      → length (resolved id r) ≡ size id
  length-resolved r id buffer room fit =
      length-instruction_bytes id org r.offset buffer room fit (resolved_operands org s_table r)

  -- Below the first reference nothing changes.
  resolve-below :
      (hi : ℕ) (rs : List SymbolRef) (lo : ℕ) (buffer : List ℕ)
      → Slots hi lo rs
      → hi ≤ length buffer
      → length buffer < 2 ^ 16
      → take lo (resolve org s_table rs buffer) ≡ take lo buffer
  resolve-below hi rs lo buffer (free f) room fit = ap (take lo) (resolve-free rs buffer f)
  resolve-below hi (r ∷ rs) lo buffer (used id u s) room fit =
      let here : r.offset + size id ≤ length buffer = omega (arith, u.ends) in
      let n = length-resolved r id buffer here fit in
      let B = overwrite (resolved id r) r.offset buffer in
      let same = length-overwrite (resolved id r) buffer r.offset (omega (arith, n, here)) in
      let rest = resolve-below hi rs (r.offset + size id) B s (rw same room) (rw same fit) in
      rw (resolve-used r rs buffer u.is_used, written r id buffer u.is_coded here fit)
        (take-within lo (r.offset + size id) _ B (omega (arith, u.starts)) rest
          ∙ take-overwrite (resolved id r) buffer r.offset lo u.starts (omega (arith, here)))

  -- The bytes of a reference in use, after all references have been resolved.
  resolve-holds :
      (hi : ℕ) (rs : List SymbolRef) (lo : ℕ) (buffer : List ℕ) (q : SymbolRef) (id : Instr)
      → Slots hi lo rs
      → hi ≤ length buffer
      → length buffer < 2 ^ 16
      → IsUsed q rs
      → q.instr_id ≡ some id
      → let code = resolve org s_table rs buffer in
        drop q.offset code ≡ resolved id q ++ drop (q.offset + size id) code
  resolve-holds hi [] lo buffer q id s room fit is e = elim is [ ]
  resolve-holds hi (r ∷ rs) lo buffer q id (free (cons z f)) room fit (first nz) e = absurd (nz z)
  resolve-holds hi (r ∷ rs) lo buffer q id (free (cons z f)) room fit (later nz is) e =
      absurd (nz z)
  resolve-holds hi (r ∷ rs) lo buffer q id (used i u s) room fit (first nz) e =
      let same_id : i ≡ id = ap (id_or i) (sym u.is_coded ∙ e) in
      let here : q.offset + size id ≤ length buffer = omega (arith, u.ends, ap size same_id) in
      let n = length-resolved q id buffer here fit in
      let B = overwrite (resolved id q) q.offset buffer in
      let same = length-overwrite (resolved id q) buffer q.offset (omega (arith, n, here)) in
      let kept : take (q.offset + size id) (resolve org s_table rs B)
          ≡ take (q.offset + size id) B =
        rw same_id at (resolve-below hi rs (q.offset + size i) B s (rw same room) (rw same fit)) in
      rw (resolve-used q rs buffer nz, written q id buffer e here fit)
        (drop-kept (resolved id q) buffer (resolve org s_table rs B) q.offset (size id) n
          (omega (arith, here)) kept)
  resolve-holds hi (r ∷ rs) lo buffer q id (used i u s) room fit (later nz is) e =
      let here : r.offset + size i ≤ length buffer = omega (arith, u.ends) in
      let n = length-resolved r i buffer here fit in
      let B = overwrite (resolved i r) r.offset buffer in
      let same = length-overwrite (resolved i r) buffer r.offset (omega (arith, n, here)) in
      rw (resolve-used r rs buffer nz, written r i buffer u.is_coded here fit)
        (resolve-holds hi rs (r.offset + size i) B q id s (rw same room) (rw same fit) is e)

  resolve-resolved :
      (hi : ℕ) (rs : List SymbolRef) (buffer : List ℕ) (r : SymbolRef) (id : Instr)
      → Slots hi 0 rs
      → hi ≤ length buffer
      → length buffer < 2 ^ 16
      → IsUsed r rs
      → r.instr_id ≡ some id
      → org < 2 ^ 16
      → let op = resolved_operands org s_table r in
        Fits (get_or (i_data id).op_type 0 0) (op_at op 0)
        → Fits (get_or (i_data id).op_type 1 0) (op_at op 1)
        → InReach (block id) org r.offset op
        → decode (u16 (org + r.offset)) (drop r.offset (resolve org s_table rs buffer))
          ≡ some (insn (i_data id).mnemonic (operands id op) (length (resolved id r)))
  resolve-resolved hi rs buffer r id s room fit is e o f g near =
      rw (resolve-holds hi rs 0 buffer r id s room fit is e)
        (instruction_bytes-reads id org r.offset (resolved_operands org s_table r) _ o f g near)

  -- Operand `i` of a reference after its resolution: the address of the symbol, which is its value
  -- behind the origin, if `i` is the operand that refers to it, and what the line gave if not.
  abbrev pub operand_of : SymbolRef → ℕ → ℕ
  operand_of r i =
      if i == r.operand
      then ((get_or s_table r.symbol no_row).value + org) % 65536
      else get_or r.instruction.op_value i 0

  op_at-resolved_operands :
      (r : SymbolRef) (i : ℕ)
      → r.operand < length r.instruction.op_value
      → op_at (resolved_operands org s_table r) i ≡ operand_of r i
  unfolding op_at resolved_operands
  op_at-resolved_operands r i lt =
      let address = ((get_or s_table r.symbol no_row).value + org) % 65536 in
      ground (arith, get_or-set r.instruction.op_value r.operand i address 0)

  -- After the loop over the references of a buffer of less than 64 KB, which are in the order of
  -- their instructions and end in the buffer, the processor reads each instruction that has a
  -- reference as the instruction of the table with the address of the symbol, its value behind
  -- the origin, as the operand that refers to it, and the other operand as the line gave it. The
  -- origin is below 2 ^ 16, and the operand that refers is one that the line gave. The operands
  -- fit their types; an interrupt number is below 256; the distance of a conditional jump is from
  -- -128 to 127, and that of a call or jmp has a low byte that is not 0, as the code gives the
  -- others a wrong high byte.
  pub resolve-decode :
      (hi : ℕ) (rs : List SymbolRef) (buffer : List ℕ) (r : SymbolRef) (id : Instr)
      → Slots hi 0 rs
      → hi ≤ length buffer
      → length buffer < 2 ^ 16
      → IsUsed r rs
      → r.instr_id ≡ some id
      → org < 2 ^ 16
      → r.operand < length r.instruction.op_value
      → let op = operand_of r 0 ∷ operand_of r 1 ∷ [] in
        Fits (get_or (i_data id).op_type 0 0) (operand_of r 0)
        → Fits (get_or (i_data id).op_type 1 0) (operand_of r 1)
        → InReach (block id) org r.offset op
        → decode (u16 (org + r.offset)) (drop r.offset (resolve org s_table rs buffer))
          ≡ some (insn (i_data id).mnemonic (operands id op) (size id))
  unfolding op_at
  resolve-decode hi rs buffer r id s room fit is e o lt f g near =
      let op = resolved_operands org s_table r in
      let at0 = op_at-resolved_operands r 0 lt in
      let at1 = op_at-resolved_operands r 1 lt in
      let op' = operand_of r 0 ∷ operand_of r 1 ∷ [] in
      let near' = InReach-same (block id) org r.offset op op' at0 near in
      let same : operands id op ≡ operands id op' = unfold operands in rw (at0, at1) refl in
      let ends = used-ends hi rs 0 r id s is e in
      let n = length-resolved r id buffer (omega (arith, ends, room)) fit in
      resolve-resolved hi rs buffer r id s room fit is e o (rw at0 f) (rw at1 g) near'
      ∙ ap₂ (λ (os : List Operand) (k : ℕ). some (insn (i_data id).mnemonic os k)) same n
