-- ===== src/Assembler/Forms.antt =====
-- How the processor reads the bytes of each block of `encode_instruction` in source/programs/nas.c.
use nano_s.Prelude.{
  ℕ, ◌+◌, ◌*◌, ◌/◌, ◌%◌, ◌≤◌, ◌<◌, ◌≡◌, refl, Option, some, List, [], ◌∷◌, arith, bit_and, bit_or,
  get_or, u8,
}
use nano_s.Assembler.Tables.{register_at, r_data, m_mov, m_pop, m_push}
use nano_s.Assembler.Machine.{
  register_name, Operand, register, memory, memory_at_bx, immediate, short_register, kind_of,
  rm_operand, decode_kind, with_operand, decode, Insn, insn, word, rm_from_register,
  register_from_rm, move_immediate, immediate_group, unary_group, arithmetic_name, unary_name,
}
use nano_s.Assembler.Fields.{
  register_name-encoding, encoding-suc, direct_byte, memory_byte, indirect_byte, middle_field,
  direct_field, rm_operand-direct, rm_operand-memory, rm_operand-indirect, word-bytes,
  register_cases,
}

encoding_lt : (v : ℕ) → (1 ≤ v) × (v < 9) → (register_at v).encoding < 8
encoding_lt v h = omega (arith, encoding-suc v h.0 h.1)

pub push_kind :
    (v : ℕ)
    → (1 ≤ v) × (v < 9)
    → kind_of (u8 (80 + (register_at v).encoding)) ≡ short_register m_push (register_at v).encoding
unfolding kind_of register_at r_data
push_kind v h =
    register_cases
      (λ v.
        kind_of (u8 (80 + (register_at v).encoding))
        ≡ short_register m_push (register_at v).encoding)
      refl refl refl refl refl refl refl refl v h.0 h.1

pub pop_kind :
    (v : ℕ)
    → (1 ≤ v) × (v < 9)
    → kind_of (u8 (88 + (register_at v).encoding)) ≡ short_register m_pop (register_at v).encoding
unfolding kind_of register_at r_data
pop_kind v h =
    register_cases
      (λ v.
        kind_of (u8 (88 + (register_at v).encoding))
        ≡ short_register m_pop (register_at v).encoding)
      refl refl refl refl refl refl refl refl v h.0 h.1

mov_kind :
    (v : ℕ)
    → (1 ≤ v) × (v < 9)
    → kind_of (u8 (184 + (register_at v).encoding)) ≡ move_immediate (register_at v).encoding
unfolding kind_of register_at r_data
mov_kind v h =
    register_cases
      (λ v. kind_of (u8 (184 + (register_at v).encoding)) ≡ move_immediate (register_at v).encoding)
      refl refl refl refl refl refl refl refl v h.0 h.1

module _ (n : List ℕ) (addr v : ℕ) where
  pub in_opcode-reads :
      (c : ℕ) (rest : List ℕ)
      → (r : (1 ≤ v) × (v < 9))
      → ((w : ℕ)
          → (1 ≤ w) × (w < 9)
          → kind_of (u8 (c + (register_at w).encoding)) ≡ short_register n (register_at w).encoding)
      → decode addr (u8 (c + (register_at v).encoding) ∷ rest)
        ≡ some (insn n (register (register_at v).name ∷ []) 1)
  unfolding decode decode_kind
  in_opcode-reads c rest r k = rw (k v r, register_name-encoding v r.0 r.1) refl

with_operand-some :
    {r : Option (Operand × ℕ)} {o : Operand} {more : ℕ} (f : Operand → ℕ → Insn)
    → r ≡ some (o, more)
    → with_operand r f ≡ some (f o more)
unfolding with_operand
with_operand-some f e = rw e refl

module _ (addr m : ℕ) (rest : List ℕ) (o : Operand) (more : ℕ)
    (e : rm_operand m rest ≡ some (o, more)) where
  rm_from_register-reads :
      (n : List ℕ)
      → decode_kind addr (rm_from_register n) (m ∷ rest)
        ≡ some (insn n (o ∷ register (register_name (m / 8 % 8)) ∷ []) (2 + more))
  unfolding decode_kind
  rm_from_register-reads n = with_operand-some _ e

  register_from_rm-reads :
      (n : List ℕ)
      → decode_kind addr (register_from_rm n) (m ∷ rest)
        ≡ some (insn n (register (register_name (m / 8 % 8)) ∷ o ∷ []) (2 + more))
  unfolding decode_kind
  register_from_rm-reads n = with_operand-some _ e

  immediate_group-reads :
      decode_kind addr immediate_group (m ∷ rest)
      ≡ some (
          insn
            (arithmetic_name (m / 8 % 8))
            (o
              ∷ immediate (word (get_or (m ∷ rest) (1 + more) 0) (get_or (m ∷ rest) (2 + more) 0))
              ∷ [])
            (4 + more))
  unfolding decode_kind
  immediate_group-reads = with_operand-some _ e

  unary_group-reads :
      decode_kind addr unary_group (m ∷ rest)
      ≡ some (insn (unary_name (m / 8 % 8)) (o ∷ []) (2 + more))
  unfolding decode_kind
  unary_group-reads = with_operand-some _ e

module _ (addr v : ℕ) (rest : List ℕ) (r : (1 ≤ v) × (v < 9)) where
  pub mov_imm-reads :
      (w : ℕ)
      → decode addr (u8 (184 + (register_at v).encoding) ∷ bit_and w 255 ∷ w / 256 ∷ rest)
        ≡ some (insn m_mov (register (register_at v).name ∷ immediate w ∷ []) 3)
  unfolding decode decode_kind
  mov_imm-reads w = rw (mov_kind v r, register_name-encoding v r.0 r.1, word-bytes w) refl

  pub reg_imm-reads :
      (ext w : ℕ)
      → ext < 8
      → decode addr (
          129
          ∷ bit_or (bit_or 192 (ext * 8)) (register_at v).encoding
          ∷ bit_and w 255
          ∷ w / 256
          ∷ rest)
        ≡ some (insn (arithmetic_name ext) (register (register_at v).name ∷ immediate w ∷ []) 4)
  unfolding decode kind_of decode_kind
  reg_imm-reads ext w p =
      let q = encoding_lt v r in
      rw
        (
          direct_byte ext (register_at v).encoding p q,
          immediate_group-reads addr _ _ _ _ (rm_operand-direct ext (register_at v).encoding _ p q),
          direct_field ext (register_at v).encoding p q,
          register_name-encoding v r.0 r.1,
          word-bytes w,
        )
        refl

  pub reg_only-reads :
      (ext : ℕ)
      → ext < 8
      → decode addr (247 ∷ bit_or (bit_or 192 (ext * 8)) (register_at v).encoding ∷ rest)
        ≡ some (insn (unary_name ext) (register (register_at v).name ∷ []) 2)
  unfolding decode kind_of decode_kind
  reg_only-reads ext p =
      let q = encoding_lt v r in
      rw
        (
          direct_byte ext (register_at v).encoding p q,
          unary_group-reads addr _ _ _ _ (rm_operand-direct ext (register_at v).encoding _ p q),
          direct_field ext (register_at v).encoding p q,
          register_name-encoding v r.0 r.1,
        )
        refl

  module _ (n : List ℕ) (c : ℕ) where
    pub reg_mem-reads :
        (w : ℕ)
        → kind_of c ≡ register_from_rm n
        → decode addr (c ∷ bit_or 6 ((register_at v).encoding * 8) ∷ bit_and w 255 ∷ w / 256 ∷ rest)
          ≡ some (insn n (register (register_at v).name ∷ memory w ∷ []) 4)
    unfolding decode decode_kind
    reg_mem-reads w k =
        let q = encoding_lt v r in
        rw
          (
            k,
            memory_byte (register_at v).encoding,
            register_from_rm-reads addr _ _ _ _ (rm_operand-memory (register_at v).encoding _ q) n,
            middle_field 6 (register_at v).encoding (omega arith) q,
            register_name-encoding v r.0 r.1,
            word-bytes w,
          )
          refl

    pub mem_reg-reads :
        (w : ℕ)
        → kind_of c ≡ rm_from_register n
        → decode addr (c ∷ bit_or 6 ((register_at v).encoding * 8) ∷ bit_and w 255 ∷ w / 256 ∷ rest)
          ≡ some (insn n (memory w ∷ register (register_at v).name ∷ []) 4)
    unfolding decode decode_kind
    mem_reg-reads w k =
        let q = encoding_lt v r in
        rw
          (
            k,
            memory_byte (register_at v).encoding,
            rm_from_register-reads addr _ _ _ _ (rm_operand-memory (register_at v).encoding _ q) n,
            middle_field 6 (register_at v).encoding (omega arith) q,
            register_name-encoding v r.0 r.1,
            word-bytes w,
          )
          refl

    pub reg_ind-reads :
        kind_of c ≡ register_from_rm n
        → decode addr (c ∷ bit_or 7 ((register_at v).encoding * 8) ∷ rest)
          ≡ some (insn n (register (register_at v).name ∷ memory_at_bx ∷ []) 2)
    unfolding decode decode_kind
    reg_ind-reads k =
        let q = encoding_lt v r in
        rw
          (
            k,
            indirect_byte (register_at v).encoding,
            register_from_rm-reads addr _ _ _ _ (rm_operand-indirect (register_at v).encoding _ q)
                n,
            middle_field 7 (register_at v).encoding (omega arith) q,
            register_name-encoding v r.0 r.1,
          )
          refl

    pub ind_reg-reads :
        kind_of c ≡ rm_from_register n
        → decode addr (c ∷ bit_or 7 ((register_at v).encoding * 8) ∷ rest)
          ≡ some (insn n (memory_at_bx ∷ register (register_at v).name ∷ []) 2)
    unfolding decode decode_kind
    ind_reg-reads k =
        let q = encoding_lt v r in
        rw
          (
            k,
            indirect_byte (register_at v).encoding,
            rm_from_register-reads addr _ _ _ _ (rm_operand-indirect (register_at v).encoding _ q)
                n,
            middle_field 7 (register_at v).encoding (omega arith) q,
            register_name-encoding v r.0 r.1,
          )
          refl

    pub reg_reg-reads :
        (w : ℕ) (s : (1 ≤ w) × (w < 9))
        → kind_of c ≡ rm_from_register n
        → decode addr
            (c ∷ bit_or (bit_or 192 ((register_at w).encoding * 8)) (register_at v).encoding ∷ rest)
          ≡ some (insn n (register (register_at v).name ∷ register (register_at w).name ∷ []) 2)
    unfolding decode decode_kind
    reg_reg-reads w s k =
        let p = encoding_lt w s in
        let q = encoding_lt v r in
        rw
          (
            k,
            direct_byte (register_at w).encoding (register_at v).encoding p q,
            rm_from_register-reads addr _ _ _ _
                (rm_operand-direct (register_at w).encoding (register_at v).encoding _ p q) n,
            direct_field (register_at w).encoding (register_at v).encoding p q,
            register_name-encoding v r.0 r.1,
            register_name-encoding w s.0 s.1,
          )
          refl
