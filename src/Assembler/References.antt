-- ===== src/Assembler/References.antt =====
-- The references of source/programs/nas.c: the rows in use come first, in the order of their
-- instructions.
use nano_s.Prelude.{ℕ, ◌+◌, ◌≤◌, ◌<◌, ◌≡◌, ◌≢◌, refl, some, List, [], ◌∷◌, arith}
use nano_s.Assembler.Tables.{Instr}
use nano_s.Assembler.Encode.{block}
use nano_s.Assembler.Overwrite.{block_length}
use nano_s.Assembler.Symbols.{SymbolRef, append_symbol_ref}
use nano_s.Assembler.Program.{s_max}

abbrev pub size : Instr → ℕ
size id = block_length (block id)

-- No row of the references is in use.
pub data AllFree : List SymbolRef → Type 0 where
  nil : AllFree []
  cons : {r : SymbolRef} {rs : List SymbolRef} → r.offset ≡ 0 → AllFree rs → AllFree (r ∷ rs)

-- A reference to a symbol of the table, in an instruction from `lo` on that ends at `hi` at most.
pub record IsRef (lo hi : ℕ) (id : Instr) (r : SymbolRef) : Type 0 where
  pub is_used : r.offset ≢ 0
  pub is_coded : r.instr_id ≡ some id
  pub starts : lo ≤ r.offset
  pub ends : r.offset + size id ≤ hi
  pub has_symbol : r.symbol < s_max

-- The references in the order of their instructions, which do not overlap; then the free rows.
pub data Slots (hi : ℕ) : ℕ → List SymbolRef → Type 0 where
  free : {lo : ℕ} {rs : List SymbolRef} → AllFree rs → Slots hi lo rs
  used :
      {lo : ℕ} {r : SymbolRef} {rs : List SymbolRef} (id : Instr)
      → IsRef lo hi id r
      → Slots hi (r.offset + size id) rs
      → Slots hi lo (r ∷ rs)

pub Slots-grow :
    {hi lo : ℕ} {rs : List SymbolRef} (hi' : ℕ) → hi ≤ hi' → Slots hi lo rs → Slots hi' lo rs
Slots-grow hi' le (free f) = free f
Slots-grow hi' le (used id r s) =
    used id
      (record {
        is_used = r.is_used;
        is_coded = r.is_coded;
        starts = r.starts;
        ends = omega (arith, r.ends);
        has_symbol = r.has_symbol;
      })
      (Slots-grow hi' le s)

pub append_symbol_ref-here :
    (q ref : SymbolRef) (rs : List SymbolRef)
    → q.offset ≡ 0
    → append_symbol_ref (q ∷ rs) ref ≡ ref ∷ rs
unfolding append_symbol_ref
append_symbol_ref-here q ref rs z = rw z refl

pub append_symbol_ref-later :
    (q ref : SymbolRef) (rs : List SymbolRef)
    → q.offset ≢ 0
    → append_symbol_ref (q ∷ rs) ref ≡ q ∷ append_symbol_ref rs ref
unfolding append_symbol_ref
append_symbol_ref-later q ref rs nz = ground arith

nil-AllFree : (ref : SymbolRef) → AllFree (append_symbol_ref [] ref)
unfolding append_symbol_ref
nil-AllFree ref = nil

nil-Slots : {hi lo : ℕ} (ref : SymbolRef) → Slots hi lo (append_symbol_ref [] ref)
unfolding append_symbol_ref
nil-Slots ref = free nil

-- The next reference is further on than the others.
pub append_symbol_ref-Slots :
    (rs : List SymbolRef) (hi lo hi' : ℕ) (id : Instr) (ref : SymbolRef)
    → Slots hi lo rs
    → hi ≤ hi'
    → IsRef lo hi' id ref
    → hi ≤ ref.offset
    → Slots hi' lo (append_symbol_ref rs ref)
append_symbol_ref-Slots [] hi lo hi' id ref s le r ge = nil-Slots ref
append_symbol_ref-Slots (q ∷ rs) hi lo hi' id ref (free (cons z f)) le r ge =
    rw (append_symbol_ref-here q ref rs z) (used id r (free f))
append_symbol_ref-Slots (q ∷ rs) hi lo hi' id ref (used i u s) le r ge =
    let later : IsRef (q.offset + size i) hi' id ref = record {
      is_used = r.is_used;
      is_coded = r.is_coded;
      starts = omega (arith, u.ends);
      ends = r.ends;
      has_symbol = r.has_symbol;
    } in
    let here : IsRef lo hi' i q = record {
      is_used = u.is_used;
      is_coded = u.is_coded;
      starts = u.starts;
      ends = omega (arith, u.ends);
      has_symbol = u.has_symbol;
    } in
    rw (append_symbol_ref-later q ref rs u.is_used)
      (used i here (append_symbol_ref-Slots rs hi (q.offset + size i) hi' id ref s le later ge))

-- A reference from offset 0 leaves its row free.
pub append_symbol_ref-AllFree :
    (rs : List SymbolRef) (ref : SymbolRef)
    → ref.offset ≡ 0
    → AllFree rs
    → AllFree (append_symbol_ref rs ref)
append_symbol_ref-AllFree [] ref e f = nil-AllFree ref
append_symbol_ref-AllFree (q ∷ rs) ref e (cons z f) =
    rw (append_symbol_ref-here q ref rs z) (cons e f)

pub Slots-start : {rs : List SymbolRef} (hi lo : ℕ) → hi ≡ 0 → Slots hi lo rs → AllFree rs
Slots-start hi lo z (free f) = f
Slots-start hi lo z (used id r s) = absurd (r.is_used (omega (arith, r.ends)))
