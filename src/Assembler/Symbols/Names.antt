-- ===== src/Assembler/Symbols/Names.antt =====
-- What the table of symbols of source/programs/nas.c stands for: the different names in the order in
-- which they came, each with its index.
use mathlib.Core.List.{List-discrete}
use nano_s.Prelude.{
  ℕ, suc, ◌+◌, ◌≤◌, ◌<◌, ◌≡◌, ◌≢◌, refl, ap, ap₂, ◌∙◌, sym, List, [], ◌∷◌, arith, length, get_or,
  ℕ_discrete,
}
use nano_s.Strings.{strcmp}
use nano_s.Strings.Compare.{c_string, c_string-ended, IsBytes, strcmp_lem}
use nano_s.Strings.Held.{c_string-strcpy_s, IsBytes-strcpy_s}
use nano_s.Assembler.Symbols.{Symbol, name_size, named, find_or_add_from, find_or_add_symbol}

abbrev chosen :
    {n name : List ℕ} → Dec (n ≡ name) → ℕ × List (List ℕ) → ℕ × List (List ℕ) → ℕ × List (List ℕ)
chosen (yes e) x y = x
chosen (no ne) x y = y

chosen-yes :
    {n name : List ℕ} (d : Dec (n ≡ name)) (x y : ℕ × List (List ℕ)) → n ≡ name → chosen d x y ≡ x
chosen-yes (yes e) x y same = refl
chosen-yes (no ne) x y same = absurd (ne same)

chosen-no :
    {n name : List ℕ} (d : Dec (n ≡ name)) (x y : ℕ × List (List ℕ)) → n ≢ name → chosen d x y ≡ y
chosen-no (yes e) x y other = absurd (other e)
chosen-no (no ne) x y other = refl

-- The names after one more, and its index, when the first of them has index `k`.
unfoldable pub intern : ℕ → List ℕ → List (List ℕ) → ℕ × List (List ℕ)
intern k name [] = (k, name ∷ [])
intern k name (n ∷ ns) =
    let (found, names) = intern (k + 1) name ns in
    chosen (List-discrete ℕ_discrete n name) (k, n ∷ ns) (found, n ∷ names)

-- A row that is not in use.
pub record IsFree (row : Symbol) : Type 0 where
  pub free : get_or row.name 0 0 ≡ 0
  pub size : length row.name ≡ name_size
  pub bytes : IsBytes row.name

-- A row of a name.
pub record Holds (row : Symbol) (name : List ℕ) : Type 0 where
  pub in_use : get_or row.name 0 0 ≢ 0
  pub stored : c_string row.name ≡ name
  pub bytes : IsBytes row.name

pub data Names : List Symbol → List (List ℕ) → Type 0 where
  nil : Names [] []
  free : {row : Symbol} {rows : List Symbol} → IsFree row → Names rows [] → Names (row ∷ rows) []
  held :
      {row : Symbol} {rows : List Symbol} {name : List ℕ} {names : List (List ℕ)}
      → Holds row name
      → Names rows names
      → Names (row ∷ rows) (name ∷ names)

-- A name that a row can hold.
pub record IsName (name : List ℕ) : Type 0 where
  pub bytes : IsBytes name
  pub filled : c_string name ≢ []
  pub short : length (c_string name) < name_size

step-free :
    (name : List ℕ) (s : ℕ) (row : Symbol) (rows : List Symbol)
    → get_or row.name 0 0 ≡ 0
    → find_or_add_from name s (row ∷ rows) ≡ (s, named row name ∷ rows)
unfolding find_or_add_from
step-free name s row rows z = ground arith

step-found :
    (name : List ℕ) (s : ℕ) (row : Symbol) (rows : List Symbol)
    → get_or row.name 0 0 ≢ 0
    → strcmp row.name name ≡ 0
    → find_or_add_from name s (row ∷ rows) ≡ (s, row ∷ rows)
unfolding find_or_add_from
step-found name s row rows nz e = ground arith

step-other :
    (name : List ℕ) (s : ℕ) (row : Symbol) (rows : List Symbol)
    → get_or row.name 0 0 ≢ 0
    → strcmp row.name name ≢ 0
    → let (found, rest) = find_or_add_from name (s + 1) rows in
      find_or_add_from name s (row ∷ rows) ≡ (found, row ∷ rest)
unfolding find_or_add_from
step-other name s row rows nz e = ground arith

intern-found :
    (k : ℕ) (name n : List ℕ) (ns : List (List ℕ)) → n ≡ name → intern k name (n ∷ ns) ≡ (k, n ∷ ns)
unfolding intern
intern-found k name n ns e = chosen-yes (List-discrete ℕ_discrete n name) _ _ e

intern-other :
    (k : ℕ) (name n : List ℕ) (ns : List (List ℕ))
    → n ≢ name
    → let (found, names) = intern (k + 1) name ns in intern k name (n ∷ ns) ≡ (found, n ∷ names)
unfolding intern
intern-other k name n ns ne = chosen-no (List-discrete ℕ_discrete n name) _ _ ne

named-stored :
    (row : Symbol) (name : List ℕ)
    → IsName name
    → IsFree row
    → c_string (named row name).name ≡ c_string name
unfolding named
named-stored row name is f =
    c_string-strcpy_s row.name name name_size is.short (omega (arith, f.size))

named-Holds :
    (row : Symbol) (name : List ℕ)
    → IsName name
    → IsFree row
    → Holds (named row name) (c_string name)
unfolding named
named-Holds row name is f =
    let stored = named-stored row name is f in
    record {
      in_use = λ z. is.filled (sym stored ∙ c_string-ended (named row name).name z);
      stored = stored;
      bytes = IsBytes-strcpy_s row.name name name_size is.bytes f.bytes;
    }

-- The table after one more name, and the abstract names.
record Refines (rows : List Symbol) (r : ℕ × List Symbol) (a : ℕ × List (List ℕ)) : Type 0 where
  index : r.0 ≡ a.0
  names : Names r.1 a.1
  same_length : length r.1 ≡ length rows

find_or_add_from-Refines :
    (name : List ℕ) (k : ℕ) (rows : List Symbol) (names : List (List ℕ))
    → IsName name
    → Names rows names
    → length names < length rows
    → Refines rows (find_or_add_from name k rows) (intern k (c_string name) names)
unfolding intern
find_or_add_from-Refines name k [] [] is nil room = absurd (omega arith)
find_or_add_from-Refines name k [] (n ∷ names) is h room = elim h [ ]
find_or_add_from-Refines name k (row ∷ rows) [] is (free f rest) room =
    rw (step-free name k row rows f.free)
      (record { index = refl; names = held (named-Holds row name is f) rest; same_length = refl })
find_or_add_from-Refines name k (row ∷ rows) (n ∷ names) is (held h rest) room =
    let compare = strcmp_lem row.name name h.bytes is.bytes in
    let next = find_or_add_from-Refines name (k + 1) rows names is rest (omega arith) in
    elim (List-discrete ℕ_discrete n (c_string name)) [
      | yes e ↦
          rw
            (
              step-found name k row rows h.in_use (compare.1 (h.stored ∙ e)),
              intern-found k (c_string name) n names e,
            )
            (record { index = refl; names = held h rest; same_length = refl })
      | no ne ↦
          rw
            (
              step-other name k row rows h.in_use (λ z. ne (sym h.stored ∙ compare.0 z)),
              intern-other k (c_string name) n names ne,
            )
            (record {
              index = next.index;
              names = held h next.names;
              same_length = ap suc next.same_length;
            })
    ]

-- The indices that the calls for a list of names return, one after the other.
unfoldable pub add_all : List Symbol → List (List ℕ) → List ℕ
add_all s_table [] = []
add_all s_table (name ∷ names) =
    let (s, rows) = find_or_add_symbol s_table name in s ∷ add_all rows names

unfoldable pub intern_all : List (List ℕ) → List (List ℕ) → List ℕ
intern_all known [] = []
intern_all known (name ∷ names) =
    let (s, more) = intern 0 (c_string name) known in s ∷ intern_all more names

pub data AreNames : List (List ℕ) → Type 0 where
  nil : AreNames []
  cons :
      {name : List ℕ} {names : List (List ℕ)}
      → IsName name
      → AreNames names
      → AreNames (name ∷ names)

length-intern :
    (k : ℕ) (name : List ℕ) (names : List (List ℕ))
    → length (intern k name names).1 ≤ length names + 1
unfolding intern
length-intern k name [] = omega arith
length-intern k name (n ∷ ns) = elim (List-discrete ℕ_discrete n name) [
  | yes e ↦ rw (intern-found k name n ns e) (omega arith)
  | no ne ↦ rw (intern-other k name n ns ne) (omega (arith, length-intern (k + 1) name ns))
]

-- From a table that holds the names `known` and has room for the others, calls of
-- `find_or_add_symbol` return the indices of the list of different names: the same index for the
-- same name, and the next one for a new name. Every name is a string of 1 to 7 bytes.
pub find_or_add_symbol-refines :
    (names : List (List ℕ)) (s_table : List Symbol) (known : List (List ℕ))
    → Names s_table known
    → AreNames names
    → length known + length names ≤ length s_table
    → add_all s_table names ≡ intern_all known names
unfolding add_all intern_all find_or_add_symbol
find_or_add_symbol-refines [] s_table known h are room = refl
find_or_add_symbol-refines (name ∷ names) s_table known h (cons is are) room =
    let step = find_or_add_from-Refines name 0 s_table known is h (omega arith) in
    let more = length-intern 0 (c_string name) known in
    ap₂ ◌∷◌ step.index
      (find_or_add_symbol-refines names _ _ step.names are (omega (arith, step.same_length, more)))
