-- ===== src/Fs/Image.antt =====
-- How the structures of Fs/Types.antt lie in memory and on disk: little endian, without padding,
-- as the compiler of source/Makefile lays out `sfs_entry_t` and `sfs_superblock_t`.
use nano_s.Prelude.{
  ℕ, zero, suc, ◌+◌, ◌*◌, ◌/◌, ◌%◌, ◌^◌, ◌<◌, ◌≡◌, refl, ap, ap₂, ◌∙◌, List, [], ◌∷◌, ◌++◌, get_or,
  take, drop, length, arith, length-append,
}
use nano_s.Fs.Types.{Entry, SuperBlock, IsEntry, sfs_entryrefs, sfs_namesize, sfs_entry_size}

-- A `uint32_t` in memory.
abbrev pub bytes32 : ℕ → List ℕ
bytes32 v = v % 256 ∷ v / 256 % 256 ∷ v / 65536 % 256 ∷ v / 16777216 % 256 ∷ []

pub bytes32s : List ℕ → List ℕ
bytes32s [] = []
bytes32s (v ∷ vs) = bytes32 v ++ bytes32s vs

-- The value at the start of `bs`.
abbrev pub value32 : List ℕ → ℕ
value32 bs = get_or bs 0 0 + 256 * get_or bs 1 0 + 65536 * get_or bs 2 0 + 16777216 * get_or bs 3 0

unfoldable pub values32 : ℕ → List ℕ → List ℕ
values32 zero bs = []
values32 (suc n) bs = value32 bs ∷ values32 n (drop 4 bs)

unfoldable pub encode_entry : Entry → List ℕ
unfolding bytes32s
encode_entry e =
    e.flags ∷ e.name
    ++ (bytes32 e.time
        ++ (bytes32 e.size ++ (bytes32 e.parent ++ (bytes32 e.next ++ bytes32s e.ref))))

unfoldable pub decode_entry : List ℕ → Entry
unfolding values32
decode_entry bs =
    let rest = drop (1 + sfs_namesize) bs in
    record {
      flags = get_or bs 0 0;
      name = take sfs_namesize (drop 1 bs);
      time = value32 rest;
      size = value32 (drop 4 rest);
      parent = value32 (drop 8 rest);
      next = value32 (drop 12 rest);
      ref = values32 sfs_entryrefs (drop 16 rest);
    }

unfoldable pub decode_super : List ℕ → SuperBlock
decode_super bs = record {
  kind = value32 bs;
  size = value32 (drop 4 bs);
  nentries = value32 (drop 8 bs);
  bootstart = value32 (drop 12 bs);
}

unfoldable pub encode_super : SuperBlock → List ℕ
encode_super s = bytes32 s.kind ++ (bytes32 s.size ++ (bytes32 s.nentries ++ bytes32 s.bootstart))

value32-bytes32 : (v : ℕ) (bs : List ℕ) → v < 2 ^ 32 → value32 (bytes32 v ++ bs) ≡ v
value32-bytes32 v bs h = omega arith

values32-bytes32s :
    (vs : List ℕ) → ((i : ℕ) → get_or vs i 0 < 2 ^ 32) → values32 (length vs) (bytes32s vs) ≡ vs
unfolding values32 bytes32s
values32-bytes32s [] h = refl
values32-bytes32s (v ∷ vs) h =
    rw (value32-bytes32 v (bytes32s vs) (h 0), values32-bytes32s vs (λ i. h (suc i)))

length-bytes32s : (vs : List ℕ) → length (bytes32s vs) ≡ 4 * length vs
unfolding bytes32s
length-bytes32s [] = refl
length-bytes32s (v ∷ vs) = omega (arith, length-bytes32s vs)

pub length-encode_entry : (e : Entry) → IsEntry e → length (encode_entry e) ≡ sfs_entry_size
unfolding encode_entry
length-encode_entry e v = omega (
  arith,
  length-append e.name (
      bytes32 e.time
      ++ (bytes32 e.size ++ (bytes32 e.parent ++ (bytes32 e.next ++ bytes32s e.ref)))),
  length-bytes32s e.ref,
)

take-append : (n : ℕ) (xs ys : List ℕ) → length xs ≡ n → take n (xs ++ ys) ≡ xs
take-append zero [] ys h = refl
take-append zero (x ∷ xs) ys h = absurd (omega arith)
take-append (suc n) [] ys h = absurd (omega arith)
take-append (suc n) (x ∷ xs) ys h = ap (λ t. x ∷ t) (take-append n xs ys (omega arith))

drop-append : (n : ℕ) (xs ys : List ℕ) → length xs ≡ n → drop n (xs ++ ys) ≡ ys
drop-append zero [] ys h = refl
drop-append zero (x ∷ xs) ys h = absurd (omega arith)
drop-append (suc n) [] ys h = absurd (omega arith)
drop-append (suc n) (x ∷ xs) ys h = drop-append n xs ys (omega arith)

-- What is decoded from a flag byte, a name and the rest.
abbrev entry_of : ℕ → List ℕ → List ℕ → Entry
entry_of flags name rest = record {
  flags = flags;
  name = name;
  time = value32 rest;
  size = value32 (drop 4 rest);
  parent = value32 (drop 8 rest);
  next = value32 (drop 12 rest);
  ref = values32 sfs_entryrefs (drop 16 rest);
}

decode_entry-append :
    (flags : ℕ) (name rest : List ℕ)
    → length name ≡ sfs_namesize
    → decode_entry (flags ∷ name ++ rest) ≡ entry_of flags name rest
unfolding decode_entry
decode_entry-append flags name rest h =
    ap₂ (entry_of flags) (take-append sfs_namesize name rest h)
      (drop-append sfs_namesize name rest h)

-- An entry that is written to a block and read back is the same entry.
pub decode_entry-encode_entry : (e : Entry) → IsEntry e → decode_entry (encode_entry e) ≡ e
unfolding encode_entry
decode_entry-encode_entry e v = decode_entry-append e.flags e.name rest v.name_length ∙ same
  where
    rest : List ℕ
    rest =
        bytes32 e.time
        ++ (bytes32 e.size ++ (bytes32 e.parent ++ (bytes32 e.next ++ bytes32s e.ref)))

    refs : values32 sfs_entryrefs (bytes32s e.ref) ≡ e.ref
    refs = rw (← v.ref_length) (values32-bytes32s e.ref v.ref_fits)

    same : entry_of e.flags e.name rest ≡ e
    same = λ i. record {
      flags = e.flags;
      name = e.name;
      time = value32-bytes32 e.time [] v.time_fits i;
      size = value32-bytes32 e.size [] v.size_fits i;
      parent = value32-bytes32 e.parent [] v.parent_fits i;
      next = value32-bytes32 e.next [] v.next_fits i;
      ref = refs i;
    }
