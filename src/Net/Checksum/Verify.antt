-- ===== src/Net/Checksum/Verify.antt =====
-- The checksum of source/net.c, put into the header, makes the checksum of the header 0.
use nano_s.Prelude.{
  ℕ, ◌+◌, ◌*◌, ◌-◌, ◌/◌, ◌%◌, ◌≤◌, ◌<◌, ◌^◌, ◌≡◌, List, [], ◌∷◌, ◌++◌, arith, length, length-append,
}
use nano_s.Net.Checksum.{bswap_16, net_checksum_acc, net_checksum_final, net_checksum}

-- Whole words.
pub data IsWords : List ℕ → Type 0 where
  nil : IsWords []
  cons : {c d : ℕ} {words : List ℕ} → c < 256 → d < 256 → IsWords words → IsWords (c ∷ d ∷ words)

-- The sum is below the words' number times 2 ^ 16.
net_checksum_acc_lt :
    (words : List ℕ)
    → IsWords words
    → length words < 65536
    → net_checksum_acc words ≤ 32768 * length words
unfolding net_checksum_acc
net_checksum_acc_lt [] nil lt = omega arith
net_checksum_acc_lt (c ∷ []) w lt = elim w [ ]
net_checksum_acc_lt (c ∷ d ∷ words) (cons p q w) lt =
    omega (arith, net_checksum_acc_lt words w (omega arith))

pub append-IsWords : (front rest : List ℕ) → IsWords front → IsWords rest → IsWords (front ++ rest)
append-IsWords [] rest nil r = r
append-IsWords (a ∷ []) rest w r = elim w [ ]
append-IsWords (a ∷ b ∷ front) rest (cons p q f) r = cons p q (append-IsWords front rest f r)

-- A word in the middle adds to the sum.
net_checksum_acc-insert :
    (front rest : List ℕ) (c d : ℕ)
    → IsWords front
    → IsWords rest
    → c < 256
    → d < 256
    → length front + length rest < 65530
    → net_checksum_acc (front ++ (c ∷ d ∷ rest))
      ≡ net_checksum_acc (front ++ (0 ∷ 0 ∷ rest)) + (c + 256 * d)
unfolding net_checksum_acc
net_checksum_acc-insert [] rest c d nil r p q lt =
    omega (arith, net_checksum_acc_lt rest r (omega arith))
net_checksum_acc-insert (a ∷ []) rest c d w r p q lt = elim w [ ]
net_checksum_acc-insert (a ∷ b ∷ front) rest c d (cons x y f) r p q lt =
    let zero_words = append-IsWords front (0 ∷ 0 ∷ rest) f (cons (omega arith) (omega arith) r) in
    let count = length-append front (0 ∷ 0 ∷ rest) in
    let small = net_checksum_acc_lt (front ++ (0 ∷ 0 ∷ rest)) zero_words (omega (arith, count)) in
    omega (arith, net_checksum_acc-insert front rest c d f r p q (omega arith), small, count)

-- The word that is stored is the complement of the folded sum.
bswap_16-net_checksum_final :
    (sum : ℕ)
    → sum % 65536 + sum / 65536 < 65536
    → bswap_16 (net_checksum_final sum) ≡ 65535 - (sum % 65536 + sum / 65536)
unfolding net_checksum_final
bswap_16-net_checksum_final sum h = omega arith

final-zero :
    (sum : ℕ)
    → sum % 65536 + sum / 65536 < 65536
    → sum < 2 ^ 32 - 65536
    → net_checksum_final (sum + (65535 - (sum % 65536 + sum / 65536))) ≡ 0
unfolding net_checksum_final
final-zero sum h lt = omega arith

-- A header of whole words, less than 65530 bytes, gets the checksum, with its bytes swapped, where a
-- 0 stood: then its checksum is 0, as the receiver tests. The one folding of the sum of the header
-- must have left no further carry.
pub net_checksum-verifies :
    (front rest : List ℕ)
    → IsWords front
    → IsWords rest
    → length front + length rest < 65530
    → let sum = net_checksum_acc (front ++ (0 ∷ 0 ∷ rest)) in
      sum % 65536 + sum / 65536 < 65536
      → let word = bswap_16 (net_checksum (front ++ (0 ∷ 0 ∷ rest))) in
        net_checksum (front ++ (word % 256 ∷ word / 256 ∷ rest)) ≡ 0
unfolding net_checksum
net_checksum-verifies front rest f r lt carry =
    let sum = net_checksum_acc (front ++ (0 ∷ 0 ∷ rest)) in
    let word = bswap_16 (net_checksum_final sum) in
    let value = bswap_16-net_checksum_final sum carry in
    let byte : word < 65536 = omega (arith, value) in
    let zero_words = append-IsWords front (0 ∷ 0 ∷ rest) f (cons (omega arith) (omega arith) r) in
    let count = length-append front (0 ∷ 0 ∷ rest) in
    let small = net_checksum_acc_lt (front ++ (0 ∷ 0 ∷ rest)) zero_words (omega (arith, count)) in
    let inserted =
      net_checksum_acc-insert front rest (word % 256) (word / 256) f r (omega arith) (omega arith)
        lt in
    let whole : word % 256 + 256 * (word / 256) ≡ 65535 - (sum % 65536 + sum / 65536) =
      omega (arith, value) in
    rw (inserted, whole) (final-zero sum carry (omega (arith, small, count)))
