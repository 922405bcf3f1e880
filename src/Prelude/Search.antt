-- ===== src/Prelude/Search.antt =====
-- What a linear search from `lo` up to `hi` answers.
use Prim.Native.Nat.{ℕ, zero, suc, ◌+◌, ◌≤◌, ◌<◌}
use mathlib.Core.Path.{◌≡◌}
use mathlib.Core.Logic.{◌⊎◌, inl, inr}
use mathlib.Core.Bool.{Bool, true, false, ◌||◌, not}
use native.Mathlib.Omega.{arith}
use native.Mathlib.Decide.{dec_lt}
use nano_s.Prelude.Tests.{Bool-cases}

-- The answer is that for the first index at which the test holds.
pub record Hit {A : Type 0} (test : ℕ → Bool) (lo hi : ℕ) (answer : ℕ → A) (r : A) : Type 0 where
  pub index : ℕ
  pub is : r ≡ answer index
  pub from : lo ≤ index
  pub to : index < hi
  pub holds : test index ≡ true
  pub before : (m : ℕ) → lo ≤ m → m < index → test m ≡ false

-- The test holds nowhere, and the answer is `none`.
pub record Miss {A : Type 0} (test : ℕ → Bool) (lo hi : ℕ) (none : A) (r : A) : Type 0 where
  pub is : r ≡ none
  pub nowhere : (m : ℕ) → lo ≤ m → m < hi → test m ≡ false

abbrev pub Searched : {A : Type 0} → (ℕ → Bool) → ℕ → ℕ → (ℕ → A) → A → A → Type 0
Searched test lo hi answer none r = Hit test lo hi answer r ⊎ Miss test lo hi none r

module _ {A : Type 0} (test : ℕ → Bool) (answer : ℕ → A) (none : A) where
  pub Searched-empty : (lo hi : ℕ) {r : A} → hi ≤ lo → r ≡ none → Searched test lo hi answer none r
  Searched-empty lo hi over e = inr (record { is = e; nowhere = λ m p q. absurd (omega arith) })

  pub Searched-here :
      (lo hi : ℕ) {r : A}
      → lo < hi
      → test lo ≡ true
      → r ≡ answer lo
      → Searched test lo hi answer none r
  Searched-here lo hi lt t e = inl (record {
    index = lo;
    is = e;
    from = omega arith;
    to = lt;
    holds = t;
    before = λ m p q. absurd (omega arith);
  })

  pub Searched-later :
      (lo hi : ℕ) {r : A}
      → test lo ≡ false
      → Searched test (lo + 1) hi answer none r
      → Searched test lo hi answer none r
  Searched-later lo hi f (inl h) = inl (record {
    index = h.index;
    is = h.is;
    from = omega (arith, h.from);
    to = h.to;
    holds = h.holds;
    before = λ m p q. elim (dec_lt lo m) [
      | yes lt ↦ h.before m (omega arith) q
      | no ge ↦ let e : m ≡ lo = omega arith in rw e f
    ];
  })
  Searched-later lo hi f (inr h) = inr (record {
    is = h.is;
    nowhere = λ m p q. elim (dec_lt lo m) [
      | yes lt ↦ h.nowhere m (omega arith) q
      | no ge ↦ let e : m ≡ lo = omega arith in rw e f
    ];
  })

-- Whether the test holds at one of the `left` indices from `n` on.
unfoldable pub any_from : ℕ → ℕ → (ℕ → Bool) → Bool
any_from zero n test = false
any_from (suc left) n test = test n || any_from left (n + 1) test

pub any_from-false :
    (left n : ℕ) (test : ℕ → Bool)
    → any_from left n test ≡ false
    → (m : ℕ) → n ≤ m
    → m < n + left
    → test m ≡ false
unfolding any_from
any_from-false zero n test h m p q = absurd (omega arith)
any_from-false (suc left) n test h m p q = elim (Bool-cases (test n)) [
  | inl t ↦ absurd (ground arith)
  | inr f ↦ elim (dec_lt n m) [
    | yes lt ↦ any_from-false left (n + 1) test (ground arith) m (omega arith) (omega arith)
    | no ge ↦ let e : m ≡ n = omega arith in rw e f
  ]
]

-- A test that a computation finds to hold at every number below a bound.
pub holds_below :
    (n : ℕ) (test : ℕ → Bool)
    → any_from n 0 (λ m. not (test m)) ≡ false
    → (m : ℕ) → m < n
    → test m ≡ true
holds_below n test h m lt = elim (Bool-cases (test m)) [
  | inl t ↦ t
  | inr f ↦
      let no : not (test m) ≡ false =
        any_from-false n 0 (λ m. not (test m)) h m (omega arith) (omega arith) in
      absurd (ground arith)
]
