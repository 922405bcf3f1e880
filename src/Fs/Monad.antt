-- ===== src/Fs/Monad.antt =====
-- The globals that source/fs.c works on, and its way of handling errors: a function returns a
-- `uint` that is an error if it is at least ERROR_ANY, and its callers return that at once.
use nano_s.Prelude.{◌⊎◌, inl, inr, Bool, ℕ, List, leb, if◌then◌else◌}
use nano_s.Disk.{DiskInfo, Media, Bios}
use nano_s.Fs.Types.{error_any}
use nano_s.Fs.Time.{SysTime}

-- `bios` gives the statuses of disk accesses and `clock` is what `time` answers.
pub record World : Type 0 where
  pub bios : Bios
  pub disk_info : List DiskInfo
  pub media : Media
  pub disk_buff : List ℕ
  pub system_disk : ℕ
  pub clock : SysTime

-- `stuck` is a loop that has used up its fuel.
pub data Outcome (A : Type 0) : Type 0 where
  ok : A → World → Outcome A
  err : ℕ → World → Outcome A
  stuck : Outcome A

abbrev pub M : Type 0 → Type 0
M A = World → Outcome A

abbrev pub pure : {A : Type 0} → A → M A
pure a w = ok a w

abbrev pub fail : {A : Type 0} → ℕ → M A
fail code w = err code w

abbrev pub and_then : {A B : Type 0} → Outcome A → (A → M B) → Outcome B
and_then (ok a w) k = k a w
and_then (err code w) k = err code w
and_then stuck k = stuck

infixl 5 ◌>>=◌ ◌>>◌
abbrev pub ◌>>=◌ : {A B : Type 0} → M A → (A → M B) → M B
m >>= k = λ w. and_then (m w) k

abbrev pub ◌>>◌ : {A B : Type 0} → M A → M B → M B
m >> k = m >>= λ _. k

-- `if(result >= ERROR_ANY) return result;`
abbrev pub check : ℕ → M ℕ
check result = if leb error_any result then fail result else pure result

-- A call whose result the caller looks at itself: the value, or the code.
abbrev pub attempt : {A : Type 0} → M A → M (A ⊎ ℕ)
attempt m w = attempted (m w)
  where
    attempted : {A : Type 0} → Outcome A → Outcome (A ⊎ ℕ)
    attempted (ok a w) = ok (inl a) w
    attempted (err code w) = ok (inr code) w
    attempted stuck = stuck

-- A call of a function that returns a number, by what it returns.
abbrev pub value_of : M ℕ → M ℕ
value_of m w = returned (m w)
  where
    returned : Outcome ℕ → Outcome ℕ
    returned (ok n w) = ok n w
    returned (err code w) = ok code w
    returned stuck = stuck

abbrev pub when : Bool → M ℕ → M ℕ
when test m = if test then m else pure 0

abbrev pub out_of_fuel : {A : Type 0} → M A
out_of_fuel w = stuck
