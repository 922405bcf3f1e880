-- ===== src/Fs/Time.antt =====
-- Time stamps, source/fs.c: `fs_fstime_to_systime` and `fs_systime_to_fstime`; and the clock
-- reading of source/kernel.c, `BCD_to_int` and the case SYSCALL_CLK_GET_TIME.
use nano_s.Prelude.{
  ℕ, ◌+◌, ◌-◌, ◌*◌, ◌/◌, ◌%◌, ◌^◌, ◌≤◌, ◌<◌, ◌≡◌, ◌∙◌, u16, u32, sub16, bit_and, bit_or,
  bit_and_mask, bit_or_fields, arith,
}

-- `time_t`
pub record SysTime : Type 0 where
  pub year : ℕ
  pub month : ℕ
  pub day : ℕ
  pub hour : ℕ
  pub minute : ℕ
  pub second : ℕ

abbrev months_of : ℕ → ℕ
months_of fst = bit_and (fst / 2 ^ 22) 0x3FF

abbrev seconds_of : ℕ → ℕ
seconds_of fst = bit_and fst 0x3FFFFF

unfoldable pub fs_fstime_to_systime : ℕ → SysTime
fs_fstime_to_systime fst = record {
  year = u16 (months_of fst / 12 + 2017);
  month = u16 (months_of fst % 12 + 1);
  day = u16 (seconds_of fst / 86400 + 1);
  hour = u16 (seconds_of fst / 3600 % 24);
  minute = u16 (seconds_of fst / 60 % 60);
  second = u16 (seconds_of fst % 60);
}

unfoldable pub fs_systime_to_fstime : SysTime → ℕ
fs_systime_to_fstime t =
    let seconds =
      u32 (t.second + t.minute * 60 + t.hour * 60 * 60 + sub16 t.day 1 * 24 * 60 * 60) in
    let months = u32 (sub16 t.year 2017 * 12 + sub16 t.month 1) in
    bit_or (bit_and seconds 0x3FFFFF) (u32 (months * 2 ^ 22))

-- A date from 2017 on whose month count fits the ten bits of the format.
pub record IsDate (t : SysTime) : Type 0 where
  pub year_from : 2017 ≤ t.year
  pub year_to : t.year ≤ 2101
  pub month_from : 1 ≤ t.month
  pub month_to : t.month ≤ 12
  pub day_from : 1 ≤ t.day
  pub day_to : t.day ≤ 31
  pub hour_to : t.hour < 24
  pub minute_to : t.minute < 60
  pub second_to : t.second < 60

SysTime_ext :
    (s t : SysTime)
    → s.year ≡ t.year
    → s.month ≡ t.month
    → s.day ≡ t.day
    → s.hour ≡ t.hour
    → s.minute ≡ t.minute
    → s.second ≡ t.second
    → s ≡ t
SysTime_ext s t a b c d e f = ground arith

abbrev seconds_sum : SysTime → ℕ
seconds_sum t = t.second + t.minute * 60 + t.hour * 3600 + (t.day - 1) * 86400

abbrev months_sum : SysTime → ℕ
months_sum t = (t.year - 2017) * 12 + (t.month - 1)

-- The stamp as a sum of its two fields.
fs_systime_to_fstime-sum :
    (t : SysTime)
    → 2017 ≤ t.year
    → t.year < 2 ^ 16
    → 1 ≤ t.month
    → t.month < 2 ^ 16
    → 1 ≤ t.day
    → seconds_sum t < 2 ^ 22
    → months_sum t < 1024
    → fs_systime_to_fstime t ≡ seconds_sum t + months_sum t * 2 ^ 22
unfolding fs_systime_to_fstime
fs_systime_to_fstime-sum t y y' mo mo' d small few =
    let s = seconds_sum t in
    let m = months_sum t in
    let es : u32 (t.second + t.minute * 60 + t.hour * 60 * 60 + sub16 t.day 1 * 24 * 60 * 60) ≡ s =
      omega arith in
    let em : u32 (u32 (sub16 t.year 2017 * 12 + sub16 t.month 1) * 2 ^ 22) ≡ m * 2 ^ 22 =
      omega arith in
    let low : bit_and s 0x3FFFFF ≡ s = bit_and_mask 22 s ∙ omega arith in
    rw (es, em, low) (bit_or_fields 22 m s (omega arith))

months_lem : (fst : ℕ) → months_of fst ≡ fst / 2 ^ 22 % 1024
months_lem fst = bit_and_mask 10 (fst / 2 ^ 22)

seconds_lem : (fst : ℕ) → seconds_of fst ≡ fst % 2 ^ 22
seconds_lem fst = bit_and_mask 22 fst

-- A date from 2017 to 2101 that is stored as a time stamp is read back as the same date.
pub fs_fstime_to_systime-fs_systime_to_fstime :
    (t : SysTime) → IsDate t → fs_fstime_to_systime (fs_systime_to_fstime t) ≡ t
fs_fstime_to_systime-fs_systime_to_fstime t v =
    let stamp =
      fs_systime_to_fstime-sum t (omega arith) (omega arith) (omega arith) (omega arith)
        (omega arith) (omega arith) (omega arith) in
    let m = months_lem (fs_systime_to_fstime t) in
    let s = seconds_lem (fs_systime_to_fstime t) in
    SysTime_ext (fs_fstime_to_systime (fs_systime_to_fstime t)) t
      (unfold fs_fstime_to_systime in omega (arith, stamp, m, s))
      (unfold fs_fstime_to_systime in omega (arith, stamp, m, s))
      (unfold fs_fstime_to_systime in omega (arith, stamp, m, s))
      (unfold fs_fstime_to_systime in omega (arith, stamp, m, s))
      (unfold fs_fstime_to_systime in omega (arith, stamp, m, s))
      (unfold fs_fstime_to_systime in omega (arith, stamp, m, s))

-- Every time stamp is the stamp of the date that it is read as.
pub fs_systime_to_fstime-fs_fstime_to_systime :
    (fst : ℕ) → fst < 2 ^ 32 → fs_systime_to_fstime (fs_fstime_to_systime fst) ≡ fst
unfolding fs_fstime_to_systime
fs_systime_to_fstime-fs_fstime_to_systime fst h =
    let m = months_lem fst in
    let s = seconds_lem fst in
    fs_systime_to_fstime-sum (fs_fstime_to_systime fst) (omega (arith, m)) (omega (arith, m))
      (omega (arith, m)) (omega (arith, m)) (omega (arith, s)) (omega (arith, s)) (omega (arith, m))
    ∙ omega (arith, m, s)

-- `BCD_to_int`
unfoldable pub bcd_to_int : ℕ → ℕ
bcd_to_int bcd = bcd / 2 ^ 4 * 10 + bit_and bcd 0xF

-- The case SYSCALL_CLK_GET_TIME, from the bytes that the clock gives: hour, minute, second; year
-- of the century, month, day.
unfoldable pub clk_get_time : ℕ × ℕ × ℕ → ℕ × ℕ × ℕ → SysTime
unfolding bcd_to_int
clk_get_time (h, m, s) (y, mo, d) = record {
  year = bcd_to_int y + 2000;
  month = bcd_to_int mo;
  day = bcd_to_int d;
  hour = bcd_to_int h;
  minute = bcd_to_int m;
  second = bcd_to_int s;
}

-- Two decimal digits, packed.
pub bcd_to_int_digits : (hi lo : ℕ) → hi < 10 → lo < 10 → bcd_to_int (hi * 16 + lo) ≡ hi * 10 + lo
unfolding bcd_to_int
bcd_to_int_digits hi lo p q = omega (arith, bit_and_mask 4 (hi * 16 + lo))

-- The stamp of a date fits 32 bits.
pub fs_systime_to_fstime_bound : (t : SysTime) → IsDate t → fs_systime_to_fstime t < 2 ^ 32
fs_systime_to_fstime_bound t v = omega (
  arith,
  fs_systime_to_fstime-sum t (omega arith) (omega arith) (omega arith) (omega arith) (omega arith)
      (omega arith) (omega arith),
)
