-- ===== src/Fs/Tests.antt =====
-- Witnesses for the time stamps and the disk structures of source/fs.c.
use nano_s.Prelude.{◌≡◌, arith}
use nano_s.Fs.Time.{SysTime, bcd_to_int, bcd_to_int_digits}

abbrev new_years_eve : SysTime
new_years_eve = record { year = 2019; month = 12; day = 31; hour = 23; minute = 59; second = 58 }

bcd_to_int_digits_example : bcd_to_int 0x59 ≡ 59
bcd_to_int_digits_example = bcd_to_int_digits 5 9 (omega arith) (omega arith)
