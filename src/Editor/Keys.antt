-- ===== src/Editor/Keys.antt =====
-- The keys of source/ulib/ulib.h that the editor, source/programs/edit.c, knows.
use nano_s.Prelude.{ℕ}

abbrev pub backspace : ℕ
backspace = 0x0008

abbrev pub enter : ℕ
enter = 0x000D

abbrev pub esc : ℕ
esc = 0x001B

abbrev pub del : ℕ
del = 0x5300

abbrev pub end : ℕ
end = 0x4F00

abbrev pub home : ℕ
home = 0x4700

abbrev pub ins : ℕ
ins = 0x5200

abbrev pub pg_dn : ℕ
pg_dn = 0x5100

abbrev pub pg_up : ℕ
pg_up = 0x4900

abbrev pub prt_sc : ℕ
prt_sc = 0x7200

abbrev pub tab : ℕ
tab = 0x0009

abbrev pub up : ℕ
up = 0x4800

abbrev pub left : ℕ
left = 0x4B00

abbrev pub right : ℕ
right = 0x4D00

abbrev pub down : ℕ
down = 0x5000

abbrev pub f1 : ℕ
f1 = 0x3B00

abbrev pub f10 : ℕ
f10 = 0x4400

abbrev pub f11 : ℕ
f11 = 0x8500

abbrev pub f12 : ℕ
f12 = 0x8600
