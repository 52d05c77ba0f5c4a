-- ===== src/KeyCodes.antt =====
-- libc/include/sys/key_codes.h, the codes of the keys that have no character of their own, as far as
-- the kernel's tables and its line editor use them.
use model_lib.Common.{ℕ}

abbrev pub key_backspace : ℕ
key_backspace = 8

abbrev pub key_tab : ℕ
key_tab = 9

abbrev pub key_new_line : ℕ
key_new_line = 10

abbrev pub key_esc : ℕ
key_esc = 27

abbrev pub key_del : ℕ
key_del = 127

abbrev pub key_insert : ℕ
key_insert = 128

abbrev pub key_left : ℕ
key_left = 129

abbrev pub key_right : ℕ
key_right = 130

abbrev pub key_up : ℕ
key_up = 131

abbrev pub key_down : ℕ
key_down = 132

abbrev pub key_pg_up : ℕ
key_pg_up = 133

abbrev pub key_pg_down : ℕ
key_pg_down = 134

abbrev pub key_home : ℕ
key_home = 135

abbrev pub key_end : ℕ
key_end = 136

abbrev pub key_lshift : ℕ
key_lshift = 137

abbrev pub key_rshift : ℕ
key_rshift = 138

abbrev pub key_lalt : ℕ
key_lalt = 139

abbrev pub key_ralt : ℕ
key_ralt = 140

abbrev pub key_lctrl : ℕ
key_lctrl = 141

abbrev pub key_rctrl : ℕ
key_rctrl = 142

abbrev pub key_caps_lock : ℕ
key_caps_lock = 143

abbrev pub key_f1 : ℕ
key_f1 = 151

abbrev pub key_f2 : ℕ
key_f2 = 152

abbrev pub key_f3 : ℕ
key_f3 = 153

abbrev pub key_f4 : ℕ
key_f4 = 154

abbrev pub key_f5 : ℕ
key_f5 = 155

abbrev pub key_f6 : ℕ
key_f6 = 156

abbrev pub key_f7 : ℕ
key_f7 = 157

abbrev pub key_f8 : ℕ
key_f8 = 158

abbrev pub key_f9 : ℕ
key_f9 = 159

abbrev pub key_f10 : ℕ
key_f10 = 160

abbrev pub key_f11 : ℕ
key_f11 = 161

abbrev pub key_f12 : ℕ
key_f12 = 162
