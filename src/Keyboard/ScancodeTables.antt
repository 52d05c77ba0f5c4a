-- ===== src/Keyboard/ScancodeTables.antt =====
-- drivers/keyboard/kb_scancode_tables.c: the codes of the keys, in three tables of 256 entries.
use model_lib.Common.{ℕ, List, [], ◌∷◌, set, replicate}
use model_lib.KeyCodes.{
  key_backspace, key_tab, key_new_line, key_esc, key_del, key_insert, key_left, key_right, key_up,
  key_down, key_pg_up, key_pg_down, key_home, key_end, key_lshift, key_rshift, key_lalt, key_ralt,
  key_lctrl, key_rctrl, key_caps_lock, key_f1, key_f2, key_f3, key_f4, key_f5, key_f6, key_f7,
  key_f8, key_f9, key_f10, key_f11, key_f12,
}

-- The assignments to a table, in order.
write_all : List (ℕ × ℕ) → List ℕ → List ℕ
write_all [] table = table
write_all ((i, v) ∷ r) table = write_all r (set table i v)

abbrev lower_entries : List (ℕ × ℕ)
lower_entries =
    (0x01, key_esc)
    ∷ (0x02, b'1')
    ∷ (0x03, b'2')
    ∷ (0x04, b'3')
    ∷ (0x05, b'4')
    ∷ (0x06, b'5')
    ∷ (0x07, b'6')
    ∷ (0x08, b'7')
    ∷ (0x09, b'8')
    ∷ (0x0A, b'9')
    ∷ (0x0B, b'0')
    ∷ (0x0C, b'-')
    ∷ (0x0D, b'=')
    ∷ (0x0E, key_backspace)
    ∷ (0x0F, key_tab)
    ∷ (0x10, b'q')
    ∷ (0x11, b'w')
    ∷ (0x12, b'e')
    ∷ (0x13, b'r')
    ∷ (0x14, b't')
    ∷ (0x15, b'y')
    ∷ (0x16, b'u')
    ∷ (0x17, b'i')
    ∷ (0x18, b'o')
    ∷ (0x19, b'p')
    ∷ (0x1A, b'[')
    ∷ (0x1B, b']')
    ∷ (0x1C, key_new_line)
    ∷ (0x1D, key_lctrl)
    ∷ (0x1E, b'a')
    ∷ (0x1F, b's')
    ∷ (0x20, b'd')
    ∷ (0x21, b'f')
    ∷ (0x22, b'g')
    ∷ (0x23, b'h')
    ∷ (0x24, b'j')
    ∷ (0x25, b'k')
    ∷ (0x26, b'l')
    ∷ (0x27, b';')
    ∷ (0x28, 39)
    ∷ (0x29, b'`')
    ∷ (0x2A, key_lshift)
    ∷ (0x2B, 92)
    ∷ (0x2C, b'z')
    ∷ (0x2D, b'x')
    ∷ (0x2E, b'c')
    ∷ (0x2F, b'v')
    ∷ (0x30, b'b')
    ∷ (0x31, b'n')
    ∷ (0x32, b'm')
    ∷ (0x33, b',')
    ∷ (0x34, b'.')
    ∷ (0x35, b'/')
    ∷ (0x36, key_rshift)
    ∷ (0x37, b'*')
    ∷ (0x38, key_lalt)
    ∷ (0x39, b' ')
    ∷ (0x47, b'7')
    ∷ (0x48, b'8')
    ∷ (0x49, b'9')
    ∷ (0x4A, b'-')
    ∷ (0x4B, b'4')
    ∷ (0x4C, b'5')
    ∷ (0x4D, b'6')
    ∷ (0x4E, b'+')
    ∷ (0x4F, b'1')
    ∷ (0x50, b'2')
    ∷ (0x51, b'3')
    ∷ (0x52, b'0')
    ∷ (0x53, b'.')
    ∷ (0x58, key_caps_lock)
    ∷ (0x3B, key_f1)
    ∷ (0x3C, key_f2)
    ∷ (0x3D, key_f3)
    ∷ (0x3E, key_f4)
    ∷ (0x3F, key_f5)
    ∷ (0x40, key_f6)
    ∷ (0x41, key_f7)
    ∷ (0x42, key_f8)
    ∷ (0x43, key_f9)
    ∷ (0x44, key_f10)
    ∷ (0x57, key_f11)
    ∷ (0x58, key_f12)
    ∷ []

abbrev upper_entries : List (ℕ × ℕ)
upper_entries =
    (0x01, key_esc)
    ∷ (0x02, b'!')
    ∷ (0x03, b'@')
    ∷ (0x04, b'#')
    ∷ (0x05, b'$')
    ∷ (0x06, b'%')
    ∷ (0x07, b'^')
    ∷ (0x08, b'&')
    ∷ (0x09, b'*')
    ∷ (0x0A, b'(')
    ∷ (0x0B, b')')
    ∷ (0x0C, b'_')
    ∷ (0x0D, b'+')
    ∷ (0x0E, key_backspace)
    ∷ (0x0F, key_tab)
    ∷ (0x10, b'Q')
    ∷ (0x11, b'W')
    ∷ (0x12, b'E')
    ∷ (0x13, b'R')
    ∷ (0x14, b'T')
    ∷ (0x15, b'Y')
    ∷ (0x16, b'U')
    ∷ (0x17, b'I')
    ∷ (0x18, b'O')
    ∷ (0x19, b'P')
    ∷ (0x1A, b'{')
    ∷ (0x1B, b'}')
    ∷ (0x1C, key_new_line)
    ∷ (0x1D, key_lctrl)
    ∷ (0x1E, b'A')
    ∷ (0x1F, b'S')
    ∷ (0x20, b'D')
    ∷ (0x21, b'F')
    ∷ (0x22, b'G')
    ∷ (0x23, b'H')
    ∷ (0x24, b'J')
    ∷ (0x25, b'K')
    ∷ (0x26, b'L')
    ∷ (0x27, b':')
    ∷ (0x28, 34)
    ∷ (0x29, b'~')
    ∷ (0x2A, key_lshift)
    ∷ (0x2B, b'|')
    ∷ (0x2C, b'Z')
    ∷ (0x2D, b'X')
    ∷ (0x2E, b'C')
    ∷ (0x2F, b'V')
    ∷ (0x30, b'B')
    ∷ (0x31, b'N')
    ∷ (0x32, b'M')
    ∷ (0x33, b'<')
    ∷ (0x34, b'>')
    ∷ (0x35, b'?')
    ∷ (0x36, key_rshift)
    ∷ (0x37, b'*')
    ∷ (0x38, key_lalt)
    ∷ (0x39, b' ')
    ∷ (0x47, b'7')
    ∷ (0x48, b'8')
    ∷ (0x49, b'9')
    ∷ (0x4A, b'-')
    ∷ (0x4B, b'4')
    ∷ (0x4C, b'5')
    ∷ (0x4D, b'6')
    ∷ (0x4E, b'+')
    ∷ (0x4F, b'1')
    ∷ (0x50, b'2')
    ∷ (0x51, b'3')
    ∷ (0x52, b'0')
    ∷ (0x53, b'.')
    ∷ (0x58, key_caps_lock)
    ∷ (0x3B, key_f1)
    ∷ (0x3C, key_f2)
    ∷ (0x3D, key_f3)
    ∷ (0x3E, key_f4)
    ∷ (0x3F, key_f5)
    ∷ (0x40, key_f6)
    ∷ (0x41, key_f7)
    ∷ (0x42, key_f8)
    ∷ (0x43, key_f9)
    ∷ (0x44, key_f10)
    ∷ (0x57, key_f11)
    ∷ (0x58, key_f12)
    ∷ []

abbrev two_byte_entries : List (ℕ × ℕ)
two_byte_entries =
    (0x1C, key_new_line)
    ∷ (0x1D, key_rctrl)
    ∷ (0x35, b'/')
    ∷ (0x38, key_ralt)
    ∷ (0x47, key_home)
    ∷ (0x48, key_up)
    ∷ (0x49, key_pg_up)
    ∷ (0x4B, key_left)
    ∷ (0x4D, key_right)
    ∷ (0x4F, key_end)
    ∷ (0x50, key_down)
    ∷ (0x51, key_pg_down)
    ∷ (0x52, key_insert)
    ∷ (0x53, key_del)
    ∷ []

unfoldable pub ascii_lower : List ℕ
unfolding write_all
ascii_lower = write_all lower_entries (replicate 256 0)

unfoldable pub ascii_upper : List ℕ
unfolding write_all
ascii_upper = write_all upper_entries (replicate 256 0)

unfoldable pub ascii_two_byte : List ℕ
unfolding write_all
ascii_two_byte = write_all two_byte_entries (replicate 256 0)
