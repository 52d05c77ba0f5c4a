-- ===== src/Keyboard/Layout.antt =====
-- drivers/keyboard/kb_scancode_tables.c: what the tables say of the keys of a US keyboard.
use model_lib.Common.{
  ℕ, ◌+◌, ◌-◌, ◌<◌, ◌≡◌, refl, inl, inr, Bool, true, false, ◌&&◌, ◌||◌, not, List, [], ◌∷◌, arith,
  if◌then◌else◌, ◌==◌, leb, ltb, Bool-cases, length, get_or, all_below, all_below_sound,
}
use model_lib.KeyCodes.{
  key_backspace, key_tab, key_new_line, key_esc, key_del, key_insert, key_left, key_right, key_up,
  key_down, key_pg_up, key_pg_down, key_home, key_end, key_lshift, key_rshift, key_lalt, key_ralt,
  key_lctrl, key_rctrl, key_f1, key_f2, key_f3, key_f4, key_f5, key_f6, key_f7, key_f8, key_f9,
  key_f10, key_f11, key_f12,
}
use model_lib.Keyboard.{Kb, translate, ascii_lower, ascii_upper, ascii_two_byte}

-- Neighbouring keys: the scan code of the first, and the codes without and with shift.
pub record Row : Type 0 where
  pub first : ℕ
  pub plain : List ℕ
  pub shifted : List ℕ

abbrev row : (first : ℕ) → (plain shifted : List ℕ) → Row
row first plain shifted = record { first = first; plain = plain; shifted = shifted }

-- Keys whose code does not depend on shift.
abbrev fixed : (first : ℕ) → List ℕ → Row
fixed first codes = row first codes codes

abbrev digit_row : Row
digit_row =
    row 0x02
      (b'1' ∷ b'2' ∷ b'3' ∷ b'4' ∷ b'5' ∷ b'6' ∷ b'7' ∷ b'8' ∷ b'9' ∷ b'0' ∷ b'-' ∷ b'=' ∷ [])
      (b'!' ∷ b'@' ∷ b'#' ∷ b'$' ∷ b'%' ∷ b'^' ∷ b'&' ∷ b'*' ∷ b'(' ∷ b')' ∷ b'_' ∷ b'+' ∷ [])

abbrev upper_row : Row
upper_row =
    row 0x10
      (b'q' ∷ b'w' ∷ b'e' ∷ b'r' ∷ b't' ∷ b'y' ∷ b'u' ∷ b'i' ∷ b'o' ∷ b'p' ∷ b'[' ∷ b']' ∷ [])
      (b'Q' ∷ b'W' ∷ b'E' ∷ b'R' ∷ b'T' ∷ b'Y' ∷ b'U' ∷ b'I' ∷ b'O' ∷ b'P' ∷ b'{' ∷ b'}' ∷ [])

-- 39 and 34 are the quotes.
abbrev home_row : Row
home_row =
    row 0x1e (b'a' ∷ b's' ∷ b'd' ∷ b'f' ∷ b'g' ∷ b'h' ∷ b'j' ∷ b'k' ∷ b'l' ∷ b';' ∷ 39 ∷ b'`' ∷ [])
      (b'A' ∷ b'S' ∷ b'D' ∷ b'F' ∷ b'G' ∷ b'H' ∷ b'J' ∷ b'K' ∷ b'L' ∷ b':' ∷ 34 ∷ b'~' ∷ [])

-- 92 is the backslash.
abbrev lower_row : Row
lower_row =
    row 0x2b (92 ∷ b'z' ∷ b'x' ∷ b'c' ∷ b'v' ∷ b'b' ∷ b'n' ∷ b'm' ∷ b',' ∷ b'.' ∷ b'/' ∷ [])
      (b'|' ∷ b'Z' ∷ b'X' ∷ b'C' ∷ b'V' ∷ b'B' ∷ b'N' ∷ b'M' ∷ b'<' ∷ b'>' ∷ b'?' ∷ [])

abbrev f_keys : List ℕ
f_keys =
    key_f1 ∷ key_f2 ∷ key_f3 ∷ key_f4 ∷ key_f5 ∷ key_f6 ∷ key_f7 ∷ key_f8 ∷ key_f9 ∷ key_f10 ∷ []

abbrev key_pad : List ℕ
key_pad =
    b'7' ∷ b'8' ∷ b'9' ∷ b'-' ∷ b'4' ∷ b'5' ∷ b'6' ∷ b'+' ∷ b'1' ∷ b'2' ∷ b'3' ∷ b'0' ∷ b'.' ∷ []

abbrev main_keys : List Row
main_keys =
    digit_row
    ∷ upper_row
    ∷ home_row
    ∷ lower_row
    ∷ fixed 0x01 (key_esc ∷ [])
    ∷ fixed 0x0e (key_backspace ∷ key_tab ∷ [])
    ∷ fixed 0x1c (key_new_line ∷ key_lctrl ∷ [])
    ∷ fixed 0x2a (key_lshift ∷ [])
    ∷ fixed 0x36 (key_rshift ∷ b'*' ∷ key_lalt ∷ b' ' ∷ [])
    ∷ fixed 0x3b f_keys
    ∷ fixed 0x47 key_pad
    ∷ fixed 0x57 (key_f11 ∷ key_f12 ∷ [])
    ∷ []

-- The keys that send a prefix.
abbrev grey_keys : List Row
grey_keys =
    fixed 0x1c (key_new_line ∷ key_rctrl ∷ [])
    ∷ fixed 0x35 (b'/' ∷ [])
    ∷ fixed 0x38 (key_ralt ∷ [])
    ∷ fixed 0x47 (key_home ∷ key_up ∷ key_pg_up ∷ [])
    ∷ fixed 0x4b (key_left ∷ [])
    ∷ fixed 0x4d (key_right ∷ [])
    ∷ fixed 0x4f (key_end ∷ key_down ∷ key_pg_down ∷ key_insert ∷ key_del ∷ [])
    ∷ []

unfoldable find_key : List Row → (with_shift : Bool) → (sc : ℕ) → ℕ
find_key [] with_shift sc = 0
find_key (r ∷ rows) with_shift sc =
    let rest = find_key rows with_shift sc in
    if leb r.first sc && ltb sc (r.first + length r.plain)
    then get_or (if with_shift then r.shifted else r.plain) (sc - r.first) 0
    else rest

-- The code of the key with this scan code, 0 if there is none.
unfoldable pub key_code : (prefixed with_shift : Bool) → (sc : ℕ) → ℕ
unfolding find_key
key_code true with_shift sc = find_key grey_keys with_shift sc
key_code false with_shift sc = find_key main_keys with_shift sc

-- Shift or caps lock.
abbrev pub shift_on : Kb → Bool
shift_on k = k.state.lshift || k.state.rshift || k.state.caps

lower_table : all_below 128 (λ sc. get_or ascii_lower sc 0 == key_code false false sc) ≡ true
unfolding all_below ascii_lower key_code
lower_table = refl

upper_table : all_below 128 (λ sc. get_or ascii_upper sc 0 == key_code false true sc) ≡ true
unfolding all_below ascii_upper key_code
upper_table = refl

grey_table :
    all_below 128 (λ sc.
      (get_or ascii_two_byte sc 0 == key_code true false sc)
      && (get_or ascii_two_byte sc 0 == key_code true true sc))
    ≡ true
unfolding all_below ascii_two_byte key_code
grey_table = refl

-- The tables give the code of the key.
pub translate-key_code :
    (k : Kb) (sc : ℕ) → sc < 128 → translate k sc ≡ key_code k.wait_2nd (shift_on k) sc
unfolding translate
translate-key_code k sc h = elim (Bool-cases k.wait_2nd) [
  | inl w ↦
      let both = all_below_sound 128 _ sc grey_table h in
      elim (Bool-cases (shift_on k)) [
        | inl s ↦ rw (w, s) (ground (arith, both))
        | inr s ↦ rw (w, s) (ground (arith, both))
      ]
  | inr w ↦ elim (Bool-cases (shift_on k)) [
    | inl s ↦ let same = all_below_sound 128 _ sc upper_table h in rw (w, s) (ground (arith, same))
    | inr s ↦ let same = all_below_sound 128 _ sc lower_table h in rw (w, s) (ground (arith, same))
  ]
]

-- The entries of the two tables at one code: both are the same letter, or neither is a letter.
abbrev pub letters_agree : ℕ → ℕ → Bool
letters_agree lower upper =
    if leb b'a' lower && leb lower b'z'
    then upper + 32 == lower
    else not (leb b'A' upper && leb upper b'Z')

letters_table :
    all_below 256 (λ sc. letters_agree (get_or ascii_lower sc 0) (get_or ascii_upper sc 0)) ≡ true
unfolding all_below ascii_lower ascii_upper
letters_table = refl

-- Without a prefix, take a key's code with no shift or caps lock on and its code with one of them
-- on: where the first is a small letter the second is its capital, and no other key gives a capital.
pub letters-translate :
    (k k' : Kb) (sc : ℕ)
    → sc < 256
    → k.wait_2nd ≡ false
    → k'.wait_2nd ≡ false
    → (k.state.lshift || k.state.rshift || k.state.caps) ≡ false
    → (k'.state.lshift || k'.state.rshift || k'.state.caps) ≡ true
    → letters_agree (translate k sc) (translate k' sc) ≡ true
unfolding translate
letters-translate k k' sc h w w' off on =
    rw (w, w', off, on) (all_below_sound 256 _ sc letters_table h)
