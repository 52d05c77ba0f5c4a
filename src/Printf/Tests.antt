-- ===== src/Printf/Tests.antt =====
-- Runs of `_emit_str`, and its theorem at a concrete buffer.
use model_lib.Common.{
  ◌-◌, ◌^◌, Option, none, some, length, get_or, ℕ, ◌≡◌, refl, true, false, List, [], ◌∷◌, arith,
  take, replicate,
}
use model_lib.CString.Copy.{text}
use model_lib.Printf.{Out, emit, emit_pad, emit_chars, emit_str}
use model_lib.Printf.Format.{
  isdigit, atoi_from, digit, count_digits, put_digits, int_out, read_flags, read_width, read_long,
  directive, extended, magnitude, convert, by_char, printf_loop, printf_helper, vsnprintf,
}
use model_lib.Printf.Digits.{numeral}
use model_lib.Printf.Render.{
  Piece, plain, signed, hex, text_arg, spelling_of, words_of, shown_of, printf_helper-Appended,
  vsnprintf_outside,
}
use model_lib.Printf.Layout.{laid_out}

abbrev start : Out
start = record { buff = replicate 6 0; pos = 1; count = 0 }

abbrev number : List ℕ
number = b'4' ∷ b'2' ∷ 0 ∷ []

padded :
    emit_str 6 number 2 4 b'0' true start
    ≡ record { buff = 0 ∷ b'0' ∷ b'0' ∷ b'4' ∷ b'2' ∷ 0 ∷ []; pos = 5; count = 4 }
unfolding emit_str emit_pad emit_chars emit
padded = refl

cut_off :
    emit_str 4 number 2 4 b' ' false start
    ≡ record { buff = 0 ∷ b'4' ∷ b'2' ∷ b' ' ∷ 0 ∷ 0 ∷ []; pos = 4; count = 3 }
unfolding emit_str emit_pad emit_chars emit
cut_off = refl

-- A number of two digits in a field of one loses a digit.
digit_lost : laid_out number 2 1 b' ' true ≡ b'4' ∷ []
unfolding laid_out text
digit_lost = refl

abbrev no_strings : ℕ → List ℕ
no_strings p = []

-- What a run prints.
abbrev printed : Option Out → List ℕ
printed none = []
printed (some o) = take o.pos o.buff

abbrev room : List ℕ
room = replicate 24 0

-- "%04d|%-3x|" of -42 and 10: the sign stands before the zeros.
fields :
    printed (
      printf_helper room 24 no_strings
        (b'%' ∷ b'0' ∷ b'4' ∷ b'd' ∷ b'|' ∷ b'%' ∷ b'-' ∷ b'3' ∷ b'x' ∷ b'|' ∷ 0 ∷ [])
        (4294967254 ∷ 10 ∷ []))
    ≡ b'-' ∷ b'0' ∷ b'0' ∷ b'4' ∷ b'2' ∷ b'|' ∷ b'A' ∷ b' ' ∷ b' ' ∷ b'|' ∷ []
unfolding printf_helper printf_loop by_char directive read_flags read_width read_long isdigit
    atoi_from convert int_out count_digits put_digits digit magnitude extended emit emit_str
    emit_pad emit_chars
fields = refl

-- The least number: its sign is put out, and then its 64 bits.
least :
    printed (printf_helper room 24 no_strings (b'%' ∷ b'd' ∷ 0 ∷ []) (2 ^ 31 ∷ []))
    ≡ b'-' ∷ numeral 10 64 (2 ^ 64 - 2 ^ 31)
unfolding printf_helper printf_loop by_char directive read_flags read_width read_long isdigit
    atoi_from convert int_out count_digits put_digits digit magnitude extended emit emit_str
    emit_pad emit_chars numeral
least = refl

-- "%llu%u" of 1 and 2: the second conversion takes two words as well, and there is only one.
sticky :
    printf_helper room 24 no_strings
      (b'%' ∷ b'l' ∷ b'l' ∷ b'u' ∷ b'%' ∷ b'u' ∷ 0 ∷ [])
      (1 ∷ 0 ∷ 2 ∷ [])
    ≡ none
unfolding printf_helper printf_loop by_char directive read_flags read_width read_long isdigit
    atoi_from convert int_out count_digits put_digits digit magnitude extended emit emit_str
    emit_pad emit_chars
sticky = refl

-- "x=%d %s" with -7 and a text.
abbrev pieces : List Piece
pieces = plain b'x' ∷ plain b'=' ∷ signed (2 ^ 32 - 7) ∷ plain b' ' ∷ text_arg 8 ∷ []

abbrev name_at : ℕ → List ℕ
name_at p = b'a' ∷ b'b' ∷ 0 ∷ []

pieces_shown : shown_of name_at pieces ≡ b'x' ∷ b'=' ∷ b'-' ∷ b'7' ∷ b' ' ∷ b'a' ∷ b'b' ∷ []
unfolding numeral digit text
pieces_shown = refl

printf_helper-Appended_example :
    (o : Out) × (printf_helper room 6 name_at (spelling_of pieces) (words_of pieces) ≡ some o)
    × (take o.pos o.buff ≡ take 6 (shown_of name_at pieces))
    × (o.pos ≡ length (take 6 (shown_of name_at pieces)))
    × (length o.buff ≡ 24)
printf_helper-Appended_example =
    printf_helper-Appended room 6 name_at pieces
      (
        (omega arith, omega arith),
        (
          (omega arith, omega arith),
          ((omega arith, omega arith), ((omega arith, omega arith), (tt, tt))),
        ),
      )
      (omega arith) (omega arith)

vsnprintf_outside_example :
    (o : Out) × (vsnprintf
        (replicate 4 1)
        3
        no_strings
        (spelling_of (plain b'a' ∷ hex 0xbc ∷ []))
        (0xbc ∷ [])
      ≡ some o)
    × (o.pos ≡ 3)
    × (get_or o.buff 3 1 ≡ 0)
unfolding numeral digit
vsnprintf_outside_example =
    vsnprintf_outside (replicate 4 1) 3 no_strings (plain b'a' ∷ hex 0xbc ∷ [])
      ((omega arith, omega arith), (tt, tt)) (omega arith) (omega arith) (omega arith)
