-- ===== src/Printf/Render.antt =====
-- libc/printf_helper.c: `printf_helper` on formats without flags and widths, against the text that
-- they stand for.
use model_lib.Common.{
  and_then, ℕ, zero, suc, ◌-◌, ◌%◌, ◌^◌, ◌<◌, ◌≤◌, ◌≡◌, ◌≢◌, refl, ap, ◌∙◌, sym, inl, inr, Bool,
  true, false, Option, some, List, [], ◌∷◌, ◌++◌, arith, if◌then◌else◌, ltb, leb, ◌==◌, Bool-cases,
  length, set, take, replicate, u32_mod, length-append, length-take, get_or, get_or-set_self,
}
use model_lib.CString.{strlen}
use model_lib.CString.Copy.{text, strlen_lem}
use model_lib.Printf.{Out, emit, emit_str}
use model_lib.Printf.Layout.{
  emit_list, emit_list-append, emit_list-Appended, emit_str-emit_list, laid_out,
}
use model_lib.Printf.Format.{
  isdigit, count_digits, put_digits, int_out, read_flags, read_width, read_long, directive,
  extended, magnitude, convert, by_char, printf_loop, printf_helper, vsnprintf,
}
use model_lib.Printf.Digits.{numeral, text-digits, count_digits-numeral}

-- A piece of a format, with its argument.
pub data Piece : Type 0 where
  percent : Piece
  plain char_arg signed unsigned hex text_arg : ℕ → Piece

abbrev pub spelling : Piece → List ℕ
spelling percent = b'%' ∷ b'%' ∷ []
spelling (plain c) = c ∷ []
spelling (char_arg v) = b'%' ∷ b'c' ∷ []
spelling (signed v) = b'%' ∷ b'd' ∷ []
spelling (unsigned v) = b'%' ∷ b'u' ∷ []
spelling (hex v) = b'%' ∷ b'x' ∷ []
spelling (text_arg p) = b'%' ∷ b's' ∷ []

abbrev pub words : Piece → List ℕ
words percent = []
words (plain c) = []
words (char_arg v) = v ∷ []
words (signed v) = v ∷ []
words (unsigned v) = v ∷ []
words (hex v) = v ∷ []
words (text_arg p) = p ∷ []

-- What a piece stands for; a signed number is the 32 bits of an `int32_t`.
abbrev pub shown : (strings : ℕ → List ℕ) → Piece → List ℕ
shown strings percent = b'%' ∷ []
shown strings (plain c) = c ∷ []
shown strings (char_arg v) = (v % 256) ∷ []
shown strings (signed v) =
    if leb (2 ^ 31) v then b'-' ∷ numeral 10 64 (2 ^ 32 - v) else numeral 10 64 v
shown strings (unsigned v) = numeral 10 64 v
shown strings (hex v) = numeral 16 64 v
shown strings (text_arg p) = text (strings p)

-- A plain character is neither the end nor `%`, and a signed number not the least one.
abbrev pub IsPiece : Piece → Type 0
IsPiece (plain c) = (c ≢ 0) × (c ≢ b'%')
IsPiece (signed v) = (v < 2 ^ 32) × (v ≢ 2 ^ 31)
IsPiece _ = Unit {0}

abbrev pub ArePieces : List Piece → Type 0
ArePieces [] = Unit {0}
ArePieces (p ∷ ps) = IsPiece p × ArePieces ps

abbrev pub spelling_of : List Piece → List ℕ
spelling_of [] = 0 ∷ []
spelling_of (p ∷ ps) = spelling p ++ spelling_of ps

abbrev pub words_of : List Piece → List ℕ
words_of [] = []
words_of (p ∷ ps) = words p ++ words_of ps

abbrev pub shown_of : (strings : ℕ → List ℕ) → List Piece → List ℕ
shown_of strings [] = []
shown_of strings (p ∷ ps) = shown strings p ++ shown_of strings ps

take_whole : (xs : List ℕ) → take (length xs) xs ≡ xs
take_whole [] = refl
take_whole (x ∷ xs) = ap (λ l. x ∷ l) (take_whole xs)

laid_out_whole :
    (str : List ℕ) (len pad : ℕ) → len ≡ length (text str) → laid_out str len 0 pad true ≡ text str
unfolding laid_out
laid_out_whole str len pad e =
    let none_left : len - len ≡ 0 = omega arith in rw (none_left, e) (take_whole (text str))

pub int_out-emit_list :
    (sz v base pad : ℕ) (o : Out)
    → int_out sz v base 0 pad true o ≡ emit_list sz (numeral base 64 v) o
unfolding int_out
int_out-emit_list sz v base pad o =
    let len = count_digits base 64 v in
    let str = put_digits base 64 (set (replicate 64 0) len 0) len v in
    let txt = text-digits base v in
    emit_str-emit_list sz str len 0 pad true o
    ∙ ap (λ t. emit_list sz t o)
        (laid_out_whole str len pad (count_digits-numeral base v ∙ ap length (sym txt)) ∙ txt)

string-emit_list :
    (sz pad : ℕ) (str : List ℕ) (o : Out)
    → emit_str sz str (strlen str) 0 pad true o ≡ emit_list sz (text str) o
string-emit_list sz pad str o =
    emit_str-emit_list sz str (strlen str) 0 pad true o
    ∙ ap (λ t. emit_list sz t o) (laid_out_whole str (strlen str) pad (strlen_lem str))

-- One round of the loop.
Steps : Piece → Type 0
Steps p =
    (n sz : ℕ) (strings : ℕ → List ℕ) (format args : List ℕ) (o : Out)
    → printf_loop (suc n) sz strings false (spelling p ++ format) (words p ++ args) o
      ≡ printf_loop n sz strings false format args (emit_list sz (shown strings p) o)

unsigned-Steps : (v : ℕ) → Steps (unsigned v)
unfolding Steps printf_loop by_char directive read_flags read_width read_long isdigit convert
unsigned-Steps v n sz strings format args o = rw (int_out-emit_list sz v 10 b' ' o) refl

hex-Steps : (v : ℕ) → Steps (hex v)
unfolding Steps printf_loop by_char directive read_flags read_width read_long isdigit convert
hex-Steps v n sz strings format args o = rw (int_out-emit_list sz v 16 b' ' o) refl

text_arg-Steps : (p : ℕ) → Steps (text_arg p)
unfolding Steps printf_loop by_char directive read_flags read_width read_long isdigit convert
text_arg-Steps p n sz strings format args o = rw (string-emit_list sz b' ' (strings p) o) refl

char_arg-Steps : (v : ℕ) → Steps (char_arg v)
unfolding Steps printf_loop by_char directive read_flags read_width read_long isdigit convert
    emit_list
char_arg-Steps v n sz strings format args o = refl

percent-Steps : Steps percent
unfolding Steps printf_loop by_char directive read_flags read_width read_long isdigit convert
    emit_list
percent-Steps n sz strings format args o = refl

by_char-plain :
    (c : ℕ) (ended go_on conversion : Option Out)
    → IsPiece (plain c)
    → by_char c ended go_on conversion ≡ go_on
unfolding by_char
by_char-plain c ended go_on conversion h =
    let set_ : (c == 0) ≡ false = ground (arith, h.0) in
    let other : (c == b'%') ≡ false = ground (arith, h.1) in rw (set_, other) refl

plain-Steps : (c : ℕ) → IsPiece (plain c) → Steps (plain c)
unfolding Steps printf_loop emit_list
plain-Steps c h n sz strings format args o = by_char-plain c _ _ _ h

magnitude-positive : (v : ℕ) → leb (2 ^ 31) v ≡ false → magnitude false v ≡ v
unfolding magnitude extended
magnitude-positive v e = ground arith

magnitude-negative :
    (v : ℕ) → v < 2 ^ 32 → v ≢ 2 ^ 31 → leb (2 ^ 31) v ≡ true → magnitude false v ≡ 2 ^ 32 - v
unfolding magnitude extended
magnitude-negative v small least e = ground arith

signed-Steps : (v : ℕ) → IsPiece (signed v) → Steps (signed v)
unfolding Steps printf_loop by_char directive read_flags read_width read_long isdigit convert
    emit_list
signed-Steps v h n sz strings format args o = elim (Bool-cases (leb (2 ^ 31) v)) [
  | inl e ↦
      rw
        (
          e,
          magnitude-negative v h.0 h.1 e,
          int_out-emit_list sz (2 ^ 32 - v) 10 b' ' (emit sz b'-' o),
        )
        refl
  | inr e ↦ rw (e, magnitude-positive v e, int_out-emit_list sz v 10 b' ' o) refl
]

piece-Steps : (p : Piece) → IsPiece p → Steps p
piece-Steps percent h = percent-Steps
piece-Steps (plain c) h = plain-Steps c h
piece-Steps (char_arg v) h = char_arg-Steps v
piece-Steps (signed v) h = signed-Steps v h
piece-Steps (unsigned v) h = unsigned-Steps v
piece-Steps (hex v) h = hex-Steps v
piece-Steps (text_arg p) h = text_arg-Steps p

loop-shown :
    (ps : List Piece) (n sz : ℕ) (strings : ℕ → List ℕ) (o : Out)
    → ArePieces ps
    → length ps ≤ n
    → printf_loop n sz strings false (spelling_of ps) (words_of ps) o
      ≡ some (emit_list sz (shown_of strings ps) o)
unfolding Steps emit_list printf_loop by_char
loop-shown [] n sz strings o h fuel = ended n
  where
    ended : (m : ℕ) → printf_loop m sz strings false (0 ∷ []) [] o ≡ some o
    ended zero = refl
    ended (suc m) = refl
loop-shown (p ∷ ps) zero sz strings o h fuel = absurd (omega arith)
loop-shown (p ∷ ps) (suc n) sz strings o h fuel =
    piece-Steps p h.0 n sz strings (spelling_of ps) (words_of ps) o
    ∙ loop-shown ps n sz strings (emit_list sz (shown strings p) o) h.1 (omega arith)
    ∙ ap some (sym (emit_list-append sz (shown strings p) (shown_of strings ps) o))

length-spelling_of : (ps : List Piece) → length ps ≤ length (spelling_of ps)
length-spelling_of [] = omega arith
length-spelling_of (p ∷ ps) =
    omega (arith, length-append (spelling p) (spelling_of ps), length-spelling_of ps, some_char p)
  where
    some_char : (p : Piece) → 0 < length (spelling p)
    some_char percent = omega arith
    some_char (plain c) = omega arith
    some_char (char_arg v) = omega arith
    some_char (signed v) = omega arith
    some_char (unsigned v) = omega arith
    some_char (hex v) = omega arith
    some_char (text_arg p) = omega arith

-- `printf_helper` on a format put together from plain characters and the conversions `%%`, `%c`,
-- `%d`, `%u`, `%x` and `%s` without flags and widths, with a word for each of them (for `%d` not
-- the least number), and a bound within the buffer, ends: the buffer begins with what the pieces
-- stand for, numbers in their digits, as far as the bound allows; the place returned is the length
-- of that, and the buffer keeps its size.
pub printf_helper-Appended :
    (buff : List ℕ) (sz : ℕ) (strings : ℕ → List ℕ) (ps : List Piece)
    → ArePieces ps
    → sz ≤ length buff
    → sz < u32_mod
    → (o : Out) × (printf_helper buff sz strings (spelling_of ps) (words_of ps) ≡ some o)
      × (take o.pos o.buff ≡ take sz (shown_of strings ps))
      × (o.pos ≡ length (take sz (shown_of strings ps)))
      × (length o.buff ≡ length buff)
unfolding printf_helper
printf_helper-Appended buff sz strings ps h fits small =
    let start : Out = record { buff = buff; pos = 0; count = 0 } in
    let e = loop-shown ps (length (spelling_of ps)) sz strings start h (length-spelling_of ps) in
    let a = emit_list-Appended sz (shown_of strings ps) start (omega arith) fits small in
    let whole : sz - 0 ≡ sz = omega arith in
    (
      emit_list sz (shown_of strings ps) start,
      e,
      a.text ∙ ap (λ k. take k (shown_of strings ps)) whole,
      omega (arith, a.pos, ap (λ k. length (take k (shown_of strings ps))) whole),
      a.size,
    )

below : (a b : ℕ) → a < b → ltb a b ≡ true
below a b h = ground arith

-- The end that `vsnprintf` puts behind the text.
vsnprintf-ended :
    (buff : List ℕ) (sz : ℕ) (strings : ℕ → List ℕ) (format args : List ℕ) (o : Out)
    → printf_helper buff sz strings format args ≡ some o
    → o.pos < 2 ^ 31
    → vsnprintf buff sz strings format args ≡ some (record o { buff = set o.buff o.pos 0 })
unfolding vsnprintf
vsnprintf-ended buff sz strings format args o e h =
    ap
      (λ r.
        and_then r
          (λ o. some (if ltb o.pos (2 ^ 31) then record o { buff = set o.buff o.pos 0 } else o)))
      e
    ∙ ap (λ (b : Bool). some (if b then record o { buff = set o.buff o.pos 0 } else o))
        (below o.pos (2 ^ 31) h)

-- On a text that reaches the bound, `vsnprintf` puts the end of the string behind the `sz` bytes
-- that it was given.
pub vsnprintf_outside :
    (buff : List ℕ) (sz : ℕ) (strings : ℕ → List ℕ) (ps : List Piece)
    → ArePieces ps
    → sz < length buff
    → sz < 2 ^ 31
    → sz ≤ length (shown_of strings ps)
    → (o : Out) × (vsnprintf buff sz strings (spelling_of ps) (words_of ps) ≡ some o)
      × (o.pos ≡ sz)
      × (get_or o.buff sz 1 ≡ 0)
vsnprintf_outside buff sz strings ps h fits narrow long =
    let r = printf_helper-Appended buff sz strings ps h (omega arith) (omega arith) in
    let at : r.0.pos ≡ sz = omega (arith, r.3, length-take sz (shown_of strings ps)) in
    (
      record r.0 { buff = set r.0.buff r.0.pos 0 },
      vsnprintf-ended buff sz strings _ _ r.0 r.1 (omega (arith, at)),
      at,
      rw at (get_or-set_self r.0.buff sz 0 1 (omega (arith, r.4))),
    )
