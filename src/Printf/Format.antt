-- ===== src/Printf/Format.antt =====
-- libc/printf_helper.c: the output of a number (`_int_out`) and the reading of a format
-- (`printf_helper`), with libc/stdio/sprintf.c and printf.c. The arguments are the words that
-- `va_arg` takes one after the other, `none` where it goes past the last of them, and `strings` is
-- the text at an address. A format ends at its zero byte; past the end of the list it reads zeros.
use model_lib.Common.{
  and_then, ℕ, zero, suc, ◌+◌, ◌-◌, ◌*◌, ◌/◌, ◌%◌, ◌^◌, Bool, true, false, ◌&&◌, Option, none, some,
  List, [], ◌∷◌, if◌then◌else◌, ◌==◌, ltb, leb, get_or, set, drop, replicate, length, u32_mod,
}
use model_lib.CString.{strlen}
use model_lib.Printf.{Out, emit, emit_str}

unfoldable pub isdigit : ℕ → Bool
isdigit c = leb b'0' c && leb c b'9'

-- `_atoi`: the number, and the string behind it.
unfoldable pub atoi_from : List ℕ → ℕ → ℕ × List ℕ
unfolding isdigit
atoi_from [] i = (i, [])
atoi_from (c ∷ str) i =
    let rest = atoi_from str ((i * 10 + (c - b'0')) % u32_mod) in
    if isdigit c then rest else (i, c ∷ str)

-- `digits`, at an index.
unfoldable pub digit : ℕ → ℕ
digit d = if ltb d 10 then b'0' + d else b'A' + (d - 10)

-- The first loop of `_int_out`, with `n` rounds left: the number of digits.
unfoldable pub count_digits : (base n v : ℕ) → ℕ
count_digits base zero v = 0
count_digits base (suc n) v =
    let rest = count_digits base n (v / base) in if v / base == 0 then 1 else suc rest

-- The second loop: the digits of `v` are put before index `p`, the last one first.
unfoldable pub put_digits : (base n : ℕ) → List ℕ → (p v : ℕ) → List ℕ
unfolding digit
put_digits base zero str p v = str
put_digits base (suc n) str p v =
    let str' = set str (p - 1) (digit (v % base)) in
    let rest = put_digits base n str' (p - 1) (v / base) in if v / base == 0 then str' else rest

-- The loops run at most 64 times, as `str` has 64 bytes. Its bytes are not set before; the zeros here
-- are never read.
unfoldable pub int_out : (buff_sz v base width pad : ℕ) → (r_justify : Bool) → Out → Out
unfolding count_digits put_digits
int_out buff_sz v base width pad r_justify o =
    let len = count_digits base 64 v in
    let str = put_digits base 64 (set (replicate 64 0) len 0) len v in
    emit_str buff_sz str len width pad r_justify o

-- What stands between the `%` and the letter of a conversion, and the format from there on.
pub record Directive : Type 0 where
  pub r_justify : Bool
  pub pad : ℕ
  pub width : ℕ
  pub long_long : Bool
  pub rest : List ℕ

abbrev head : List ℕ → ℕ
head format = get_or format 0 0

unfoldable pub read_flags : Bool → List ℕ → Directive
read_flags long_long format =
    if head format == b'-'
    then record {
      r_justify = false;
      pad = b' ';
      width = 0;
      long_long = long_long;
      rest = drop 1 format;
    }
    else if head format == b'0'
    then record {
      r_justify = true;
      pad = b'0';
      width = 0;
      long_long = long_long;
      rest = drop 1 format;
    }
    else record { r_justify = true; pad = b' '; width = 0; long_long = long_long; rest = format }

unfoldable pub read_width : Directive → Directive
unfolding atoi_from isdigit
read_width d =
    if isdigit (head d.rest)
    then (let (width, rest) = atoi_from d.rest 0 in record d { width = width; rest = rest })
    else d

-- `_long` is set and never looked at; `_long_long` is never cleared.
unfoldable pub read_long : Directive → Directive
read_long d =
    let one = if head d.rest == b'l' then drop 1 d.rest else d.rest in
    if head one == b'l'
    then record d { long_long = true; rest = drop 1 one }
    else record d { rest = one }

unfoldable pub directive : Bool → List ℕ → Directive
unfolding read_flags read_width read_long
directive long_long format = read_long (read_width (read_flags long_long format))

-- `va_arg` of 32 and of 64 bits.
abbrev pub arg32 : List ℕ → Option (ℕ × List ℕ)
arg32 [] = none
arg32 (w ∷ args) = some (w, args)

abbrev pub arg64 : List ℕ → Option (ℕ × List ℕ)
arg64 (lo ∷ hi ∷ args) = some (lo + hi * u32_mod, args)
arg64 _ = none

abbrev pub arg : Bool → List ℕ → Option (ℕ × List ℕ)
arg long_long args = if long_long then arg64 args else arg32 args

-- An `int32_t` as it is converted to `uint64_t`.
unfoldable pub extended : ℕ → ℕ
extended w = if ltb w (2 ^ 31) then w else w + (2 ^ 64 - 2 ^ 32)

-- A signed number of 32 or 64 bits without its sign; `*= -1` leaves the least number as it is.
unfoldable pub magnitude : Bool → ℕ → ℕ
unfolding extended
magnitude true v = if ltb v (2 ^ 63) then v else (2 ^ 64 - v) % 2 ^ 64
magnitude false v = extended (if ltb v (2 ^ 31) then v else (2 ^ 32 - v) % 2 ^ 32)

abbrev pub is_negative : Bool → ℕ → Bool
is_negative long_long v = leb (if long_long then 2 ^ 63 else 2 ^ 31) v

abbrev pub number : (buff_sz v base : ℕ) → Directive → Out → Out
number buff_sz v base d o = int_out buff_sz v base d.width d.pad d.r_justify o

-- The switch: the output and the arguments left.
unfoldable pub convert :
    (buff_sz : ℕ) → (strings : ℕ → List ℕ) → Directive → List ℕ → Out → Option (List ℕ × Out)
unfolding int_out magnitude
convert buff_sz strings d args o =
    let c = head d.rest in
    if c == b'c'
    then and_then (arg32 args) (λ a. some (a.1, emit buff_sz (a.0 % 256) o))
    else if c == b'd'
    then and_then (arg d.long_long args) (λ a.
      let signed = if is_negative d.long_long a.0 then emit buff_sz b'-' o else o in
      some (a.1, number buff_sz (magnitude d.long_long a.0) 10 d signed))
    else if c == b'u'
    then and_then (arg d.long_long args) (λ a. some (a.1, number buff_sz a.0 10 d o))
    else if c == b'x'
    then and_then (arg d.long_long args) (λ a. some (a.1, number buff_sz a.0 16 d o))
    else if c == b's'
    then and_then (arg32 args) (λ a.
      let strv = strings a.0 in
      some (a.1, emit_str buff_sz strv (strlen strv) d.width d.pad d.r_justify o))
    else some (args, emit buff_sz c o)

-- What the loop does at a character.
unfoldable pub by_char : ℕ → (ended plain conversion : Option Out) → Option Out
by_char c ended plain conversion = if c == 0 then ended else if c == b'%' then conversion else plain

-- The loop, with `n` rounds left: every round takes at least one character of the format.
unfoldable pub printf_loop :
    (n buff_sz : ℕ) → (strings : ℕ → List ℕ) → Bool → (format args : List ℕ) → Out → Option Out
unfolding directive convert by_char
printf_loop zero buff_sz strings ll format args o = some o
printf_loop (suc n) buff_sz strings ll [] args o = some o
printf_loop (suc n) buff_sz strings ll (c ∷ format) args o =
    let d = directive ll format in
    by_char c (some o) (printf_loop n buff_sz strings ll format args (emit buff_sz c o)) (
      and_then (convert buff_sz strings d args o)
        (λ r. printf_loop n buff_sz strings d.long_long (drop 1 d.rest) r.0 r.1))

-- The buffer that `printf_helper` leaves, and the place in it that it returns.
unfoldable pub printf_helper :
    (buff : List ℕ) → (buff_sz : ℕ) → (strings : ℕ → List ℕ) → (format args : List ℕ) → Option Out
unfolding printf_loop
printf_helper buff buff_sz strings format args =
    printf_loop (length format) buff_sz strings false format args
      (record { buff = buff; pos = 0; count = 0 })

-- The test of `pos` against 0 is on an `int`.
unfoldable pub vsnprintf :
    (buff : List ℕ) → (sz : ℕ) → (strings : ℕ → List ℕ) → (format args : List ℕ) → Option Out
unfolding printf_helper
vsnprintf buff sz strings format args =
    and_then (printf_helper buff sz strings format args)
      (λ o. some (if ltb o.pos (2 ^ 31) then record o { buff = set o.buff o.pos 0 } else o))

unfoldable pub vsprintf :
    (buff : List ℕ) → (strings : ℕ → List ℕ) → (format args : List ℕ) → Option Out
unfolding vsnprintf
vsprintf buff strings format args = vsnprintf buff (u32_mod - 1) strings format args

-- `buff` is the memory from the local buffer of 1024 bytes on. The text that is printed.
unfoldable pub vprintf :
    (buff : List ℕ) → (strings : ℕ → List ℕ) → (format args : List ℕ) → Option Out
unfolding printf_helper
vprintf buff strings format args = printf_helper buff 1204 strings format args
