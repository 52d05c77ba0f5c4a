-- ===== src/Numbers.antt =====
-- libc/stdlib/atoi.c and libc/ctype/isspace.c. The `int` that `atoi` returns is kept as its 32 bits,
-- and the string as the bytes from the pointer on, 0 past the end of the list.
use model_lib.Common.{
  ℕ, ◌+◌, ◌-◌, ◌*◌, ◌%◌, Bool, ◌&&◌, ◌||◌, List, [], ◌∷◌, if◌then◌else◌, ◌==◌, leb, u32_mod,
}

unfoldable pub isspace : ℕ → Bool
isspace c = (c == b' ') || (c == 9) || (c == 10) || (c == 11) || (c == 12) || (c == 13)

-- The second loop of `atoi`.
unfoldable pub digits_from : List ℕ → ℕ → ℕ
digits_from [] i = i
digits_from (c ∷ str) i =
    let rest = digits_from str ((i * 10 + (c - b'0')) % u32_mod) in
    if leb b'0' c && leb c b'9' then rest else i

unfoldable pub atoi : List ℕ → ℕ
unfolding isspace digits_from
atoi [] = 0
atoi (c ∷ str) = let rest = atoi str in if isspace c then rest else digits_from (c ∷ str) 0
