-- ===== src/CString.antt =====
-- libc/string: the functions on strings and on raw memory. A pointer is the list of the bytes from
-- there on, and a result that points into its argument is the offset there. NULL is the empty list;
-- a read past the end of a list yields 0, and a write there is none.
pub mod Copy
pub mod Compare
pub mod Find
mod Tests
use model_lib.Common.{
  ℕ, zero, suc, ◌-◌, ◌%◌, Bool, false, ◌&&◌, not, Option, none, some, List, [], ◌∷◌, if◌then◌else◌,
  ◌==◌, get_or,
}
use model_lib.Common.Int.{ℤ, pos, negsuc, sub_ℕ}

unfoldable pub strlen : List ℕ → ℕ
strlen [] = 0
strlen (c ∷ s) = if c == 0 then 0 else suc (strlen s)

pub strcpy : (dest source : List ℕ) → List ℕ
strcpy [] source = []
strcpy (d ∷ dest) [] = 0 ∷ dest
strcpy (d ∷ dest) (c ∷ source) = if c == 0 then 0 ∷ dest else c ∷ strcpy dest source

-- The second loop of `strncpy`, with `n` bytes left.
pad : List ℕ → ℕ → List ℕ
pad dest zero = dest
pad [] (suc n) = []
pad (d ∷ dest) (suc n) = 0 ∷ pad dest n

pub strncpy : (dest source : List ℕ) → ℕ → List ℕ
unfolding pad
strncpy dest source zero = dest
strncpy [] source (suc n) = []
strncpy (d ∷ dest) [] (suc n) = 0 ∷ pad dest n
strncpy (d ∷ dest) (c ∷ source) (suc n) =
    if c == 0 then 0 ∷ pad dest n else c ∷ strncpy dest source n

pub strcat : (dest src : List ℕ) → List ℕ
strcat [] src = []
strcat (d ∷ dest) src = if d == 0 then strcpy (d ∷ dest) src else d ∷ strcat dest src

-- The loops leave the two pointers at the first bytes that differ or at the first terminator.
unfoldable pub strcmp : (s1 s2 : List ℕ) → ℤ
strcmp [] s2 = sub_ℕ 0 (get_or s2 0 0)
strcmp (c ∷ s1) [] = sub_ℕ c 0
strcmp (c ∷ s1) (d ∷ s2) = if not (c == 0) && (c == d) then strcmp s1 s2 else sub_ℕ c d

-- `count` is not looked at before the bytes, and decides only when it has run out.
pub strncmp : (s1 s2 : List ℕ) → ℕ → ℤ
strncmp s1 s2 zero = pos 0
strncmp [] s2 (suc n) = sub_ℕ 0 (get_or s2 0 0)
strncmp (c ∷ s1) [] (suc n) = sub_ℕ c 0
strncmp (c ∷ s1) (d ∷ s2) (suc n) = if not (c == 0) && (c == d) then strncmp s1 s2 n else sub_ℕ c d

-- `streq` of kernel/utils.h.
abbrev pub is_zero : ℤ → Bool
is_zero (pos n) = n == 0
is_zero (negsuc n) = false

unfoldable pub streq : (s1 s2 : List ℕ) → Bool
streq s1 s2 = is_zero (strcmp s1 s2)

-- The first byte is compared before any is tested for the terminator.
unfoldable pub strchr_from : List ℕ → (ch i : ℕ) → Option ℕ
strchr_from [] ch i = if 0 == ch then some i else none
strchr_from (c ∷ s) ch i =
    let rest = strchr_from s ch (suc i) in
    if c == ch then some i else if get_or s 0 0 == 0 then none else rest

unfoldable pub strchr : List ℕ → ℕ → Option ℕ
strchr str ch = strchr_from str ch 0

-- The loop of `strrchr`, with `tmp` at offset `n`.
strrchr_down : List ℕ → (ch n : ℕ) → Option ℕ
strrchr_down str ch zero = none
strrchr_down str ch (suc n) =
    if get_or str (suc n) 0 == ch then some (suc n) else strrchr_down str ch n

pub strrchr : List ℕ → ℕ → Option ℕ
strrchr str ch = let sz = strlen str in if sz == 0 then none else strrchr_down str ch (sz - 1)

pub memset : List ℕ → (ch count : ℕ) → List ℕ
memset dest ch zero = dest
memset [] ch (suc n) = []
memset (d ∷ dest) ch (suc n) = (ch % 256) ∷ memset dest ch n

-- The two areas are taken not to overlap.
pub memcpy : (dest src : List ℕ) → ℕ → List ℕ
memcpy dest src zero = dest
memcpy [] src (suc n) = []
memcpy (d ∷ dest) [] (suc n) = 0 ∷ memcpy dest [] n
memcpy (d ∷ dest) (c ∷ src) (suc n) = c ∷ memcpy dest src n
