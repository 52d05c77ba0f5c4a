-- ===== src/CString/Tests.antt =====
-- Runs of the string functions, and their theorems at concrete strings.
use model_lib.Common.{ℕ, ◌≡◌, refl, none, some, List, [], ◌∷◌, replicate}
use model_lib.Common.Int.{pos, negsuc}
use model_lib.CString.{
  strlen, strcpy, strncpy, strcat, strcmp, strncmp, strchr, strchr_from, strrchr, strrchr_down,
  memset, memcpy,
}

-- "/a/b", and "ab" with bytes behind its terminator.
abbrev path : List ℕ
path = b'/' ∷ b'a' ∷ b'/' ∷ b'b' ∷ 0 ∷ []

abbrev short : List ℕ
short = b'a' ∷ b'b' ∷ 0 ∷ 7 ∷ 7 ∷ 7 ∷ 7 ∷ []

searches :
    (strchr path b'a' ≡ some 1)
    × (strrchr path b'/' ≡ some 2)
    × (strrchr (b'/' ∷ b'a' ∷ 0 ∷ []) b'/' ≡ none)
    × (strchr path b'z' ≡ none)
unfolding strchr strchr_from strrchr strrchr_down strlen
searches = (refl, refl, refl, refl)

compares :
    (strcmp path path ≡ pos 0)
    × (strcmp short path ≡ pos 50)
    × (strncmp path short 0 ≡ pos 0)
    × (strncmp path short 1 ≡ negsuc 49)
unfolding strcmp strncmp
compares = (refl, refl, refl, refl)

copies :
    (strncpy (replicate 4 7) short 4 ≡ b'a' ∷ b'b' ∷ 0 ∷ 0 ∷ [])
    × (memset short 257 2 ≡ 1 ∷ 1 ∷ 0 ∷ 7 ∷ 7 ∷ 7 ∷ 7 ∷ [])
    × (memcpy path short 2 ≡ b'a' ∷ b'b' ∷ b'/' ∷ b'b' ∷ 0 ∷ [])
    × (strcat short path ≡ b'a' ∷ b'b' ∷ path)
unfolding strncpy memset memcpy strcat strcpy
copies = (refl, refl, refl, refl)
