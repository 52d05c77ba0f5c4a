-- ===== src/CString/Compare.antt =====
-- When two strings compare equal.
use model_lib.Common.{ℕ, ◌≡◌, refl, true, List, [], ◌∷◌, arith}
use mathlib.Core.Logic.{◌↔◌}
use model_lib.Common.Int.{ℤ, pos, negsuc}
use model_lib.CString.{strcmp, is_zero, streq}
use model_lib.CString.Copy.{text}

-- `strcmp` returns 0 exactly on two equal strings.
pub strcmp_iff : (s1 s2 : List ℕ) → (strcmp s1 s2 ≡ pos 0) ↔ (text s1 ≡ text s2)
unfolding strcmp text
strcmp_iff [] [] = (λ _. refl, λ _. refl)
strcmp_iff [] (d ∷ s2) = (ground arith, ground arith)
strcmp_iff (c ∷ s1) [] = (ground arith, ground arith)
strcmp_iff (c ∷ s1) (d ∷ s2) =
    let ih = strcmp_iff s1 s2 in (ground (arith, ih.0), ground (arith, ih.1))

zero_of : (z : ℤ) → is_zero z ≡ true → z ≡ pos 0
zero_of (pos n) h = ground arith
zero_of (negsuc n) h = cc

-- `streq` holds exactly of two equal strings.
pub streq_iff : (s1 s2 : List ℕ) → (streq s1 s2 ≡ true) ↔ (text s1 ≡ text s2)
unfolding streq
streq_iff s1 s2 =
    let both = strcmp_iff s1 s2 in (λ h. both.0 (zero_of (strcmp s1 s2) h), λ h. rw (both.1 h))
