-- ===== src/CString/Copy.antt =====
-- What the copying functions leave in their target.
use model_lib.Common.{
  ℕ, suc, ◌+◌, ◌<◌, ◌≡◌, refl, ap, inl, inr, List, [], ◌∷◌, ◌++◌, arith, if◌then◌else◌, Bool-cases,
  ◌==◌, length, drop, get_or,
}
use model_lib.CString.{strlen, strcpy, strcat}

-- The string that stands in a piece of memory: the bytes up to the first terminator.
unfoldable pub text : List ℕ → List ℕ
text [] = []
text (c ∷ s) = if c == 0 then [] else c ∷ text s

pub strlen_lem : (s : List ℕ) → strlen s ≡ length (text s)
unfolding strlen text
strlen_lem [] = refl
strlen_lem (c ∷ s) = ground (arith, strlen_lem s)

-- With room for the string and its terminator, `strcpy` leaves the source's string in the target,
-- and the bytes behind the terminator as they were.
pub text-strcpy :
    (dest source : List ℕ)
    → strlen source < length dest
    → (text (strcpy dest source) ≡ text source)
      × (drop (suc (strlen source)) (strcpy dest source) ≡ drop (suc (strlen source)) dest)
      × (length (strcpy dest source) ≡ length dest)
unfolding text strcpy strlen
text-strcpy [] source h = absurd (omega arith)
text-strcpy (d ∷ dest) [] h = (refl, refl, refl)
text-strcpy (d ∷ dest) (c ∷ source) h = elim (Bool-cases (c == 0)) [
  | inl e ↦ rw e (refl, refl, refl)
  | inr e ↦
      let ih = text-strcpy dest source (omega (arith, rw e at h)) in
      rw (e, e) (ap (λ t. c ∷ t) ih.0, ih.1, ap suc ih.2)
]

-- The terminator stands behind the string copied.
pub strcpy-end :
    (dest source : List ℕ)
    → strlen source < length dest
    → get_or (strcpy dest source) (strlen source) 0 ≡ 0
unfolding strlen strcpy
strcpy-end [] source h = absurd (omega arith)
strcpy-end (d ∷ dest) [] h = refl
strcpy-end (d ∷ dest) (c ∷ source) h = elim (Bool-cases (c == 0)) [
  | inl e ↦ rw e refl
  | inr e ↦ rw e (strcpy-end dest source (omega (arith, rw e at h)))
]

-- With room for both strings and a terminator, `strcat` leaves the target's string followed by the
-- source's.
pub text-strcat :
    (dest src : List ℕ)
    → strlen dest < length dest
    → strlen dest + strlen src < length dest
    → text (strcat dest src) ≡ text dest ++ text src
unfolding text strcat strlen
text-strcat [] src p h = absurd (omega arith)
text-strcat (d ∷ dest) src p h = elim (Bool-cases (d == 0)) [
  | inl e ↦ rw e ((text-strcpy (d ∷ dest) src (omega (arith, rw e at h))).0)
  | inr e ↦
      rw (e, e)
        (ap (λ t. d ∷ t)
          (text-strcat dest src (omega (arith, rw e at p)) (omega (arith, rw e at h))))
]
