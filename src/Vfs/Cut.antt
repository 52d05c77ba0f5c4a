-- ===== src/Vfs/Cut.antt =====
-- kernel/vfs/vfs.c: a path as the names between its separators, and how `strchr` cuts it.
use model_lib.Common.{
  ℕ, zero, suc, ◌<◌, ◌≡◌, ◌≢◌, refl, inl, inr, true, false, List, [], ◌∷◌, arith, if◌then◌else◌,
  ◌==◌, Bool-cases, get_or, set, drop,
}
use model_lib.CString.{strlen}
use model_lib.CString.Find.{strlen-cons}
use model_lib.CString.Copy.{text}

abbrev pub push : ℕ → List (List ℕ) → List (List ℕ)
push c [] = (c ∷ []) ∷ []
push c (x ∷ xs) = (c ∷ x) ∷ xs

-- The names of a path; a separator at its very end is no matter.
unfoldable pub names : List ℕ → List (List ℕ)
names [] = []
names (c ∷ s) = let rest = names s in if c == b'/' then [] ∷ rest else push c rest

set_nul : (c : ℕ) (s : List ℕ) → 0 < strlen (c ∷ s) → (c == 0) ≡ false
unfolding strlen
set_nul c s h = ground arith

strlen_tail : (c : ℕ) (s : List ℕ) (k : ℕ) → suc k < strlen (c ∷ s) → k < strlen s
unfolding strlen
strlen_tail c s k h = ground arith

not_sep : (c : ℕ) → c ≢ b'/' → (c == b'/') ≡ false
not_sep c h = ground arith

no_strlen : (k : ℕ) → k < strlen [] → ⊥
unfolding strlen
no_strlen k h = ground arith

pub text_end : (s : List ℕ) → (get_or s 0 0 == 0) ≡ true → text s ≡ []
unfolding text
text_end [] e = refl
text_end (c ∷ s) e = rw e refl

pub text_more :
    (s : List ℕ)
    → (get_or s 0 0 == 0) ≡ false
    → (0 < strlen s) × (c : ℕ) × (t : List ℕ) × (text s ≡ c ∷ t)
unfolding text strlen
text_more [] e = absurd (ground arith)
text_more (c ∷ s) e = rw e (omega arith, c, text s, refl)

-- The first separator cuts off the first name.
pub names-cut :
    (s : List ℕ) (k : ℕ)
    → k < strlen s
    → get_or s k 0 ≡ b'/'
    → ((j : ℕ) → j < k → get_or s j 0 ≢ b'/')
    → names (text s) ≡ text (set s k 0) ∷ names (text (drop (suc k) s))
unfolding names text
names-cut [] k h at first = absurd (no_strlen k h)
names-cut (c ∷ s) zero h at first =
    let sl : (c == b'/') ≡ true = ground arith in rw (set_nul c s h, sl) refl
names-cut (c ∷ s) (suc k) h at first =
    let n0 : (c == 0) ≡ false = set_nul c s (omega (arith, h)) in
    let sl : (c == b'/') ≡ false = not_sep c (first 0 (omega arith)) in
    let ih = names-cut s k (strlen_tail c s k h) at (λ j p. first (suc j) (omega (arith, p))) in
    rw (n0, sl, ih) refl

-- Without one the path is a single name.
pub names_whole :
    (s : List ℕ)
    → 0 < strlen s
    → ((j : ℕ) → j < strlen s → get_or s j 0 ≢ b'/')
    → names (text s) ≡ text s ∷ []
unfolding names text
names_whole [] pos h = absurd (no_strlen 0 pos)
names_whole (c ∷ s) pos h =
    let len = strlen-cons c s pos in
    let n0 : (c == 0) ≡ false = set_nul c s pos in
    let sl : (c == b'/') ≡ false = not_sep c (h 0 pos) in
    elim (Bool-cases (get_or s 0 0 == 0)) [
      | inl z ↦ rw (n0, text_end s z, sl) refl
      | inr z ↦
          let ih = names_whole s (text_more s z).0 (λ j p. h (suc j) (omega (arith, p, len))) in
          rw (n0, sl, ih) refl
    ]
