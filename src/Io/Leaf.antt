-- ===== src/Io/Leaf.antt =====
-- kernel/io/io.c: the cut of a path into its directory and its leaf.
use model_lib.Common.{
  ℕ, zero, suc, ◌+◌, ◌-◌, ◌<◌, ◌≡◌, ◌≢◌, refl, sym, ap, ◌∙◌, ◌⊎◌, inl, inr, false, Option, none,
  some, List, [], ◌∷◌, ◌++◌, arith, ◌==◌, Bool-cases, get_or, get_or_out, set, drop,
}
use model_lib.CString.{strlen, strrchr}
use model_lib.CString.Copy.{text}
use model_lib.CString.Find.{LastBehindFirst, strrchr-LastBehindFirst, strlen_head, strlen_pos}
use model_lib.Io.{io_path_split_leaf, split_at}

-- What the cut may give. A separator at the very front does not count.
abbrev pub Cut : List ℕ → Option (List ℕ × List ℕ) → Type 0
Cut path none =
    ((j : ℕ) → 0 < j → j < strlen path → get_or path j 0 ≢ b'/')
    ⊎ (get_or path (strlen path - 1) 0 ≡ b'/')
Cut path (some (dir_name, file_name)) =
    (text path ≡ text dir_name ++ (b'/' ∷ text file_name))
    × (0 < strlen dir_name)
    × (0 < strlen file_name)
    × ((j : ℕ) → j < strlen file_name → get_or file_name j 0 ≢ b'/')

text-cut :
    (s : List ℕ) (i : ℕ)
    → i < strlen s
    → get_or s i 0 ≡ b'/'
    → text s ≡ text (set s i 0) ++ (b'/' ∷ text (drop (suc i) s))
unfolding text strlen
text-cut [] i h at = absurd (ground arith)
text-cut (c ∷ s) zero h at = let n0 : (c == 0) ≡ false = ground arith in rw (n0, at) refl
text-cut (c ∷ s) (suc i) h at = elim (Bool-cases (c == 0)) [
  | inl e ↦ absurd (ground arith)
  | inr e ↦ let ih = text-cut s i (ground arith) at in rw e (ap (λ t. c ∷ t) ih)
]

get_or-drop : (s : List ℕ) (i j : ℕ) → get_or (drop i s) j 0 ≡ get_or s (i + j) 0
get_or-drop s zero j = ap (λ n. get_or s n 0) (omega arith)
get_or-drop [] (suc i) j = sym (get_or_out [] (suc i + j) 0 (omega arith))
get_or-drop (c ∷ s) (suc i) j =
    let next : suc i + j ≡ suc (i + j) = omega arith in
    get_or-drop s i j ∙ sym (ap (λ n. get_or (c ∷ s) n 0) next)

strlen-drop_sum : (s : List ℕ) (i : ℕ) → i < strlen s → strlen s ≡ suc i + strlen (drop (suc i) s)
unfolding strlen
strlen-drop_sum [] i h = absurd (ground arith)
strlen-drop_sum (c ∷ s) zero h = ground arith
strlen-drop_sum (c ∷ s) (suc i) h = elim (Bool-cases (c == 0)) [
  | inl e ↦ absurd (ground arith)
  | inr e ↦ let ih = strlen-drop_sum s i (ground arith) in rw e (omega (arith, ih))
]

strlen-set : (s : List ℕ) (i : ℕ) → 0 < i → i < strlen s → 0 < strlen (set s i 0)
unfolding strlen
strlen-set [] i p h = absurd (ground arith)
strlen-set (c ∷ s) zero p h = absurd (omega arith)
strlen-set (c ∷ s) (suc i) p h = ground arith

-- `io_path_split_leaf` cuts the path at its last separator: the directory, the separator and the leaf
-- are the path, neither is empty, and no separator is in the leaf. It gives NULL when the path
-- ends in a separator and when none stands behind the first byte, so also for a leaf of the root.
pub io_path_split_leaf-Cut : (path : List ℕ) → Cut path (io_path_split_leaf path)
unfolding io_path_split_leaf
io_path_split_leaf-Cut path = go (strrchr path b'/') (strrchr-LastBehindFirst path b'/')
  where
    go : (o : Option ℕ) → LastBehindFirst path b'/' o → Cut path (split_at path o)
    go none h = inl h
    go (some i) (pos, inside, at, behind) =
        let rest = drop (suc i) path in
        let next : get_or path (suc i) 0 ≡ get_or rest 0 0 =
          ap (λ n. get_or path n 0) (omega arith) ∙ sym (get_or-drop path (suc i) 0) in
        let total = strlen-drop_sum path i inside in
        elim (Bool-cases (get_or path (suc i) 0 == 0)) [
          | inl e ↦
              let none_left : strlen rest ≡ 0 = strlen_head rest (rw next at e) in
              let last : strlen path - 1 ≡ i = omega (arith, total, none_left) in
              rw e (inr (ap (λ n. get_or path n 0) last ∙ at))
          | inr e ↦
              let left : 0 < strlen rest = strlen_pos rest (rw next at e) in
              rw e (
                text-cut path i inside at,
                strlen-set path i pos inside,
                left,
                λ j p q.
                    behind (suc i + j) (omega arith) (omega (arith, p, total))
                      (sym (get_or-drop path (suc i) j) ∙ q),
              )
        ]
