-- ===== src/Io/Free.antt =====
-- kernel/io/io.c: the descriptor taken for a file, and what a failed open does.
use model_lib.Common.{
  ℕ, zero, suc, ◌+◌, ◌<◌, ◌≤◌, ◌≡◌, refl, sym, ap, ◌∙◌, ◌⊎◌, inl, inr, Bool, true, false, Option,
  none, some, [], ◌∷◌, arith, ◌==◌, Bool-cases, get_elem?-eq-get_or, get_or, set, length, ltb,
  and_then,
}
use model_lib.Vfs.{Ptr}
use model_lib.Vfs.Driver.{Driver, fs_open}
use model_lib.Io.{
  Fds, Desc, invalid_fd, is_free, free_from, find_free_fd, release_fd, create_file_desc,
}
use model_lib.Io.Open.{Opened, open_file, opened}

-- The slot that the search from `i` on gives: the first free one, or none.
abbrev FreeFrom : (i : ℕ) → Fds → (r : ℕ) → Type 0
FreeFrom i fds r =
    ((r ≡ invalid_fd) × ((j : ℕ) → j < length fds → is_free (get_or fds j none) ≡ false))
    ⊎ ((m : ℕ) × (r ≡ i + m)
        × (m < length fds)
        × (is_free (get_or fds m none) ≡ true)
        × ((j : ℕ) → j < m → is_free (get_or fds j none) ≡ false))

free_from-FreeFrom : (i : ℕ) (fds : Fds) → FreeFrom i fds (free_from i fds)
unfolding free_from
free_from-FreeFrom i [] = inl (refl, λ j p. absurd (omega arith))
free_from-FreeFrom i (slot ∷ fds) = elim (Bool-cases (is_free slot)) [
  | inl e ↦ rw e (inr (0, omega arith, omega arith, e, λ j p. absurd (omega arith)))
  | inr e ↦ rw e (go e (free_from (suc i) fds) (free_from-FreeFrom (suc i) fds))
]
  where
    go : is_free slot ≡ false → (r : ℕ) → FreeFrom (suc i) fds r → FreeFrom i (slot ∷ fds) r
    go e r (inl (out, used)) = inl (out, all)
      where
        all : (j : ℕ) → j < length (slot ∷ fds) → is_free (get_or (slot ∷ fds) j none) ≡ false
        all zero p = e
        all (suc j) p = used j (omega arith)
    go e r (inr (m, at, inside, free, used)) = inr (suc m, omega arith, omega arith, free, below)
      where
        below : (j : ℕ) → j < suc m → is_free (get_or (slot ∷ fds) j none) ≡ false
        below zero p = e
        below (suc j) p = used j (omega arith)

-- The first free slot is the one found.
find_free_fd-first :
    (fds : Fds) (fd : ℕ)
    → fd < length fds
    → is_free (get_or fds fd none) ≡ true
    → ((j : ℕ) → j < fd → is_free (get_or fds j none) ≡ false)
    → find_free_fd fds ≡ fd
unfolding find_free_fd
find_free_fd-first fds fd inside free used = go (free_from 0 fds) (free_from-FreeFrom 0 fds)
  where
    clash : is_free (get_or fds fd none) ≡ false → ⊥
    clash e = absurd (cc (e, free))

    go : (r : ℕ) → FreeFrom 0 fds r → r ≡ fd
    go r (inl (out, all)) = absurd (clash (all fd inside))
    go r (inr (m, at, lt, free', used')) = elim (Bool-cases (m == fd)) [
      | inl e ↦ ground (arith, at)
      | inr e ↦ elim (Bool-cases (ltb m fd)) [
        | inl b ↦ absurd (cc (used m (ground arith), free'))
        | inr b ↦ absurd (clash (used' fd (ground arith)))
      ]
    ]

set_same : (fds : Fds) (i : ℕ) → set fds i (get_or fds i none) ≡ fds
set_same [] i = refl
set_same (x ∷ fds) zero = refl
set_same (x ∷ fds) (suc i) = ap (λ l. x ∷ l) (set_same fds i)

cleared : (d : Desc) → (d.node == 0) ≡ true → record d { node = 0 } ≡ d
cleared d e = let null : 0 ≡ d.node = ground arith in ap (λ n. record d { node = n }) null

-- What is to come of an open at a free slot: the descriptor stands there, a failed open leaves the
-- table, and one at a slot that never held a descriptor writes through NULL.
abbrev pub outcome :
    {W : Type 0} → Fds → (fd : ℕ) → Ptr → (flags : ℕ) → Option Desc → Bool × W → Option (Opened W)
outcome fds fd node flags slot (true, w) =
    some (fd, set fds fd (some (create_file_desc node flags)), w)
outcome fds fd node flags none (false, w) = none
outcome fds fd node flags (some d) (false, w) = some (invalid_fd, fds, w)

release_fd-free :
    (fds : Fds) (fd : ℕ) (d : Desc)
    → fd < length fds
    → (fd == invalid_fd) ≡ false
    → get_or fds fd none ≡ some d
    → (d.node == 0) ≡ true
    → release_fd fds fd ≡ some fds
unfolding release_fd
release_fd-free fds fd d inside valid at null =
    rw (valid, get_elem?-eq-get_or fds fd none inside, at, cleared d null)
      (ap some (ap (λ o. set fds fd o) (sym at) ∙ set_same fds fd))

release_fd_null :
    (fds : Fds) (fd : ℕ)
    → fd < length fds
    → (fd == invalid_fd) ≡ false
    → get_or fds fd none ≡ none
    → release_fd fds fd ≡ none
unfolding release_fd
release_fd_null fds fd inside valid at = rw (valid, get_elem?-eq-get_or fds fd none inside, at) refl

-- `_open_file`, where `fd` is the first free slot, takes it when the file system's open succeeds.
-- When it fails, the table stays as it was if a descriptor stood there before, and if none did the
-- code writes to the node of a NULL descriptor.
pub open_file-outcome :
    {W : Type 0} (dr : Driver W) (fds : Fds) (w : W) (parent : Option Ptr) (node : Ptr)
    (flags fd : ℕ)
    → length fds ≤ 64
    → fd < length fds
    → is_free (get_or fds fd none) ≡ true
    → ((j : ℕ) → j < fd → is_free (get_or fds j none) ≡ false)
    → open_file dr fds w parent node flags
      ≡ outcome fds fd node flags (get_or fds fd none) (fs_open dr w parent node)
unfolding open_file
open_file-outcome {W = W} dr fds w parent node flags fd few inside free used =
    let valid : (fd == invalid_fd) ≡ false = ground arith in
    rw (find_free_fd-first fds fd inside free used, valid)
      (go valid (get_or fds fd none) refl free (fs_open dr w parent node))
  where
    go :
        (fd == invalid_fd) ≡ false
        → (slot : Option Desc) → get_or fds fd none ≡ slot
        → is_free slot ≡ true
        → (r : Bool × W) → opened fds fd node flags r ≡ outcome fds fd node flags slot r
    go valid slot at free (true, w') = refl
    go valid none at free (false, w') =
        ap (λ o. and_then o (λ fds'. some (invalid_fd, fds', w')))
          (release_fd_null fds fd inside valid at)
    go valid (some d) at free (false, w') =
        ap (λ o. and_then o (λ fds'. some (invalid_fd, fds', w')))
          (release_fd-free fds fd d inside valid at free)
