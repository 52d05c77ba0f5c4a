-- ===== src/PhysMem/Alloc.antt =====
-- `pmm_alloc_frame` and `pmm_free_frame`, on every branch.
use model_lib.Common.{
  ℕ, ◌*◌, ◌/◌, ◌%◌, ◌≤◌, ◌<◌, ◌≡◌, refl, ◌⊎◌, true, false, inl, inr, Option, none, some, arith,
  if◌then◌else◌, Bool-cases, ltb, ◌==◌, ==_iff, add32, sub32,
}
use model_lib.PhysMem.{
  Pmm, no_frame, word_of, is_frame_marked, with_mark, mark_frame, counted, first_unmarked,
  pmm_alloc_frame, pmm_free_frame,
}
use model_lib.PhysMem.Search.{mark, Marked, Found, test-bit, find_frame-Found}
use model_lib.PhysMem.Marks.{
  IsValid, SameElsewhere, with_mark-IsValid, without_mark-IsValid, with_mark_self, with_mark_ne,
  without_mark_self, without_mark_ne,
}

-- What an allocation may do to `s`.
abbrev pub Allocated : Pmm → Option (ℕ × Pmm) → Type 0
Allocated s none = Marked s.frame_idx 0 (s.idx_size * 32)
Allocated s (some (f, t)) =
    (f < s.idx_size * 32)
    × (mark s.frame_idx f ≡ 0)
    × Marked s.frame_idx 0 f
    × (mark t.frame_idx f ≡ 1)
    × SameElsewhere f s t
    × (t.allocated_count ≡ add32 s.allocated_count 1)
    × IsValid t
    × (t.idx_size ≡ s.idx_size)

-- What freeing frame `f` may do to `s`.
abbrev pub Freed : Pmm → ℕ → Option Pmm → Type 0
Freed s f none = (s.idx_size ≤ f / 32) ⊎ (mark s.frame_idx f ≡ 0)
Freed s f (some t) =
    (f / 32 < s.idx_size)
    × (mark s.frame_idx f ≡ 1)
    × (mark t.frame_idx f ≡ 0)
    × SameElsewhere f s t
    × (t.allocated_count ≡ sub32 s.allocated_count 1)
    × IsValid t
    × (t.idx_size ≡ s.idx_size)

counted-IsValid : (t : Pmm) (n : ℕ) → IsValid t → IsValid (record t { allocated_count = n })
counted-IsValid t n v = record { words = v.words; fits = v.fits; small = v.small }

module _ {s : Pmm} (v : IsValid s) where
  mark_frame-true :
      (f : ℕ)
      → f / 32 < s.idx_size
      → mark s.frame_idx f ≡ 0
      → mark_frame s f true ≡ some (with_mark s f)
  unfolding mark_frame
  mark_frame-true f inside clear = elim (Bool-cases (is_frame_marked s f == 0)) [
    | inl e ↦ let ok : ltb (f / 32) s.idx_size ≡ true = ground arith in rw (ok, e)
    | inr e ↦ absurd (omega (arith, clear, (test-bit (word_of s.frame_idx f) (f % 32)).1 e))
  ]

  alloc-Found :
      (r : ℕ)
      → Found s.frame_idx 0 s.idx_size r
      → Allocated s (if r == no_frame then none else counted s r (mark_frame s r true))
  alloc-Found r (inr (missing, all)) =
      let e : (r == no_frame) ≡ true = (==_iff _ _).1 missing in
      rw e (λ g p q. all g p (omega arith))
  alloc-Found r (inl (lo, hi, clear, below)) =
      let inside : r / 32 < s.idx_size = omega arith in
      let e : (r == no_frame) ≡ false = ground (arith, v.small) in
      rw (e, mark_frame-true r inside clear)
        (
          omega arith,
          clear,
          below,
          with_mark_self v r inside,
          with_mark_ne v r inside,
          refl,
          counted-IsValid _ _ (with_mark-IsValid v r inside),
          refl,
        )

  -- `pmm_alloc_frame` on a valid index takes the lowest frame that is not marked, marks it and no
  -- other, and counts it; it panics only when all frames of the index are marked.
  pub alloc_lem : Allocated s (pmm_alloc_frame s)
  unfolding pmm_alloc_frame first_unmarked
  alloc_lem =
      alloc-Found _ (find_frame-Found s.frame_idx v.fits s.idx_size 0 (omega (arith, v.small)))

  -- `pmm_free_frame` on a valid index clears the mark of a marked frame and no other, and counts it
  -- off; it panics exactly on a frame outside the index and on one that is not marked.
  pub free_lem : (f : ℕ) → Freed s f (pmm_free_frame s f)
  unfolding pmm_free_frame mark_frame
  free_lem f = elim (Bool-cases (ltb (f / 32) s.idx_size)) [
    | inr out ↦ rw out (inl (ground arith))
    | inl ok ↦
        let inside : f / 32 < s.idx_size = ground arith in
        let test = test-bit (word_of s.frame_idx f) (f % 32) in
        elim (Bool-cases (is_frame_marked s f == 0)) [
          | inl e ↦ rw (ok, e) (inr (test.0 e))
          | inr e ↦
              rw (ok, e)
                (
                  inside,
                  test.1 e,
                  without_mark_self v f inside,
                  without_mark_ne v f inside,
                  refl,
                  counted-IsValid _ _ (without_mark-IsValid v f inside),
                  refl,
                )
        ]
  ]
