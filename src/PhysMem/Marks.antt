-- ===== src/PhysMem/Marks.antt =====
-- `pmm_alloc_frame` and `pmm_free_frame` against the set of marked frames.
use model_lib.Common.{
  ℕ, ◌*◌, ◌/◌, ◌%◌, ◌^◌, ◌≤◌, ◌<◌, ◌≡◌, ◌≢◌, ◌∙◌, inl, inr, List, arith, Bool-cases, ◌==◌, length,
  get_or, set, ==_iff, length-set, get_or-set_self, get_or-set_ne, get_or-set_lt,
}
use model_lib.Common.Bits.{
  bit, all_but, bit-bit_or, bit-bit_or_ne, bit_or-lt, bit-clear, bit-clear_ne, bit_and-le,
}
use model_lib.PhysMem.{Pmm, no_frame, word_of, with_mark, without_mark}
use model_lib.PhysMem.Search.{mark}

-- The index holds `_idx_size` words of 32 bits, and no frame number reaches the value that stands
-- for "no frame".
pub record IsValid (s : Pmm) : Type 0 where
  pub words : length s.frame_idx ≡ s.idx_size
  pub fits : (i : ℕ) → get_or s.frame_idx i 0 < 2 ^ 32
  pub small : s.idx_size * 32 ≤ no_frame

-- The frames other than `f` are marked alike.
abbrev pub SameElsewhere : ℕ → Pmm → Pmm → Type 0
SameElsewhere f s t = (g : ℕ) → g ≢ f → mark t.frame_idx g ≡ mark s.frame_idx g

-- Two frames of one word stand at different places in it.
place-ne : (f g : ℕ) → g ≢ f → g / 32 ≡ f / 32 → f % 32 ≢ g % 32
place-ne f g h e p = h (omega arith)

-- A write to one word that changes one bit of it.
module _ (idx : List ℕ) (f v : ℕ) (inside : f / 32 < length idx) where
  mark-set_self : (b : ℕ) → bit v (f % 32) ≡ b → mark (set idx (f / 32) v) f ≡ b
  mark-set_self b h = rw (get_or-set_self idx (f / 32) v 0 inside) h

  mark-set_ne :
      ((c : ℕ) → f % 32 ≢ c → c < 32 → bit v c ≡ bit (get_or idx (f / 32) 0) c)
      → (g : ℕ) → g ≢ f
      → mark (set idx (f / 32) v) g ≡ mark idx g
  mark-set_ne same g h = elim (Bool-cases (g / 32 == f / 32)) [
    | inl e ↦
        let word : g / 32 ≡ f / 32 = (==_iff _ _).0 e in
        rw (word, get_or-set_self idx (f / 32) v 0 inside)
          (same (g % 32) (place-ne f g h word) (omega arith))
    | inr e ↦
        let other : f / 32 ≢ g / 32 = λ p. absurd (ground arith) in
        rw (get_or-set_ne idx (f / 32) (g / 32) v 0 other)
  ]

module _ {s : Pmm} (v : IsValid s) (f : ℕ) (inside : f / 32 < s.idx_size) where
  in_idx : f / 32 < length s.frame_idx
  in_idx = omega (arith, v.words)

  pub with_mark-IsValid : IsValid (with_mark s f)
  with_mark-IsValid = record {
    words = length-set s.frame_idx (f / 32) _ ∙ v.words;
    fits =
        get_or-set_lt s.frame_idx (f / 32) _ (2 ^ 32) v.fits
          (bit_or-lt 32 (word_of s.frame_idx f) (f % 32) (v.fits (f / 32)) (omega arith));
    small = v.small;
  }

  pub without_mark-IsValid : IsValid (without_mark s f)
  without_mark-IsValid = record {
    words = length-set s.frame_idx (f / 32) _ ∙ v.words;
    fits = get_or-set_lt s.frame_idx (f / 32) _ (2 ^ 32) v.fits (
        omega (
          arith,
          bit_and-le (word_of s.frame_idx f) (word_of s.frame_idx f) (all_but 32 (f % 32))
              (omega arith),
          v.fits (f / 32),
        ));
    small = v.small;
  }

  pub with_mark_self : mark (with_mark s f).frame_idx f ≡ 1
  with_mark_self = mark-set_self s.frame_idx f _ in_idx 1 (bit-bit_or _ (f % 32))

  pub with_mark_ne : SameElsewhere f s (with_mark s f)
  with_mark_ne = mark-set_ne s.frame_idx f _ in_idx (λ c h k. bit-bit_or_ne _ (f % 32) c h)

  pub without_mark_self : mark (without_mark s f).frame_idx f ≡ 0
  without_mark_self = mark-set_self s.frame_idx f _ in_idx 0 (bit-clear 32 _ (f % 32) (omega arith))

  pub without_mark_ne : SameElsewhere f s (without_mark s f)
  without_mark_ne =
      mark-set_ne s.frame_idx f _ in_idx (λ c h k. bit-clear_ne 32 _ (f % 32) c (omega arith) k h)
