-- ===== src/PhysMem/Size.antt =====
-- The size of the index that `pmm_init` sets up: `_idx_size` is counted in bytes there, and in words
-- of 32 bits everywhere else.
use model_lib.Common.{
  ℕ, ◌*◌, ◌^◌, ◌<◌, ◌≡◌, inl, inr, ap, List, Option, none, some, arith, ltb, length, get_or,
  Bool-cases,
}
use model_lib.PhysMem.{Pmm, is_valid_frame, pmm_init, pmm_alloc_frame}
use model_lib.PhysMem.Search.{mark, Marked}
use model_lib.PhysMem.Marks.{IsValid}
use model_lib.PhysMem.Alloc.{Allocated, alloc_lem}

init_sizes :
    (mb : ℕ) (memory : List ℕ)
    → mb < 4096
    → ((pmm_init mb memory).frame_count ≡ mb * 256) × ((pmm_init mb memory).idx_size ≡ mb * 32)
unfolding pmm_init
init_sizes mb memory h = (omega arith, omega arith)

-- After `pmm_init` for less than 4 GB the allocator takes a frame number for valid exactly when it
-- is below four times the number of frames that the memory has.
pub is_valid_frame-init :
    (mb : ℕ) (memory : List ℕ) (frame : ℕ)
    → mb < 4096
    → is_valid_frame (pmm_init mb memory) frame ≡ ltb frame (4 * (pmm_init mb memory).frame_count)
unfolding is_valid_frame
is_valid_frame-init mb memory frame h = ground (arith, init_sizes mb memory h)

-- The index that `pmm_init` leaves is valid if `kmalloc` gave it four times the bytes asked for.
pub init-IsValid :
    (mb : ℕ) (memory : List ℕ)
    → mb < 4096
    → length memory ≡ mb * 32
    → ((i : ℕ) → get_or memory i 0 < 2 ^ 32)
    → IsValid (pmm_init mb memory)
unfolding pmm_init
init-IsValid mb memory h words fits = record {
  words = omega (arith, words);
  fits = fits;
  small = omega arith;
}

frame_of :
    (s : Pmm) (n : ℕ) (o : Option (ℕ × Pmm))
    → Allocated s o
    → Marked s.frame_idx 0 n
    → mark s.frame_idx n ≡ 0
    → n < s.idx_size * 32
    → (t : Pmm) × (o ≡ some (n, t))
frame_of s n none all taken free inside = absurd (omega (arith, all n (omega arith) inside))
frame_of s n (some (f, t)) p taken free inside = elim (Bool-cases (ltb f n)) [
  | inl e ↦ absurd (omega (arith, p.1, taken f (omega arith) (ground arith)))
  | inr e ↦ elim (Bool-cases (ltb n f)) [
    | inl e' ↦ absurd (omega (arith, free, p.2 n (omega arith) (ground arith)))
    | inr e' ↦ let same : f ≡ n = ground arith in (t, ap (λ k. some (k, t)) same)
  ]
]

-- With the mark of every frame of the memory set, and that of the next number clear,
-- `pmm_alloc_frame` does not panic: it hands out the number of frames, a frame that the memory does
-- not have.
pub alloc_beyond_memory :
    (mb : ℕ) (memory : List ℕ)
    → 0 < mb
    → mb < 4096
    → length memory ≡ mb * 32
    → ((i : ℕ) → get_or memory i 0 < 2 ^ 32)
    → Marked memory 0 (mb * 256)
    → mark memory (mb * 256) ≡ 0
    → ((pmm_init mb memory).frame_count ≡ mb * 256)
      × (t : Pmm) × (pmm_alloc_frame (pmm_init mb memory) ≡ some (mb * 256, t))
unfolding pmm_init
alloc_beyond_memory mb memory pos h words fits taken free =
    let sizes = init_sizes mb memory h in
    let found =
      frame_of (pmm_init mb memory) (mb * 256) _ (alloc_lem (init-IsValid mb memory h words fits))
        taken free (omega (arith, sizes.1)) in
    (sizes.0, found.0, found.1)
