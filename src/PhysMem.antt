-- ===== src/PhysMem.antt =====
-- kernel/memory/phys_mem.c: the allocator of physical frames that the paging code uses (`pmm_init`,
-- `pmm_alloc_frame`, `pmm_free_frame`) over its index, one bit to a frame. Its static variables are
-- the fields of `Pmm`; the list holds the words from `_frame_idx` on. A panic, which never returns,
-- is `none`.
pub mod Search
pub mod Marks
pub mod Alloc
pub mod Size
mod Tests
use Prim.Native.Nat.{bit_and, bit_or}
use model_lib.Common.{
  ℕ, zero, suc, ◌+◌, ◌*◌, ◌/◌, ◌%◌, ◌^◌, Bool, true, false, Option, none, some, List, if◌then◌else◌,
  ltb, ◌==◌, add32, sub32, u32_mod, get_or, set,
}
use model_lib.Common.Bits.{all_but}

pub record Pmm : Type 0 where
  pub frame_count : ℕ
  pub allocated_count : ℕ
  pub frame_idx : List ℕ
  pub idx_size : ℕ

-- `FRAME_SIZE`
abbrev pub frame_size : ℕ
frame_size = 0x1000

-- The value that stands for "no frame".
abbrev pub no_frame : ℕ
no_frame = 0xffffffff

-- The word of a frame, and its place in that word.
abbrev pub word_of : List ℕ → ℕ → ℕ
word_of idx frame = get_or idx (frame / 32) 0

abbrev pub mask_of : ℕ → ℕ
mask_of frame = 2 ^ (frame % 32)

unfoldable pub is_valid_frame : Pmm → ℕ → Bool
is_valid_frame s frame = ltb (frame / 32) s.idx_size

unfoldable pub is_frame_marked : Pmm → ℕ → ℕ
is_frame_marked s frame = bit_and (word_of s.frame_idx frame) (mask_of frame)

-- The two writes of `_mark_frame`, past its ASSERTs.
abbrev with_mark : Pmm → ℕ → Pmm
with_mark s frame = record s {
  frame_idx = set s.frame_idx (frame / 32) (bit_or (word_of s.frame_idx frame) (mask_of frame));
}

abbrev without_mark : Pmm → ℕ → Pmm
without_mark s frame = record s {
  frame_idx =
      set s.frame_idx (frame / 32) (bit_and (word_of s.frame_idx frame) (all_but 32 (frame % 32)));
}

pub mark_frame : Pmm → ℕ → Bool → Option Pmm
unfolding is_valid_frame is_frame_marked
mark_frame s frame true =
    if is_valid_frame s frame
    then (if is_frame_marked s frame == 0 then some (with_mark s frame) else none)
    else none
mark_frame s frame false =
    if is_valid_frame s frame
    then (if is_frame_marked s frame == 0 then none else some (without_mark s frame))
    else none

-- The inner loop of `_first_unmarked`, with `n` bits left; `none` when it runs to its end.
find_bit : ℕ → (n j : ℕ) → Option ℕ
find_bit word zero j = none
find_bit word (suc n) j = if bit_and word (2 ^ j) == 0 then some j else find_bit word n (suc j)

-- The frame of the bit found in word `i`, or else the rest of the search.
frame_at : ℕ → ℕ → Option ℕ → ℕ
frame_at i rest none = rest
frame_at i rest (some j) = (i * 32 + j) % u32_mod

-- The outer loop, with `n` words left.
pub find_frame : List ℕ → (n i : ℕ) → ℕ
find_frame idx zero i = no_frame
find_frame idx (suc n) i =
    let rest = find_frame idx n (suc i) in
    let word = get_or idx i 0 in
    if word == 0xffffffff then rest else frame_at i rest (find_bit word 32 0)

pub first_unmarked : Pmm → ℕ
unfolding find_frame frame_at find_bit
first_unmarked s = find_frame s.frame_idx s.idx_size 0

-- `memory` is what `kmalloc(_idx_size)` returns: the words from there on, not cleared.
pub pmm_init : (mb : ℕ) (memory : List ℕ) → Pmm
pmm_init mb memory =
    let size_in_bytes = mb * 0x100000 % u32_mod in
    let frame_count = size_in_bytes / frame_size in
    record {
      frame_count = frame_count;
      allocated_count = 0;
      frame_idx = memory;
      idx_size = frame_count / 8;
    }

abbrev counted : Pmm → ℕ → Option Pmm → Option (ℕ × Pmm)
counted s n none = none
counted s n (some t) = some (n, record t { allocated_count = add32 t.allocated_count 1 })

unfoldable pub pmm_alloc_frame : Pmm → Option (ℕ × Pmm)
unfolding first_unmarked mark_frame
pmm_alloc_frame s =
    let frame = first_unmarked s in
    if frame == no_frame then none else counted s frame (mark_frame s frame true)

abbrev discounted : Option Pmm → Option Pmm
discounted none = none
discounted (some t) = some (record t { allocated_count = sub32 t.allocated_count 1 })

unfoldable pub pmm_free_frame : Pmm → ℕ → Option Pmm
unfolding mark_frame
pmm_free_frame s frame = discounted (mark_frame s frame false)
