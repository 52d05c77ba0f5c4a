-- ===== src/KHeap/Tests.antt =====
-- Runs of the heap, and its theorems at a concrete heap.
use model_lib.Common.{
  ℕ, zero, suc, ◌+◌, ◌%◌, ◌<◌, ◌≡◌, refl, true, false, Option, none, some, List, [], ◌∷◌, ◌++◌,
  arith, get_or, if◌then◌else◌, ◌==◌,
}
use model_lib.OrderedArray.{lookup_ordered_array, insert_ordered_array, remove_ordered_array}
use model_lib.Paging.{Ptr, Vmm, blank_page}
use model_lib.KHeap.{Header, Footer, Heap, heap_magic, header_t_less_than, find_smallest_hole}
use model_lib.KHeap.Ops.{alloc_at, heap_alloc}
use model_lib.KHeap.Release.{heap_free}
use model_lib.KHeap.Tiles.{Block, used, free, header_of, total, Tiles}
use model_lib.KHeap.Fits.{
  BySize, Smallest, size_at, hole_at, find_smallest_hole-Smallest, IsHeap, Allocates,
  heap_alloc-Allocates,
}
use model_lib.KHeap.Free.{Frees, heap_free-Frees}
use model_lib.KHeap.Faults.{alloc_at_aligned, heap_free_stale}

-- An empty directory and no free frame.
abbrev vmm : Vmm
vmm = record {
  tables_at = λ _ _. blank_page;
  dirs = λ _. record { tables = λ _. 0; tables_physical = λ _. 0; physical_addr = 0 };
  kpage_dir = 8;
  pmm = record { frame_count = 0; allocated_count = 0; frame_idx = []; idx_size = 0 };
}

-- From 0x1000 on: a block of 40 bytes, a hole of 60, a block of 30 and a hole up to 0x2000.
abbrev heads : Ptr → Header
heads p =
    if p == 0x1000
    then header_of (used 40)
    else if p == 0x1028
    then header_of (free 60)
    else if p == 0x1064
    then header_of (used 30)
    else if p == 0x1082
    then header_of (free 0xf7e)
    else record { magic = 0; is_hole = 0; size = 0 }

abbrev feet : Ptr → Footer
feet p =
    if p == 0x1020
    then record { magic = heap_magic; header = 0x1000 }
    else if p == 0x105c
    then record { magic = heap_magic; header = 0x1028 }
    else if p == 0x107a
    then record { magic = heap_magic; header = 0x1064 }
    else if p == 0x1ff8
    then record { magic = heap_magic; header = 0x1082 }
    else record { magic = 0; header = 0 }

abbrev sample : Heap
sample = record {
  headers = heads;
  footers = feet;
  index = record {
    array = 0x1028 ∷ 0x1082 ∷ 0 ∷ 0 ∷ [];
    size = 2;
    max_size = 4;
    less_than = header_t_less_than heads;
  };
  start_address = 0x1000;
  end_address = 0x2000;
  max_address = 0x10000;
  supervisor = false;
  readonly = false;
  page_dir = 8;
  vmm = vmm;
}

abbrev no_tables : ℕ → Ptr × ℕ
no_tables _ = (0, 0)

-- What a run shows: the address returned, and the index.
abbrev shown : Option (Ptr × Heap) → List ℕ
shown none = []
shown (some (p, h)) = p ∷ h.index.size ∷ get_or h.index.array 0 0 ∷ get_or h.index.array 1 0 ∷ []

blocks : List Block
blocks = used 40 ∷ free 60 ∷ used 30 ∷ free 0xf7e ∷ []

sample-Tiles : Tiles heads 0x1000 blocks 0x2000
unfolding blocks
sample-Tiles =
    (refl, omega arith, (refl, omega arith, (refl, omega arith, (refl, omega arith, refl))))

sample-holes :
    (k : ℕ)
    → k < 2
    → (xs : List Block) × (n : ℕ) × (ys : List Block) × (blocks ≡ xs ++ free n ∷ ys)
      × (hole_at sample k ≡ 0x1000 + total xs)
unfolding blocks
sample-holes zero h = (used 40 ∷ [], 60, used 30 ∷ free 0xf7e ∷ [], refl, refl)
sample-holes (suc zero) h = (used 40 ∷ free 60 ∷ used 30 ∷ [], 0xf7e, [], refl, refl)
sample-holes (suc (suc k)) h = absurd (omega arith)

sample-IsHeap : IsHeap sample 0x1000 blocks 0x2000
sample-IsHeap = record {
  tiles = sample-Tiles;
  small = omega arith;
  room = omega arith;
  holes = sample-holes;
}

heap_alloc-Allocates_example :
    (r : Ptr × Heap) × (heap_alloc 1 (λ _. no_tables) 24 false sample ≡ some r)
    × Allocates sample 0x1000 blocks 0x2000 24 r
heap_alloc-Allocates_example =
    heap_alloc-Allocates sample 0x1000 blocks 0x2000 sample-IsHeap 0 (λ _. no_tables) 24 0
      (omega arith) (omega arith) (omega arith)

sample-BySize : BySize sample
sample-BySize zero zero l m = omega arith
sample-BySize zero (suc zero) l m = omega arith
sample-BySize (suc zero) (suc zero) l m = omega arith
sample-BySize (suc j) zero l m = absurd (omega arith)
sample-BySize j (suc (suc k)) l m = absurd (omega arith)
sample-BySize (suc (suc j)) (suc zero) l m = absurd (omega arith)

find_smallest_hole-Smallest_example : Smallest sample 61 (find_smallest_hole sample 61 false)
find_smallest_hole-Smallest_example =
    find_smallest_hole-Smallest sample 61 (omega arith) sample-BySize

alloc_at_aligned_example : (alloc_at 16 true 0 0x1000 sample).0 % 0x1000 ≡ 12
alloc_at_aligned_example = alloc_at_aligned sample 16 0 0x1000 (omega arith)

-- Two blocks in use and a hole; the address of the second is 0x1034.
abbrev between : Ptr → Header
between p =
    if p == 0x1000
    then header_of (used 40)
    else if p == 0x1028
    then header_of (used 60)
    else if p == 0x1064
    then header_of (used 30)
    else if p == 0x1082
    then header_of (free 0xf7e)
    else record { magic = 0; is_hole = 0; size = 0 }

abbrev in_use : Heap
in_use = record sample {
  headers = between;
  index = record sample.index { array = 0x1082 ∷ 0 ∷ 0 ∷ 0 ∷ []; size = 1 };
}

in_use-Tiles : Tiles between 0x1000 (used 40 ∷ used 60 ∷ used 30 ∷ free 0xf7e ∷ []) 0x2000
in_use-Tiles =
    (refl, omega arith, (refl, omega arith, (refl, omega arith, (refl, omega arith, refl))))

heap_free-Frees_example :
    (r : Heap) × (heap_free 0x1034 in_use ≡ some r)
    × Frees in_use 0x1000 0x2000 (used 40 ∷ []) (used 30 ∷ free 0xf7e ∷ []) 60 0x1028 r
heap_free-Frees_example =
    heap_free-Frees in_use 0x1000 0x2000 (used 40 ∷ []) (used 30 ∷ free 0xf7e ∷ []) 60 in_use-Tiles
      (omega arith) (omega arith) refl refl refl (omega arith)

abbrev behind : List Block
behind = used 30 ∷ free 0xf7e ∷ []

heap_free_stale_example :
    (r : Heap) × (heap_free 0x100c sample ≡ some r)
    × (r.headers 0x1000 ≡ header_of (free 100))
    × ((r.footers 0x105c).header ≡ 0x1028)
unfolding blocks
heap_free_stale_example =
    heap_free_stale sample 0x1000 0x2000 [] behind 40 60 sample-Tiles (omega arith) 0 (omega arith)
      refl refl refl (omega arith) (omega arith) refl (omega arith)

abbrev then_free : Ptr → Option Heap → Option Heap
then_free p none = none
then_free p (some h) = heap_free p h

-- The index after a run: its size, its first item and the size of the hole there.
abbrev indexed : Option Heap → List ℕ
indexed none = []
indexed (some h) = h.index.size ∷ hole_at h 0 ∷ size_at h 0 ∷ []

-- All blocks are freed, and of 0x1000 bytes 100 are left in the index.
lost_memory :
    indexed (then_free 0x1070 (then_free 0x100c (some (record sample { end_address = 0x3000 }))))
    ≡ 1 ∷ 0x1000 ∷ 100 ∷ []
unfolding heap_free lookup_ordered_array insert_ordered_array remove_ordered_array
    header_t_less_than
lost_memory = refl

splits_hole :
    shown (heap_alloc 1 (λ _. no_tables) 100 false sample) ≡ 0x108e ∷ 2 ∷ 0x1028 ∷ 0x10fa ∷ []
unfolding heap_alloc find_smallest_hole lookup_ordered_array insert_ordered_array
    remove_ordered_array header_t_less_than
splits_hole = refl
