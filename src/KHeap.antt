-- ===== src/KHeap.antt =====
-- kernel/memory/kheap.c: the heap. Block headers and footers stand in two stores by their addresses;
-- the bytes of a block between them belong to its user and are not in the model. The index is the
-- ordered array of kernel/memory/ordered_array.c, whose predicate reads the headers. Pages are
-- mapped through kernel/memory/paging.c. A failed ASSERT, here or there, is `none`.
pub mod Grow
pub mod Ops
pub mod Release
pub mod Kmalloc
pub mod Fits
pub mod Tiles
pub mod Split
pub mod Free
pub mod Faults
mod Tests
use model_lib.Common.{
  ℕ, zero, suc, ◌+◌, ◌-◌, ◌*◌, ◌%◌, ◌^◌, Bool, true, false, not, ◌&&◌, Option, none, some,
  if◌then◌else◌, ◌==◌, ltb, leb, add32, sub32,
}
use model_lib.OrderedArray.{
  OrderedArray, insert_ordered_array, lookup_ordered_array, place_ordered_array,
}
use model_lib.Paging.{Ptr, Vmm, get_phys_addr, put_in}

pub record Header : Type 0 where
  pub magic : ℕ
  pub is_hole : ℕ
  pub size : ℕ

pub record Footer : Type 0 where
  pub magic : ℕ
  pub header : Ptr

pub record Heap : Type 0 where
  pub headers : Ptr → Header
  pub footers : Ptr → Footer
  pub index : OrderedArray
  pub start_address : ℕ
  pub end_address : ℕ
  pub max_address : ℕ
  pub supervisor : Bool
  pub readonly : Bool
  pub page_dir : Ptr
  -- the memory that the heap's pages are mapped in
  pub vmm : Vmm

-- `HEAP_INDEX_SIZE`, `HEAP_MAGIC`, `HEAP_MIN_SIZE`, and the sizes of the two records.
abbrev pub heap_index_size : ℕ
heap_index_size = 0x20000

abbrev pub heap_magic : ℕ
heap_magic = 0x123890ab

abbrev pub heap_min_size : ℕ
heap_min_size = 0x70000

abbrev pub header_size : ℕ
header_size = 12

abbrev pub footer_size : ℕ
footer_size = 8

abbrev pub write_header : Heap → Ptr → Header → Heap
write_header h p x = record h { headers = put_in h.headers p x }

abbrev pub write_footer : Heap → Ptr → Footer → Heap
write_footer h p x = record h { footers = put_in h.footers p x }

pub header_t_less_than : (Ptr → Header) → Ptr → Ptr → Bool
header_t_less_than headers a b = ltb (headers a).size (headers b).size

-- An insertion into the index, with the predicate reading the headers as they are now.
abbrev pub insert_index : Heap → Ptr → Heap
insert_index h p = record h {
  index = insert_ordered_array p (record h.index { less_than = header_t_less_than h.headers });
}

-- `>=` on `int32_t`.
abbrev pub signed_ge : ℕ → ℕ → Bool
signed_ge a b = leb ((b + 2 ^ 31) % 2 ^ 32) ((a + 2 ^ 31) % 2 ^ 32)

-- The bytes in front of a hole's data up to a page boundary.
abbrev pub align_offset : Ptr → ℕ
align_offset location =
    if add32 location header_size % 0x1000 == 0
    then 0
    else 0x1000 - add32 location header_size % 0x1000

-- The test of the loop in `find_smallest_hole`.
abbrev pub hole_fits : Heap → (size : ℕ) → (page_align : Bool) → Ptr → Bool
hole_fits h size page_align p =
    if page_align
    then signed_ge (sub32 (h.headers p).size (align_offset p)) size
    else leb size (h.headers p).size

-- One round of the loop: the item read, and the result of the later rounds.
abbrev pub find_step :
    Heap
    → (size : ℕ) → (page_align : Bool) → (iterator : ℕ) → Option Ptr
    → Option (Option ℕ)
    → Option (Option ℕ)
find_step h size page_align iterator none rest = none
find_step h size page_align iterator (some p) rest =
    if hole_fits h size page_align p then some (some iterator) else rest

-- The loop, with `n` items left; `some none` for the result -1.
unfoldable pub find_from :
    Heap → (size : ℕ) → (page_align : Bool) → (n iterator : ℕ) → Option (Option ℕ)
find_from h size page_align zero iterator = some none
find_from h size page_align (suc n) iterator =
    find_step h size page_align iterator (lookup_ordered_array iterator h.index)
      (find_from h size page_align n (suc iterator))

unfoldable pub find_smallest_hole : Heap → (size : ℕ) → (page_align : Bool) → Option (Option ℕ)
unfolding find_from
find_smallest_hole h size page_align = find_from h size page_align h.index.size 0

-- `heap_create` past its first two ASSERTs; `memory` and `foot` are what the memory held.
abbrev created :
    (vmm : Vmm) (page_dir start end_addr max : ℕ)
    → (supervisor readonly : Bool) → (memory : Ptr → Header) (foot : Ptr → Footer) → Heap
created vmm page_dir start end_addr max supervisor readonly memory foot =
    let moved = add32 start (4 * heap_index_size) in
    let aligned = if moved % 2 == 0 then moved else add32 (moved - moved % 0x1000) 0x1000 in
    let hole : Header = record { magic = heap_magic; is_hole = 1; size = sub32 end_addr aligned } in
    let headers = put_in memory aligned hole in
    insert_index
      (record {
        headers = headers;
        footers = foot;
        index = place_ordered_array heap_index_size (header_t_less_than headers);
        start_address = aligned;
        end_address = end_addr;
        max_address = max;
        supervisor = supervisor;
        readonly = readonly;
        page_dir = page_dir;
        vmm = vmm;
      })
      aligned

unfoldable pub heap_create :
    (vmm : Vmm) (page_dir start end_addr max : ℕ)
    → (supervisor readonly : Bool) → (memory : Ptr → Header) (foot : Ptr → Footer) → Option Heap
heap_create vmm page_dir start end_addr max supervisor readonly memory foot =
    if (start % 0x1000 == 0)
      && (end_addr % 0x1000 == 0)
      && ltb heap_index_size (sub32 end_addr start)
    then some (created vmm page_dir start end_addr max supervisor readonly memory foot)
    else none
