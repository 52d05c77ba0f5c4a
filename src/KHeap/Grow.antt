-- ===== src/KHeap/Grow.antt =====
-- kernel/memory/kheap.c: `expand` and `contract`. The tests `new_size&0x00000FFF != 0` compare first,
-- so that they read the lowest bit only.
use model_lib.Common.{
  ℕ, zero, suc, ◌+◌, ◌-◌, ◌/◌, ◌%◌, true, ◌&&◌, Option, none, some, if◌then◌else◌, ◌==◌, ltb, leb,
  add32, sub32, and_then,
}
use model_lib.Paging.{Ptr, map_page, unmap_page}
use model_lib.KHeap.{Heap, heap_min_size}

abbrev pub round_up : ℕ → ℕ
round_up n = if n % 2 == 0 then n else add32 (n - n % 0x1000) 0x1000

-- The loop of `expand`, with `n` rounds left; `fresh i` is what `kmalloc_ap` returns if the page of
-- round `i` needs a table.
unfoldable pub map_from : (n i : ℕ) → (fresh : ℕ → Ptr × ℕ) → Heap → Option Heap
map_from zero i fresh h = some h
map_from (suc n) i fresh h =
    and_then (map_page h.vmm h.page_dir (add32 h.start_address i) h.supervisor true (fresh 0))
      (λ v. map_from n (add32 i 0x1000) (λ k. fresh (suc k)) (record h { vmm = v }))

abbrev pub to_end : ℕ → Option Heap → Option Heap
to_end size none = none
to_end size (some h) = some (record h { end_address = add32 h.start_address size })

-- The rounds of a loop that steps by pages from `i` while it is below `n`.
abbrev pub rounds : (i n : ℕ) → ℕ
rounds i n = (n - i + 0xfff) / 0x1000

unfoldable pub expand : (new_size : ℕ) → (fresh : ℕ → Ptr × ℕ) → Heap → Option Heap
unfolding map_from
expand new_size fresh h =
    let old_size = sub32 h.end_address h.start_address in
    let rounded = round_up new_size in
    if ltb old_size new_size && leb (add32 h.start_address rounded) h.max_address
    then to_end rounded (map_from (rounds old_size rounded) old_size fresh h)
    else none

-- The loop of `contract`, with `n` rounds left: `i` falls by pages while it is above `new_size`.
unfoldable pub unmap_from : (n i : ℕ) → Heap → Option Heap
unmap_from zero i h = some h
unmap_from (suc n) i h =
    and_then (unmap_page h.vmm h.page_dir (add32 h.start_address i))
      (λ v. unmap_from n (sub32 i 0x1000) (record h { vmm = v }))

abbrev pub at_least : ℕ → ℕ
at_least n = if ltb n heap_min_size then heap_min_size else n

-- The new length and the heap.
unfoldable pub contract : (new_size : ℕ) → Heap → Option (ℕ × Heap)
unfolding unmap_from
contract new_size h =
    let old_size = sub32 h.end_address h.start_address in
    let size = at_least (round_up new_size) in
    let i = sub32 old_size 0x1000 in
    if ltb new_size old_size
    then and_then (to_end size (unmap_from (rounds size i) i h)) (λ t. some (size, t))
    else none
