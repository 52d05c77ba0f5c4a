-- ===== src/KHeap/Ops.antt =====
-- kernel/memory/kheap.c: `heap_alloc`.
use model_lib.Common.{
  ℕ, zero, suc, ◌+◌, ◌%◌, Bool, not, ◌&&◌, Option, none, some, if◌then◌else◌, ◌==◌, ltb, add32,
  sub32,
}
use model_lib.OrderedArray.{remove_ordered_array, lookup_ordered_array}
use model_lib.Paging.{Ptr}
use model_lib.KHeap.{
  Heap, heap_magic, header_size, footer_size, write_header, write_footer, insert_index,
  find_smallest_hole,
}
use model_lib.KHeap.Grow.{expand}

-- The loop over the index for the endmost hole, with `n` items left: its index and its address, the
-- index being `none` for -1.
unfoldable pub find_last : Heap → (n iterator : ℕ) → Option ℕ → (value : ℕ) → Option (Option ℕ)
find_last h zero iterator idx value = some idx
find_last h (suc n) iterator idx value =
    let newer = λ (p : Ptr). find_last h n (suc iterator) (some iterator) p in
    let older = find_last h n (suc iterator) idx value in
    elim (lookup_ordered_array iterator h.index) [
      | none ↦ none
      | some p ↦ if ltb value p then newer p else older
    ]

-- The heap after `expand`, with its new bytes in a hole: a new one, or the endmost one grown.
abbrev pub grow_last : (old_length old_end : ℕ) → Heap → Option ℕ → Option Heap
grow_last old_length old_end h none =
    let more = sub32 (sub32 h.end_address h.start_address) old_length in
    let a = write_header h old_end (record { magic = heap_magic; is_hole = 1; size = more }) in
    let b =
      write_footer a (sub32 (add32 old_end more) footer_size)
        (record { magic = heap_magic; header = old_end }) in
    some (insert_index b old_end)
grow_last old_length old_end h (some idx) =
    let more = sub32 (sub32 h.end_address h.start_address) old_length in
    elim (lookup_ordered_array idx h.index) [
      | none ↦ none
      | some p ↦
          let size = add32 (h.headers p).size more in
          let a = write_header h p (record (h.headers p) { size = size }) in
          some (
            write_footer a (sub32 (add32 p size) footer_size)
              (record { magic = heap_magic; header = p }))
    ]

-- The part of `heap_alloc` that makes room, before it calls itself again.
unfoldable pub make_room : (new_size : ℕ) → (fresh : ℕ → Ptr × ℕ) → Heap → Option Heap
unfolding find_last
make_room new_size fresh h =
    let old_length = sub32 h.end_address h.start_address in
    elim (expand (add32 old_length new_size) fresh h) [
      | none ↦ none
      | some t ↦ elim (find_last t t.index.size 0 none 0) [
        | none ↦ none
        | some idx ↦ grow_last old_length h.end_address t idx
      ]
    ]

-- `size` and `new_size`, once the rest of a hole that cannot hold a header and a footer is added.
abbrev pub fill_up : (orig_hole_size size : ℕ) → ℕ × ℕ
fill_up orig size =
    let new_size = add32 size (header_size + footer_size) in
    if ltb (sub32 orig new_size) (header_size + footer_size)
    then (add32 size (sub32 orig new_size), orig)
    else (size, new_size)

-- The hole in front of an aligned block; the address and the size that are left.
abbrev pub split_front : (pos orig_hole_size : ℕ) → Heap → (ℕ × ℕ) × Heap
split_front pos orig h =
    let front = sub32 (sub32 0x1000 (pos % 0x1000)) header_size in
    let new_location = sub32 (sub32 (add32 pos 0x1000) (pos % 0x1000)) header_size in
    let a = write_header h pos (record { magic = heap_magic; is_hole = 1; size = front }) in
    let b =
      write_footer a (sub32 new_location footer_size)
        (record { magic = heap_magic; header = pos }) in
    ((new_location, sub32 orig front), b)

abbrev pub take_hole :
    (pos orig_hole_size iterator : ℕ) → (page_align : Bool) → Heap → (ℕ × ℕ) × Heap
take_hole pos orig iterator page_align h =
    if page_align && not (pos % 0x1000 == 0)
    then split_front pos orig h
    else ((pos, orig), record h { index = remove_ordered_array iterator h.index })

-- The block's header and footer.
abbrev pub write_block : (pos size new_size : ℕ) → Heap → Heap
write_block pos size new_size h =
    write_footer (write_header h pos (record { magic = heap_magic; is_hole = 0; size = new_size }))
      (add32 (add32 pos header_size) size) (record { magic = heap_magic; header = pos })

-- The hole behind the block, if something is left.
abbrev pub write_rest : (pos size new_size orig_hole_size : ℕ) → Heap → Heap
write_rest pos size new_size orig h =
    let rest = sub32 orig new_size in
    let hole = add32 (add32 (add32 pos header_size) size) footer_size in
    let foot = sub32 (add32 hole rest) footer_size in
    let a = write_header h hole (record { magic = heap_magic; is_hole = 1; size = rest }) in
    let b =
      if ltb foot h.end_address
      then write_footer a foot (record { magic = heap_magic; header = hole })
      else a in
    if rest == 0 then h else insert_index b hole

-- `heap_alloc` once a hole is found: the address returned, and the heap.
unfoldable pub alloc_at :
    (size : ℕ) → (page_align : Bool) → (iterator : ℕ) → (pos : Ptr) → Heap → Ptr × Heap
alloc_at size page_align iterator pos h =
    let (size', new_size) = fill_up (h.headers pos).size size in
    let ((pos', orig), t) = take_hole pos (h.headers pos).size iterator page_align h in
    (
      add32 pos' header_size,
      write_rest pos' size' new_size orig (write_block pos' size' new_size t),
    )

-- Once the item of the index is read.
abbrev pub alloc_from :
    (size : ℕ) → (page_align : Bool) → (iterator : ℕ) → Heap → Option Ptr → Option (Ptr × Heap)
alloc_from size page_align i h none = none
alloc_from size page_align i h (some pos) = some (alloc_at size page_align i pos h)

-- Once the search is done; `grown` is the result of the recursive call.
abbrev pub alloc_found :
    (size : ℕ)
    → (page_align : Bool) → Heap
    → Option (Option ℕ)
    → Option (Ptr × Heap)
    → Option (Ptr × Heap)
alloc_found size page_align h none grown = none
alloc_found size page_align h (some (some i)) grown =
    alloc_from size page_align i h (lookup_ordered_array i h.index)
alloc_found size page_align h (some none) grown = grown

-- `fresh k i` is what `kmalloc_ap` returns in the k-th expansion for page `i`; `none` is also the
-- result when the fuel for the recursion runs out.
unfoldable pub heap_alloc :
    (fuel : ℕ)
    → (fresh : ℕ → ℕ → Ptr × ℕ) → (size : ℕ) → (page_align : Bool) → Heap
    → Option (Ptr × Heap)
unfolding alloc_at make_room
heap_alloc zero fresh size page_align h = none
heap_alloc (suc fuel) fresh size page_align h =
    let new_size = add32 size (header_size + footer_size) in
    alloc_found size page_align h (find_smallest_hole h new_size page_align)
      (elim (make_room new_size (fresh 0) h) [
        | none ↦ none
        | some t ↦ heap_alloc fuel (λ k. fresh (suc k)) size page_align t
      ])
