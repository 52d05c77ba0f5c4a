-- ===== src/KHeap/Release.antt =====
-- kernel/memory/kheap.c: `heap_free`.
use model_lib.Common.{
  ℕ, zero, suc, Bool, true, false, not, ◌&&◌, Option, none, some, if◌then◌else◌, ◌==◌, add32, sub32,
}
use model_lib.OrderedArray.{remove_ordered_array, lookup_ordered_array}
use model_lib.Paging.{Ptr}
use model_lib.KHeap.{
  Heap, heap_magic, header_size, footer_size, write_header, write_footer, insert_index,
}
use model_lib.KHeap.Grow.{contract}

-- One round of the loops of `heap_free` that look for an address in the index.
abbrev pub index_step : (p : Ptr) (iterator : ℕ) → Option Ptr → Option ℕ → Option ℕ
index_step p iterator none rest = none
index_step p iterator (some q) rest = if q == p then some iterator else rest

-- These loops, with `n` items left.
unfoldable pub index_of : (p : Ptr) (n iterator : ℕ) → Heap → Option ℕ
index_of p zero iterator h = none
index_of p (suc n) iterator h =
    index_step p iterator (lookup_ordered_array iterator h.index) (index_of p n (suc iterator) h)

-- `header`, `footer` and `do_add` in `heap_free`, with the heap.
pub record Freeing : Type 0 where
  pub header : Ptr
  pub footer : Ptr
  pub do_add : Bool
  pub heap : Heap

unfoldable pub unify_left : Freeing → Freeing
unify_left f =
    let h = f.heap in
    let test_footer = h.footers (sub32 f.header footer_size) in
    let left = test_footer.header in
    let a = write_footer h f.footer (record (h.footers f.footer) { header = left }) in
    let size = add32 (h.headers left).size (h.headers f.header).size in
    let b = write_header a left (record (h.headers left) { size = size }) in
    if (test_footer.magic == heap_magic) && ((h.headers left).is_hole == 1)
    then record { header = left; footer = f.footer; do_add = false; heap = b }
    else f

-- `test_header`
abbrev pub right_of : Freeing → Ptr
right_of f = add32 f.footer footer_size

-- The hole on the right taken out of the index, once it is found there.
abbrev pub joined : Freeing → (footer : Ptr) → Heap → Option ℕ → Option Freeing
joined f footer a none = none
joined f footer a (some i) =
    some (record f { footer = footer; heap = record a { index = remove_ordered_array i a.index } })

unfoldable pub unify_right : Freeing → Option Freeing
unfolding index_of
unify_right f =
    let h = f.heap in
    let right = right_of f in
    let size = add32 (h.headers f.header).size (h.headers right).size in
    let a = write_header h f.header (record (h.headers f.header) { size = size }) in
    let footer = sub32 (add32 right (a.headers right).size) footer_size in
    if ((h.headers right).magic == heap_magic) && not ((h.headers right).is_hole == 0)
    then joined f footer a (index_of right h.index.size 0 a)
    else some f

-- The end of a heap whose last block is free. `right` is `test_header`, which the code looks up
-- where it means to remove the block itself.
abbrev pub shrink : (right : Ptr) (old_length : ℕ) → Freeing → ℕ × Heap → Freeing
shrink right old_length f (new_length, h) =
    let gone = sub32 old_length new_length in
    let size = sub32 (h.headers f.header).size gone in
    let a = write_header h f.header (record (h.headers f.header) { size = size }) in
    let foot = sub32 (add32 f.header size) footer_size in
    if size == 0
    then (elim (index_of right h.index.size 0 h) [
      | none ↦ record f { heap = h }
      | some i ↦ record f { heap = record h { index = remove_ordered_array i h.index } }
    ])
    else record f {
      footer = foot;
      heap = write_footer a foot (record { magic = heap_magic; header = f.header });
    }

unfoldable pub contract_end : (right : Ptr) → Freeing → Option Freeing
unfolding index_of
contract_end right f =
    let h = f.heap in
    if add32 f.footer footer_size == h.end_address
    then elim (contract (sub32 f.header h.start_address) h) [
      | none ↦ none
      | some r ↦ some (shrink right (sub32 h.end_address h.start_address) f r)
    ]
    else some f

abbrev pub add_hole : Freeing → Heap
add_hole f = if f.do_add then insert_index f.heap f.header else f.heap

abbrev pub add_after : Option Freeing → Option Heap
add_after none = none
add_after (some g) = some (add_hole g)

abbrev pub finish : (right : Ptr) → Option Freeing → Option Heap
finish right none = none
finish right (some f) = add_after (contract_end right f)

-- The part of `heap_free` past its ASSERTs.
unfoldable pub release : Freeing → Option Heap
unfolding unify_left unify_right contract_end
release f = let l = unify_left f in finish (right_of l) (unify_right l)

-- The block with its header and its footer found.
unfoldable pub free_block : Heap → (header footer : Ptr) → Option Heap
free_block h header footer =
    let freed = write_header h header (record (h.headers header) { is_hole = 1 }) in
    if ((h.headers header).magic == heap_magic) && ((h.footers footer).magic == heap_magic)
    then release (record { header = header; footer = footer; do_add = true; heap = freed })
    else none

unfoldable pub heap_free : (p : Ptr) → Heap → Option Heap
unfolding release free_block
heap_free p h =
    let header = sub32 p header_size in
    if p == 0
    then some h
    else free_block h header (sub32 (add32 header (h.headers header).size) footer_size)
