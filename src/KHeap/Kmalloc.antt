-- ===== src/KHeap/Kmalloc.antt =====
-- kernel/memory/kheap.c: the functions of kernel/memory/kmalloc.h.
use model_lib.Common.{
  ℕ, ◌-◌, ◌%◌, Bool, not, ◌&&◌, Option, none, some, if◌then◌else◌, ◌==◌, leb, add32,
}
use model_lib.Paging.{Ptr, get_phys_addr}
use model_lib.KHeap.{Heap}
use model_lib.KHeap.Ops.{heap_alloc}
use model_lib.KHeap.Release.{heap_free}

-- The static variables of the file: the heap, once there is one, and the address up to which memory
-- was given out before.
pub record Kmem : Type 0 where
  pub kheap : Option Heap
  pub placement_address : ℕ

abbrev pub aligned_placement : ℕ → (align : Bool) → ℕ
aligned_placement a align =
    if align && not (a % 0x1000 == 0) then add32 (a - a % 0x1000) 0x1000 else a

-- The address, and the physical address that is stored in `*phys`.
unfoldable pub kmalloc_int :
    (fuel : ℕ)
    → (fresh : ℕ → ℕ → Ptr × ℕ) → (sz : ℕ) → (align : Bool) → Kmem
    → Option ((ℕ × ℕ) × Kmem)
unfolding heap_alloc
kmalloc_int fuel fresh sz align k =
    let at = aligned_placement k.placement_address align in
    elim k.kheap [
      | none ↦ some ((at, at), record k { placement_address = add32 at sz })
      | some h ↦ elim (heap_alloc fuel fresh sz align h) [
        | none ↦ none
        | some (p, t) ↦
            some ((p, get_phys_addr t.vmm t.vmm.kpage_dir p), record k { kheap = some t })
      ]
    ]

-- With no heap yet, `heap_free` of an address above the placement would follow NULL.
unfoldable pub kfree : Ptr → Kmem → Option Kmem
unfolding heap_free
kfree p k = if leb p k.placement_address then some k else elim k.kheap [
  | none ↦ none
  | some h ↦ elim (heap_free p h) [ none ↦ none | some t ↦ some (record k { kheap = some t }) ]
]
