-- ===== src/KHeap/Faults.antt =====
-- kernel/memory/kheap.c: where the code does not do what it means to.
use model_lib.Common.{
  ℕ, zero, suc, ◌+◌, ◌-◌, ◌%◌, ◌≤◌, ◌<◌, ◌≡◌, ◌≢◌, refl, sym, ap, ◌∙◌, inl, inr, true, false, none,
  some, arith, if◌then◌else◌, Bool-cases, ◌==◌, ltb, leb, add32, sub32, u32_mod, length, get_or,
  get_elem?-eq-get_or, List, ◌∷◌, ◌++◌,
}
use model_lib.OrderedArray.{lookup_ordered_array, remove_ordered_array}
use model_lib.Paging.{Ptr}
use model_lib.Paging.Pages.{map_page_unaligned}
use model_lib.KHeap.{Heap, heap_magic, write_header}
use model_lib.KHeap.Grow.{expand, map_from, rounds, round_up}
use model_lib.KHeap.Ops.{alloc_at}
use model_lib.KHeap.Release.{
  Freeing, unify_right, right_of, index_of, release, heap_free, finish, add_after, add_hole,
}
use model_lib.KHeap.Tiles.{Block, used, free, header_of, total, Tiles}
use model_lib.KHeap.Free.{
  left_hole, unify_left_none, contract_end_none, heap_free-release, freed_block, parts_of,
  before_end,
}

-- An aligned request, answered by `alloc_at`, which gives every address that `heap_alloc` returns,
-- gets a page boundary if the hole found does not start at one; if the hole starts at a page
-- boundary, the address returned is 12 bytes behind it.
pub alloc_at_aligned :
    (h : Heap) (size i pos : ℕ)
    → pos + 0x1000 < u32_mod
    → (alloc_at size true i pos h).0 % 0x1000 ≡ (if pos % 0x1000 == 0 then 12 else 0)
unfolding alloc_at
alloc_at_aligned h size i pos small = elim (Bool-cases (pos % 0x1000 == 0)) [
  | inl e ↦ let z : pos % 0x1000 ≡ 0 = ground (arith, e) in rw e (omega arith)
  | inr e ↦ let z : pos % 0x1000 ≢ 0 = ground (arith, e) in rw e (omega arith)
]

-- The first page that a growing heap maps, where the heap does not end at a page boundary.
map_from_unaligned :
    (h : Heap) (n i : ℕ) (fresh : ℕ → Ptr × ℕ)
    → 0 < n
    → add32 h.start_address i % 0x1000 ≢ 0
    → map_from n i fresh h ≡ none
unfolding map_from
map_from_unaligned h zero i fresh pos ne = absurd (omega arith)
map_from_unaligned h (suc n) i fresh pos ne =
    rw
      (map_page_unaligned h.vmm h.page_dir (add32 h.start_address i) h.supervisor true (fresh 0) ne)
      refl

-- Once a heap that starts at a page boundary does not end at one, `expand` panics whatever the size
-- asked for: it rounds sizes up only if they are odd, and the next call maps pages from its end.
pub expand_unaligned :
    (h : Heap) (new_size : ℕ) (fresh : ℕ → Ptr × ℕ)
    → h.start_address ≤ h.end_address
    → h.end_address < u32_mod
    → new_size + 0x1000 < u32_mod
    → h.end_address % 0x1000 ≢ 0
    → expand new_size fresh h ≡ none
unfolding expand
expand_unaligned h new_size fresh order small word ne =
    let old : sub32 h.end_address h.start_address ≡ h.end_address - h.start_address = omega arith in
    let end : add32 h.start_address (h.end_address - h.start_address) ≡ h.end_address =
      omega arith in
    elim (Bool-cases (ltb (h.end_address - h.start_address) new_size)) [
      | inr e ↦ rw (old, e) refl
      | inl e ↦
          let larger : h.end_address - h.start_address < new_size = ground (arith, e) in
          let up : new_size ≤ round_up new_size = ground arith in
          let stuck =
            map_from_unaligned h (rounds (h.end_address - h.start_address) (round_up new_size))
              (h.end_address - h.start_address) fresh (omega (arith, up)) (rw end ne) in
          elim (Bool-cases (leb (add32 h.start_address (round_up new_size)) h.max_address)) [
            | inl f ↦ rw (old, e, f, stuck) refl
            | inr f ↦ rw (old, e, f) refl
          ]
    ]

-- The two holes as one, with the item at `j` taken out of the index.
abbrev merged : Freeing → (m j : ℕ) → Freeing
merged f m j =
    let h = f.heap in
    let size = add32 (h.headers f.header).size m in
    let a = write_header h f.header (record (h.headers f.header) { size = size }) in
    record f {
      footer = sub32 (add32 (right_of f) m) 8;
      heap = record a { index = remove_ordered_array j a.index };
    }

-- The loops of `heap_free` find an address that stands in the index.
module _ (h : Heap) (p : Ptr) (room : h.index.size ≤ length h.index.array) where
  index_of-some :
      (n i k : ℕ)
      → i + n ≤ h.index.size
      → i ≤ k
      → k < i + n
      → get_or h.index.array k 0 ≡ p
      → (j : ℕ) × (index_of p n i h ≡ some j)
  unfolding index_of lookup_ordered_array
  index_of-some zero i k below from to e = absurd (omega arith)
  index_of-some (suc n) i k below from to e =
      let inside : ltb i h.index.size ≡ true = ground arith in
      let read = get_elem?-eq-get_or h.index.array i 0 (omega arith) in
      elim (Bool-cases (get_or h.index.array i 0 == p)) [
        | inl f ↦ (i, rw (inside, read, f) refl)
        | inr f ↦
            let later : suc i ≤ k = after i k from f e in
            let r = index_of-some n (suc i) k (omega arith) later (omega arith) e in
            (r.0, rw (inside, read, f) r.1)
      ]
    where
      after :
          (i k : ℕ)
          → i ≤ k
          → (get_or h.index.array i 0 == p) ≡ false
          → get_or h.index.array k 0 ≡ p
          → suc i ≤ k
      after i k from f e = elim (Bool-cases (i == k)) [
        | inl q ↦
            let s : i ≡ k = ground (arith, q) in
            absurd (ground (arith, f, ap (λ m. get_or h.index.array m 0) s ∙ e))
        | inr q ↦ ground (arith, q, from)
      ]

-- `heap_free`'s union with a hole on the right that stands in the index.
unify_right_merges :
    (f : Freeing) (m k : ℕ)
    → f.heap.headers (right_of f) ≡ header_of (free m)
    → f.header ≢ right_of f
    → f.heap.index.size ≤ length f.heap.index.array
    → k < f.heap.index.size
    → get_or f.heap.index.array k 0 ≡ right_of f
    → (j : ℕ) × (unify_right f ≡ some (merged f m j))
unfolding unify_right
unify_right_merges f m k hd apart room below at =
    let h = f.heap in
    let size = add32 (h.headers f.header).size m in
    let a = write_header h f.header (record (h.headers f.header) { size = size }) in
    let kept : (right_of f == f.header) ≡ false = ground arith in
    let found =
      index_of-some a (right_of f) room h.index.size 0 k (omega arith) (omega arith) (omega arith)
        at in
    (found.0, rw (hd, kept, found.1) refl)

release-merged :
    (f : Freeing) (m j : ℕ)
    → left_hole f.heap f.header ≡ false
    → unify_right f ≡ some (merged f m j)
    → (right_of (merged f m j) == f.heap.end_address) ≡ false
    → release f ≡ some (add_hole (merged f m j))
unfolding release
release-merged f m j left united inner =
    ap (λ (l : Freeing). finish (right_of l) (unify_right l)) (unify_left_none f left)
    ∙ ap (finish (right_of f)) united
    ∙ ap add_after (contract_end_none (right_of f) (merged f m j) inner)

module _ (h : Heap) (start end : ℕ) (xs ys : List Block) (n m : ℕ)
    (t : Tiles h.headers start (xs ++ used n ∷ free m ∷ ys) end) (small : end < u32_mod) where
  abbrev pub at : ℕ
  at = start + total xs

  -- In a heap tiled by blocks and holes, with the footers of a block and of the hole on its right
  -- in place, this hole in the index, no hole on the left, and more of the heap behind: `heap_free`
  -- of the block ends with one hole of both sizes, whose header stands where that of the block
  -- stood. The footer at the end of this hole still names the header of the right part.
  pub heap_free_stale :
      (k : ℕ)
      → 0 < start
      → (h.footers (at + n - 8)).magic ≡ heap_magic
      → h.footers (at + n + m - 8) ≡ record { magic = heap_magic; header = at + n }
      → left_hole (write_header h at (header_of (free n))) at ≡ false
      → h.index.size ≤ length h.index.array
      → k < h.index.size
      → get_or h.index.array k 0 ≡ at + n
      → at + n + m ≢ h.end_address
      → (r : Heap) × (heap_free (at + 12) h ≡ some r)
        × (r.headers at ≡ header_of (free (n + m)))
        × ((r.footers (at + n + m - 8)).header ≡ at + n)
  heap_free_stale k pos foot right_foot left room below named inner =
      let w = parts_of h start end xs (free m ∷ ys) n t small in
      let large = w.1.1 in
      let wide = w.1.2.1 in
      let sum = before_end h start end xs (free m ∷ ys) n t small in
      let f = freed_block h start end xs (free m ∷ ys) n t small in
      let d : add32 (at + n - 8) 8 ≡ at + n = omega arith in
      let apart : (at + n == at) ≡ false = ground arith in
      let self : (at == at) ≡ true = ground arith in
      let right_head : f.heap.headers (right_of f) ≡ header_of (free m) =
        ap f.heap.headers d ∙ rw apart w.1.2.0 in
      let united =
        unify_right_merges f m k right_head (λ e. absurd (omega (arith, d, e))) room below
          (named ∙ sym d) in
      let last : right_of (merged f m united.0) ≡ at + n + m = omega (arith, d) in
      let more : (right_of (merged f m united.0) == h.end_address) ≡ false =
        ground (arith, last, inner) in
      let sizes : add32 n m ≡ n + m = omega arith in
      (
        add_hole (merged f m united.0),
        heap_free-release h start end xs (free m ∷ ys) n t small pos foot
            ∙ release-merged f m united.0 left united.1 more,
        rw self (ap (λ s. header_of (free s)) sizes),
        ap (λ x. x.header) right_foot,
      )
