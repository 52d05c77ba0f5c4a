-- ===== src/KHeap/Free.antt =====
-- kernel/memory/kheap.c: `heap_free` of a block that lies between blocks in use.
use model_lib.Common.{
  ℕ, ◌+◌, ◌-◌, ◌<◌, ◌≡◌, ◌≢◌, refl, ap, ◌∙◌, Bool, true, false, not, ◌&&◌, some, List, ◌∷◌, ◌++◌,
  arith, ◌==◌, add32, sub32, u32_mod,
}
use model_lib.Paging.{Ptr, put_in}
use model_lib.KHeap.{Header, Heap, heap_magic, insert_index, write_header}
use model_lib.KHeap.Release.{
  Freeing, finish, release, free_block, heap_free, unify_left, unify_right, contract_end, right_of,
  add_hole, add_after,
}
use model_lib.KHeap.Tiles.{
  Block, used, free, header_of, total, Tiles, Tiles-total, Tiles-split, Tiles-join, put_in-Tiles,
}

-- The tests for a hole to the left of a header and to the right of a footer.
abbrev pub left_hole : Heap → Ptr → Bool
left_hole h header =
    let f = h.footers (sub32 header 8) in
    (f.magic == heap_magic) && ((h.headers f.header).is_hole == 1)

abbrev pub right_hole : Heap → Ptr → Bool
right_hole h right = ((h.headers right).magic == heap_magic) && not ((h.headers right).is_hole == 0)

-- A freed block that nothing is merged with.
abbrev alone : Heap → (pos n : ℕ) → Freeing
alone h pos n = record {
  header = pos;
  footer = pos + n - 8;
  do_add = true;
  heap = write_header h pos (record (h.headers pos) { is_hole = 1 });
}

pub unify_left_none : (f : Freeing) → left_hole f.heap f.header ≡ false → unify_left f ≡ f
unfolding unify_left
unify_left_none f e = rw e refl

unify_right_none : (f : Freeing) → right_hole f.heap (right_of f) ≡ false → unify_right f ≡ some f
unfolding unify_right
unify_right_none f e = rw e refl

pub contract_end_none :
    (right : Ptr) (f : Freeing)
    → (right_of f == f.heap.end_address) ≡ false
    → contract_end right f ≡ some f
unfolding contract_end
contract_end_none right f e = rw e refl

release_alone :
    (f : Freeing)
    → left_hole f.heap f.header ≡ false
    → right_hole f.heap (right_of f) ≡ false
    → (right_of f == f.heap.end_address) ≡ false
    → release f ≡ some (add_hole f)
unfolding release
release_alone f left right inner =
    ap (λ (l : Freeing). finish (right_of l) (unify_right l)) (unify_left_none f left)
    ∙ ap (finish (right_of f)) (unify_right_none f right)
    ∙ ap add_after (contract_end_none (right_of f) f inner)

-- What `heap_free` does with a block of `n` bytes at `pos` that has `xs` before it and `ys` behind.
pub record Frees (h : Heap) (start end : ℕ) (xs ys : List Block) (n pos : ℕ) (t : Heap)
    : Type 0 where
  pub tiles : Tiles t.headers start (xs ++ free n ∷ ys) end
  pub index : t.index ≡ (insert_index (write_header h pos (header_of (free n))) pos).index
  pub footers : t.footers ≡ h.footers

module _ (h : Heap) (start end : ℕ) (xs ys : List Block) (n : ℕ)
    (t : Tiles h.headers start (xs ++ used n ∷ ys) end) (small : end < u32_mod) where
  abbrev pub at_block : ℕ
  at_block = start + total xs

  pub parts_of : Tiles h.headers start xs at_block × Tiles h.headers at_block (used n ∷ ys) end
  parts_of = Tiles-split h.headers start xs (used n ∷ ys) end t

  pub before_end : at_block + n + total ys ≡ end
  before_end = Tiles-total h.headers (at_block + n) ys end parts_of.1.2

  freed-Tiles : Tiles (put_in h.headers at_block (header_of (free n))) start (xs ++ free n ∷ ys) end
  freed-Tiles =
      let w = parts_of in
      let sum = before_end in
      let x = header_of (free n) in
      Tiles-join (put_in h.headers at_block x) start at_block xs (free n ∷ ys) end
        (put_in-Tiles h.headers at_block x start xs at_block (λ q l m. omega arith) w.0)
        (
          ground arith,
          w.1.1,
          put_in-Tiles h.headers at_block x (at_block + n) ys end (λ q l m. omega arith) w.1.2,
        )

  abbrev p : Ptr
  p = at_block + 12

  heap_free-free_block :
      (p == 0) ≡ false
      → heap_free p h
        ≡ free_block h (sub32 p 12) (sub32 (add32 (sub32 p 12) (h.headers (sub32 p 12)).size) 8)
  unfolding heap_free
  heap_free-free_block z = rw z refl

  to_block :
      sub32 p 12 ≡ at_block
      → add32 at_block n ≡ at_block + n
      → sub32 (at_block + n) 8 ≡ at_block + n - 8
      → h.headers at_block ≡ header_of (used n)
      → free_block h (sub32 p 12) (sub32 (add32 (sub32 p 12) (h.headers (sub32 p 12)).size) 8)
        ≡ free_block h at_block (at_block + n - 8)
  to_block a b c hd =
      ap (λ q. free_block h q (sub32 (add32 q (h.headers q).size) 8)) a
      ∙ ap (λ (x : Header). free_block h at_block (sub32 (add32 at_block x.size) 8)) hd
      ∙ ap (λ s. free_block h at_block (sub32 s 8)) b
      ∙ ap (free_block h at_block) c

  checked :
      h.headers at_block ≡ header_of (used n)
      → ((h.footers (at_block + n - 8)).magic == heap_magic) ≡ true
      → free_block h at_block (at_block + n - 8)
        ≡ release (record {
          header = at_block;
          footer = at_block + n - 8;
          do_add = true;
          heap = write_header h at_block (header_of (free n));
        })
  unfolding free_block
  checked hd m = rw (hd, m) refl

  -- Past the ASSERTs, with the block marked as a hole.
  abbrev pub freed_block : Freeing
  freed_block = record {
    header = at_block;
    footer = at_block + n - 8;
    do_add = true;
    heap = write_header h at_block (header_of (free n));
  }

  pub heap_free-release :
      0 < start
      → (h.footers (at_block + n - 8)).magic ≡ heap_magic
      → heap_free (at_block + 12) h ≡ release freed_block
  heap_free-release pos foot =
      let w = parts_of in
      let sum = before_end in
      let hd : h.headers at_block ≡ header_of (used n) = w.1.0 in
      let large = w.1.1 in
      let a : sub32 (at_block + 12) 12 ≡ at_block = omega arith in
      let b : add32 at_block n ≡ at_block + n = omega arith in
      let c : sub32 (at_block + n) 8 ≡ at_block + n - 8 = omega arith in
      let z : (at_block + 12 == 0) ≡ false = ground arith in
      let m : ((h.footers (at_block + n - 8)).magic == heap_magic) ≡ true = ground arith in
      heap_free-free_block z ∙ to_block a b c hd ∙ checked hd m

  -- In a heap tiled by blocks and holes, with a footer of the block in place, no hole on its left or
  -- right, and more of the heap behind it: `heap_free` ends, the block is a hole, all other blocks
  -- and holes and all footers stay, and the hole goes into the index.
  pub heap_free-Frees :
      0 < start
      → (h.footers (at_block + n - 8)).magic ≡ heap_magic
      → left_hole (write_header h at_block (header_of (free n))) at_block ≡ false
      → right_hole (write_header h at_block (header_of (free n))) (at_block + n) ≡ false
      → at_block + n ≢ h.end_address
      → (r : Heap) × (heap_free (at_block + 12) h ≡ some r) × Frees h start end xs ys n at_block r
  heap_free-Frees pos foot left right inner =
      let w = parts_of in
      let sum = before_end in
      let large = w.1.1 in
      let d : add32 (at_block + n - 8) 8 ≡ at_block + n = omega arith in
      let e : (add32 (at_block + n - 8) 8 == h.end_address) ≡ false = ground (arith, d, inner) in
      (
        insert_index freed_block.heap at_block,
        heap_free-release pos foot ∙ release_alone freed_block left (rw d right) e,
        record { tiles = freed-Tiles; index = refl; footers = refl },
      )
