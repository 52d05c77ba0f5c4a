-- ===== src/KHeap/Split.antt =====
-- kernel/memory/kheap.c: `heap_alloc` out of a hole takes the hole or splits it.
use mathlib.Core.Path.{subst}
use model_lib.Common.{
  ℕ, ◌+◌, ◌-◌, ◌≤◌, ◌<◌, ◌≡◌, ◌≢◌, refl, sym, ap, inl, inr, true, false, List, [], ◌∷◌, ◌++◌, arith,
  if◌then◌else◌, Bool-cases, ◌==◌, ltb, add32, sub32, u32_mod,
}
use model_lib.OrderedArray.{remove_ordered_array}
use model_lib.Paging.{Ptr, put_in}
use model_lib.KHeap.{Heap, heap_magic, insert_index, write_header, write_footer}
use model_lib.KHeap.Ops.{alloc_at, write_block}
use model_lib.KHeap.Tiles.{
  Block, used, free, header_of, total, Tiles, Tiles-total, Tiles-split, Tiles-join, put_in-Tiles,
}

-- What becomes of a hole of `n` bytes when `size` bytes are asked for.
unfoldable pub parts : (size n : ℕ) → List Block
parts size n =
    if ltb (n - (size + 20)) 20 then used n ∷ [] else used (size + 20) ∷ free (n - (size + 20)) ∷ []

-- The block's own size.
abbrev pub block_size : (size n : ℕ) → ℕ
block_size size n = if ltb (n - (size + 20)) 20 then n else size + 20

module _ (h : Heap) (size n pos i : ℕ) where
  abbrev without_hole : Heap
  without_hole = record h { index = remove_ordered_array i h.index }

  -- The heap with the hole split, and the rest back in the index.
  abbrev split_off : Heap
  split_off =
      let b = write_block pos size (size + 20) without_hole in
      let hole = pos + (size + 20) in
      let foot = pos + n - 8 in
      let a =
        write_header b hole (record { magic = heap_magic; is_hole = 1; size = n - (size + 20) }) in
      let c =
        if ltb foot h.end_address
        then write_footer a foot (record { magic = heap_magic; header = hole })
        else a in
      insert_index c hole

  split_off-headers :
      split_off.headers
      ≡ put_in
          (put_in h.headers pos (header_of (used (size + 20))))
          (pos + (size + 20))
          (header_of (free (n - (size + 20))))
  split_off-headers = elim (Bool-cases (ltb (pos + n - 8) h.end_address)) [
    | inl e ↦ rw e refl
    | inr e ↦ rw e refl
  ]

module _ (h : Heap) (size n pos i : ℕ) (at : (h.headers pos).size ≡ n) (fits : size + 20 ≤ n)
    (small : pos + n < u32_mod) where
  new_eq : add32 size 20 ≡ size + 20
  new_eq = omega arith

  rest_eq : sub32 n (size + 20) ≡ n - (size + 20)
  rest_eq = omega arith

  -- The whole hole is taken.
  alloc_at_whole :
      n - (size + 20) < 20
      → alloc_at size false i pos h
        ≡ (pos + 12, write_block pos (n - 20) n (without_hole h size n pos i))
  unfolding alloc_at
  alloc_at_whole tight =
      let test : ltb (n - (size + 20)) 20 ≡ true = ground arith in
      let filled : add32 size (n - (size + 20)) ≡ n - 20 = omega arith in
      let none_left : sub32 n n ≡ 0 = omega arith in
      let p : add32 pos 12 ≡ pos + 12 = omega arith in
      rw (at, new_eq, rest_eq, test, filled, none_left, p) refl

  alloc_at_split :
      20 ≤ n - (size + 20) → alloc_at size false i pos h ≡ (pos + 12, split_off h size n pos i)
  unfolding alloc_at
  alloc_at_split wide =
      let test : ltb (n - (size + 20)) 20 ≡ false = ground arith in
      let p : add32 pos 12 ≡ pos + 12 = omega arith in
      let q : add32 (pos + 12) size ≡ pos + 12 + size = omega arith in
      let r : add32 (pos + 12 + size) 8 ≡ pos + (size + 20) = omega arith in
      let s : add32 (pos + (size + 20)) (n - (size + 20)) ≡ pos + n = omega arith in
      let f : sub32 (pos + n) 8 ≡ pos + n - 8 = omega arith in
      let some_left : (n - (size + 20) == 0) ≡ false = ground arith in
      rw (at, new_eq, rest_eq, test, rest_eq, p, q, r, s, f, some_left) refl

-- What `heap_alloc` makes of a hole of `n` bytes at `pos` with `xs` before it and `ys` behind.
pub record Splits (h : Heap) (start end : ℕ) (xs ys : List Block) (size n pos : ℕ) (r : Ptr × Heap)
    : Type 0 where
  pub address : r.0 ≡ pos + 12
  pub tiles : Tiles r.1.headers start (xs ++ (parts size n ++ ys)) end
  pub footer :
      r.1.footers (pos + block_size size n - 8) ≡ record { magic = heap_magic; header = pos }

module _ (h : Heap) (start end : ℕ) (xs ys : List Block) (size n i : ℕ)
    (t : Tiles h.headers start (xs ++ free n ∷ ys) end) (small : end < u32_mod)
    (fits : size + 20 ≤ n) where
  abbrev at_hole : ℕ
  at_hole = start + total xs

  whole : Tiles h.headers start xs at_hole × Tiles h.headers at_hole (free n ∷ ys) end
  whole = Tiles-split h.headers start xs (free n ∷ ys) end t

  before_end : at_hole + n + total ys ≡ end
  before_end = Tiles-total h.headers (at_hole + n) ys end whole.1.2

  hole_size : (h.headers at_hole).size ≡ n
  hole_size = ap (λ x. x.size) whole.1.0

  used-Tiles : Tiles (put_in h.headers at_hole (header_of (used n))) start (xs ++ used n ∷ ys) end
  used-Tiles =
      let w = whole in
      let sum = before_end in
      let hs = put_in h.headers at_hole (header_of (used n)) in
      Tiles-join hs start at_hole xs (used n ∷ ys) end
        (put_in-Tiles h.headers at_hole (header_of (used n)) start xs at_hole (λ q l m. omega arith)
          w.0)
        (
          ground arith,
          w.1.1,
          put_in-Tiles h.headers at_hole (header_of (used n)) (at_hole + n) ys end
              (λ q l m. omega arith) w.1.2,
        )

  split-Tiles :
      20 ≤ n - (size + 20)
      → Tiles
          (put_in
            (put_in h.headers at_hole (header_of (used (size + 20))))
            (at_hole + (size + 20))
            (header_of (free (n - (size + 20)))))
          start
          (xs ++ used (size + 20) ∷ free (n - (size + 20)) ∷ ys)
          end
  split-Tiles wide =
      let w = whole in
      let sum = before_end in
      let rest = at_hole + (size + 20) in
      let a = header_of (used (size + 20)) in
      let b = header_of (free (n - (size + 20))) in
      let hs = put_in h.headers at_hole a in
      let next : rest + (n - (size + 20)) ≡ at_hole + n = omega arith in
      let far =
        λ (m : ℕ) (zs : List Block) (e : ℕ)
            (out : (q : ℕ) → m ≤ q → q < e → (q ≢ at_hole) × (q ≢ rest))
            (u : Tiles h.headers m zs e).
          put_in-Tiles hs rest b m zs e (λ q l k. (out q l k).1)
            (put_in-Tiles h.headers at_hole a m zs e (λ q l k. (out q l k).0) u) in
      Tiles-join (put_in hs rest b) start at_hole xs
        (used (size + 20) ∷ free (n - (size + 20)) ∷ ys) end
        (far start xs at_hole (λ q l m. (omega arith, omega arith)) w.0)
        (
          ground arith,
          omega arith,
          (
            ground arith,
            wide,
            subst (λ m. Tiles (put_in hs rest b) m ys end) (sym next)
                (far (at_hole + n) ys end (λ q l m. (omega arith, omega arith)) w.1.2),
          ),
        )

  whole_footer :
      n - (size + 20) < 20
      → (write_block at_hole (n - 20) n (without_hole h size n at_hole i)).footers (at_hole + n - 8)
        ≡ record { magic = heap_magic; header = at_hole }
  whole_footer tight =
      let sum = before_end in
      let place : add32 (add32 at_hole 12) (n - 20) ≡ at_hole + n - 8 = omega arith in
      rw place (ground arith)

  split_footer :
      20 ≤ n - (size + 20)
      → (split_off h size n at_hole i).footers (at_hole + (size + 20) - 8)
        ≡ record { magic = heap_magic; header = at_hole }
  split_footer wide =
      let sum = before_end in
      let place : add32 (add32 at_hole 12) size ≡ at_hole + (size + 20) - 8 = omega arith in
      let apart : at_hole + (size + 20) - 8 ≢ at_hole + n - 8 = omega arith in
      rw place (ground arith)

  -- `heap_alloc` that found a hole large enough, in a heap tiled by blocks, without alignment: it
  -- returns the address behind the block's header, and the blocks and holes tile the heap again, the
  -- hole being replaced by the block alone, or by the block and the hole that is left. The block's
  -- footer points to its header.
  pub alloc_at-Splits : Splits h start end xs ys size n at_hole (alloc_at size false i at_hole h)
  unfolding parts
  alloc_at-Splits =
      let sum = before_end in
      elim (Bool-cases (ltb (n - (size + 20)) 20)) [
        | inl e ↦
            let tight : n - (size + 20) < 20 = ground (arith, e) in
            let r = alloc_at_whole h size n at_hole i hole_size fits (omega arith) tight in
            subst (Splits h start end xs ys size n at_hole) (sym r) (record {
              address = refl;
              tiles = rw e used-Tiles;
              footer = rw e (whole_footer tight);
            })
        | inr e ↦
            let wide : 20 ≤ n - (size + 20) = ground (arith, e) in
            let r = alloc_at_split h size n at_hole i hole_size fits (omega arith) wide in
            subst (Splits h start end xs ys size n at_hole) (sym r) (record {
              address = refl;
              tiles = rw e (
                  subst
                    (λ hs.
                      Tiles hs start (xs ++ used (size + 20) ∷ free (n - (size + 20)) ∷ ys) end)
                    (sym (split_off-headers h size n at_hole i)) (split-Tiles wide));
              footer = rw e (split_footer wide);
            })
      ]
