-- ===== src/KHeap/Fits.antt =====
-- kernel/memory/kheap.c: which hole `find_smallest_hole` finds, and what `heap_alloc` does with it.
use mathlib.Core.Path.{subst}
use model_lib.Common.{
  ℕ, zero, suc, ◌+◌, ◌≤◌, ◌<◌, ◌≡◌, ◌⊎◌, refl, ap, ◌∙◌, inl, inr, Bool, true, false, Option, none,
  some, List, ◌∷◌, ◌++◌, arith, Bool-cases, ltb, add32, u32_mod, length, get_or,
  get_elem?-eq-get_or,
}
use model_lib.OrderedArray.{lookup_ordered_array}
use model_lib.Paging.{Ptr}
use model_lib.KHeap.{Heap, hole_fits, find_from, find_smallest_hole}
use model_lib.KHeap.Ops.{heap_alloc, alloc_at, alloc_from, alloc_found}
use model_lib.KHeap.Tiles.{Block, free, total, Tiles, Tiles-split}
use model_lib.KHeap.Split.{Splits, alloc_at-Splits}

-- The hole at a place of the index, and its size.
abbrev pub hole_at : Heap → ℕ → Ptr
hole_at h k = get_or h.index.array k 0

abbrev pub size_at : Heap → ℕ → ℕ
size_at h k = (h.headers (hole_at h k)).size

abbrev NoneFits : Heap → (size : ℕ) → Bool → (i n : ℕ) → Type 0
NoneFits h size al i n = (j : ℕ) → i ≤ j → j < i + n → hole_fits h size al (hole_at h j) ≡ false

-- Where the search of the `n` items from `i` on ends.
abbrev Finds : Heap → (size : ℕ) → Bool → (i n : ℕ) → Option (Option ℕ) → Type 0
Finds h size al i n o =
    ((k : ℕ) × (i ≤ k)
      × (k < i + n)
      × (hole_fits h size al (hole_at h k) ≡ true)
      × ((j : ℕ) → i ≤ j → j < k → hole_fits h size al (hole_at h j) ≡ false)
      × (o ≡ some (some k)))
    ⊎ (NoneFits h size al i n × (o ≡ some none))

lookup-some :
    (h : Heap) (k : ℕ)
    → k < h.index.size
    → h.index.size ≤ length h.index.array
    → lookup_ordered_array k h.index ≡ some (hole_at h k)
unfolding lookup_ordered_array
lookup-some h k below room =
    let test : ltb k h.index.size ≡ true = ground arith in
    rw test (get_elem?-eq-get_or h.index.array k 0 (omega arith))

first-or-later : (i j : ℕ) → i ≤ j → (j ≡ i) ⊎ (suc i ≤ j)
first-or-later i j l = ground arith

step :
    (h : Heap) (size : ℕ) (al : Bool) (i : ℕ)
    → hole_fits h size al (hole_at h i) ≡ false
    → (j : ℕ) → i ≤ j
    → (suc i ≤ j → hole_fits h size al (hole_at h j) ≡ false)
    → hole_fits h size al (hole_at h j) ≡ false
step h size al i e j l later = elim (first-or-later i j l) [
  | inl q ↦ ap (λ k. hole_fits h size al (hole_at h k)) q ∙ e
  | inr q ↦ later q
]

find_from-Finds :
    (h : Heap) (size : ℕ) (al : Bool) (n i : ℕ)
    → i + n ≤ h.index.size
    → h.index.size ≤ length h.index.array
    → Finds h size al i n (find_from h size al n i)
unfolding find_from
find_from-Finds h size al zero i below room = inr (λ j l m. absurd (omega arith), refl)
find_from-Finds h size al (suc n) i below room =
    let at = lookup-some h i (omega arith) room in
    elim (Bool-cases (hole_fits h size al (hole_at h i))) [
      | inl e ↦ inl (i, omega arith, omega arith, e, λ j l m. absurd (omega arith), rw (at, e) refl)
      | inr e ↦ elim (find_from-Finds h size al n (suc i) (omega arith) room) [
        | inl r ↦ inl (
          r.0,
          (let low = r.1 in omega arith),
          (let high = r.2 in omega arith),
          r.3,
          λ j l m. step h size al i e j l (λ q. r.4 j q m),
          rw (at, e) r.5,
        )
        | inr r ↦ inr (λ j l m. step h size al i e j l (λ q. r.0 j q (omega arith)), rw (at, e) r.1)
      ]
    ]

-- The index is sorted by the sizes of its holes.
abbrev pub BySize : Heap → Type 0
BySize h = (j k : ℕ) → j ≤ k → k < h.index.size → size_at h j ≤ size_at h k

-- The smallest hole of at least `size` bytes, if there is one.
abbrev pub Smallest : Heap → (size : ℕ) → Option (Option ℕ) → Type 0
Smallest h size o =
    ((k : ℕ) × (o ≡ some (some k))
      × (k < h.index.size)
      × (size ≤ size_at h k)
      × ((j : ℕ) → j < h.index.size → size ≤ size_at h j → size_at h k ≤ size_at h j))
    ⊎ ((o ≡ some none) × ((j : ℕ) → j < h.index.size → size_at h j < size))

find-Finds :
    (h : Heap) (size : ℕ)
    → h.index.size ≤ length h.index.array
    → Finds h size false 0 h.index.size (find_smallest_hole h size false)
unfolding find_smallest_hole
find-Finds h size room = find_from-Finds h size false h.index.size 0 (omega arith) room

-- With the index within its storage and sorted by size, `find_smallest_hole` without alignment finds
-- a hole of the least size that is large enough, and reports that there is none exactly if no hole is
-- large enough.
pub find_smallest_hole-Smallest :
    (h : Heap) (size : ℕ)
    → h.index.size ≤ length h.index.array
    → BySize h
    → Smallest h size (find_smallest_hole h size false)
find_smallest_hole-Smallest h size room sorted = elim (find-Finds h size room) [
  | inr r ↦ inr (r.1, λ j m. let t = r.0 j (omega arith) (omega arith) in ground (arith, t))
  | inl r ↦
      let here = r.2 in
      let before = λ (j : ℕ) (m : size ≤ size_at h j) (l : j < r.0).
        let t = r.4 j (omega arith) l in let n : ⊥ = absurd (ground (arith, t, m)) in n in
      let fits = r.3 in
      inl (
        r.0,
        r.5,
        omega arith,
        ground (arith, fits),
        λ j m e. sorted r.0 j (not_less j r.0 (before j e)) m,
      )
]
  where
    not_less : (j k : ℕ) → (j < k → ⊥) → k ≤ j
    not_less j k f = ground (arith, f)

-- A heap tiled by `blocks`, whose index holds addresses of holes.
pub record IsHeap (h : Heap) (start : ℕ) (blocks : List Block) (end : ℕ) : Type 0 where
  pub tiles : Tiles h.headers start blocks end
  pub small : end < u32_mod
  pub room : h.index.size ≤ length h.index.array
  pub holes :
      (k : ℕ)
      → k < h.index.size
      → (xs : List Block) × (n : ℕ) × (ys : List Block) × (blocks ≡ xs ++ free n ∷ ys)
        × (hole_at h k ≡ start + total xs)

-- What a call of `heap_alloc` without alignment does that finds a hole.
pub record Allocates (h : Heap) (start : ℕ) (blocks : List Block) (end size : ℕ) (r : Ptr × Heap)
    : Type 0 where
  pub xs : List Block
  pub n : ℕ
  pub ys : List Block
  pub hole : blocks ≡ xs ++ free n ∷ ys
  pub fits : size + 20 ≤ n
  pub splits : Splits h start end xs ys size n (start + total xs) r

found-alloc :
    (h : Heap) (size k pos : ℕ)
    → add32 size 20 ≡ size + 20
    → find_smallest_hole h (size + 20) false ≡ some (some k)
    → lookup_ordered_array k h.index ≡ some pos
    → (grown : Option (Ptr × Heap))
    → alloc_found size false h (find_smallest_hole h (add32 size 20) false) grown
      ≡ some (alloc_at size false k pos h)
found-alloc h size k pos sum found read grown =
    ap (λ m. alloc_found size false h (find_smallest_hole h m false) grown) sum
    ∙ ap (λ o. alloc_found size false h o grown) found
    ∙ ap (alloc_from size false k h) read

module _ (h : Heap) (start : ℕ) (blocks : List Block) (end : ℕ)
    (v : IsHeap h start blocks end) where
  found-Allocates :
      (fuel : ℕ) (fresh : ℕ → ℕ → Ptr × ℕ) (size k : ℕ)
      → add32 size 20 ≡ size + 20
      → find_smallest_hole h (size + 20) false ≡ some (some k)
      → k < h.index.size
      → size + 20 ≤ size_at h k
      → (r : Ptr × Heap) × (heap_alloc (suc fuel) fresh size false h ≡ some r)
        × Allocates h start blocks end size r
  unfolding heap_alloc
  found-Allocates fuel fresh size k sum found below large =
      let c = v.holes k below in
      let xs = c.0 in
      let n = c.1 in
      let ys = c.2 in
      let t = subst (λ bs. Tiles h.headers start bs end) c.3 v.tiles in
      let at_hole = (Tiles-split h.headers start xs (free n ∷ ys) end t).1.0 in
      let n_eq : size_at h k ≡ n = ap (λ p. (h.headers p).size) c.4 ∙ ap (λ x. x.size) at_hole in
      let fits : size + 20 ≤ n = omega (arith, large, n_eq) in
      let read = lookup-some h k below v.room ∙ ap some c.4 in
      (
        alloc_at size false k (start + total xs) h,
        found-alloc h size k (start + total xs) sum found read _,
        record {
          xs = xs;
          n = n;
          ys = ys;
          hole = c.3;
          fits = fits;
          splits = alloc_at-Splits h start end xs ys size n k t v.small fits;
        },
      )

  -- In a heap tiled by blocks and holes, with the index naming holes only and one of them large
  -- enough, `heap_alloc` without alignment ends and returns a block of its own: the address behind
  -- a header at a hole, which becomes the block, or the block and a smaller hole, with all other
  -- blocks and holes as they were.
  pub heap_alloc-Allocates :
      (fuel : ℕ) (fresh : ℕ → ℕ → Ptr × ℕ) (size j : ℕ)
      → size + 20 < u32_mod
      → j < h.index.size
      → size + 20 ≤ size_at h j
      → (r : Ptr × Heap) × (heap_alloc (suc fuel) fresh size false h ≡ some r)
        × Allocates h start blocks end size r
  heap_alloc-Allocates fuel fresh size j word below large =
      let sum : add32 size 20 ≡ size + 20 = omega arith in
      elim (find-Finds h (size + 20) v.room) [
        | inr r ↦ let t = r.0 j (omega arith) (omega arith) in absurd (ground (arith, t, large))
        | inl r ↦
            let fits = r.3 in
            let high = r.2 in
            found-Allocates fuel fresh size r.0 sum r.5 (omega arith) (ground (arith, fits))
      ]
