-- ===== src/KHeap/Tiles.antt =====
-- The blocks and holes of kernel/memory/kheap.c as a list that tiles the heap.
use model_lib.Common.{ℕ, ◌+◌, ◌≤◌, ◌<◌, ◌≡◌, ◌≢◌, sym, ◌∙◌, List, [], ◌∷◌, ◌++◌, arith}
use mathlib.Core.Path.{subst}
use model_lib.Paging.{Ptr, put_in}
use model_lib.KHeap.{Header, heap_magic}

pub data Block : Type 0 where
  used free : (size : ℕ) → Block

abbrev pub size_of : Block → ℕ
size_of (used n) = n
size_of (free n) = n

abbrev pub header_of : Block → Header
header_of (used n) = record { magic = heap_magic; is_hole = 0; size = n }
header_of (free n) = record { magic = heap_magic; is_hole = 1; size = n }

abbrev pub total : List Block → ℕ
total [] = 0
total (b ∷ bs) = size_of b + total bs

-- From `a` to `e` the headers are those of exactly these blocks, each right behind the one before
-- and large enough for a header and a footer.
abbrev pub Tiles : (Ptr → Header) → (a : ℕ) → List Block → (e : ℕ) → Type 0
Tiles hs a [] e = a ≡ e
Tiles hs a (b ∷ bs) e = (hs a ≡ header_of b) × (20 ≤ size_of b) × Tiles hs (a + size_of b) bs e

pub Tiles-total :
    (hs : Ptr → Header) (a : ℕ) (bs : List Block) (e : ℕ) → Tiles hs a bs e → a + total bs ≡ e
Tiles-total hs a [] e t = omega (arith, t)
Tiles-total hs a (b ∷ bs) e t = omega (arith, Tiles-total hs (a + size_of b) bs e t.2)

-- Tiles of a list in two parts.
pub Tiles-split :
    (hs : Ptr → Header) (a : ℕ) (xs ys : List Block) (e : ℕ)
    → Tiles hs a (xs ++ ys) e
    → Tiles hs a xs (a + total xs) × Tiles hs (a + total xs) ys e
Tiles-split hs a [] ys e t =
    let here : a ≡ a + 0 = omega arith in (here, subst (λ p. Tiles hs p ys e) here t)
Tiles-split hs a (x ∷ xs) ys e t =
    let r = Tiles-split hs (a + size_of x) xs ys e t.2 in
    let there : a + size_of x + total xs ≡ a + (size_of x + total xs) = omega arith in
    (
      (t.0, t.1, subst (Tiles hs (a + size_of x) xs) there r.0),
      subst (λ p. Tiles hs p ys e) there r.1,
    )

pub Tiles-join :
    (hs : Ptr → Header) (a m : ℕ) (xs ys : List Block) (e : ℕ)
    → Tiles hs a xs m
    → Tiles hs m ys e
    → Tiles hs a (xs ++ ys) e
Tiles-join hs a m [] ys e s t = subst (λ p. Tiles hs p ys e) (sym s) t
Tiles-join hs a m (x ∷ xs) ys e s t = (s.0, s.1, Tiles-join hs (a + size_of x) m xs ys e s.2 t)

-- Tiles depend on the headers between their ends only.
pub Tiles-same :
    (hs hs' : Ptr → Header) (a : ℕ) (bs : List Block) (e : ℕ)
    → ((q : ℕ) → a ≤ q → q < e → hs' q ≡ hs q)
    → Tiles hs a bs e
    → Tiles hs' a bs e
Tiles-same hs hs' a [] e same t = t
Tiles-same hs hs' a (b ∷ bs) e same t =
    let sum = Tiles-total hs (a + size_of b) bs e t.2 in
    let small = t.1 in
    (
      same a (omega arith) (omega arith) ∙ t.0,
      t.1,
      Tiles-same hs hs' (a + size_of b) bs e (λ q l m. same q (omega arith) m) t.2,
    )

-- A header written outside a range of tiles.
pub put_in-Tiles :
    (hs : Ptr → Header) (p : Ptr) (x : Header) (a : ℕ) (bs : List Block) (e : ℕ)
    → ((q : ℕ) → a ≤ q → q < e → q ≢ p)
    → Tiles hs a bs e
    → Tiles (put_in hs p x) a bs e
put_in-Tiles hs p x a bs e out t =
    Tiles-same hs (put_in hs p x) a bs e (λ q l m. let ne = out q l m in ground arith) t
