-- ===== src/HashTbl/Find.antt =====
-- kernel/types/hash_tbl.c: what a table holds, and the search for a key.
use native.Mathlib.Nat.{mod-lt}
use model_lib.Common.{
  ℕ, zero, suc, ◌%◌, ◌<◌, ◌≡◌, ◌≢◌, refl, inl, inr, true, false, some, List, [], ◌∷◌, arith,
  if◌then◌else◌, ◌==◌, Bool-cases, length,
}
use model_lib.Ring.{Ptr}
use model_lib.Ring.Joined.{Fresh, Joined, Ring}
use model_lib.Ring.Frame.{Apart}
use model_lib.HashTbl.{HashTbl, Memory, hash_fn, bucket, find_from, hash_tbl_find}

-- The items of a chain are set, and their keys belong into bucket `i` of `size`.
abbrev pub Keyed : (keys : Ptr → ℕ) → (size i : ℕ) → List Ptr → Type 0
Keyed keys size i [] = Unit {0}
Keyed keys size i (x ∷ xs) = (x ≢ 0) × (keys x % size ≡ i) × Keyed keys size i xs

-- Bucket `i` is the ring of the items `chain i`, and no two buckets share an address.
pub record Holds (ht : HashTbl) (m : Memory) (chain : ℕ → List Ptr) : Type 0 where
  pub some_bucket : 0 < ht.size
  pub ring : (i : ℕ) → i < ht.size → Ring m.links (bucket ht i) (chain i)
  pub keyed : (i : ℕ) → i < ht.size → Keyed m.keys ht.size i (chain i)
  pub apart :
      (i j : ℕ)
      → i < ht.size
      → j < ht.size
      → i ≢ j
      → Apart (bucket ht i ∷ chain i) (bucket ht j ∷ chain j)

-- The first item of a chain with the key, NULL if there is none.
abbrev pub first_with : (keys : Ptr → ℕ) → (key : ℕ) → List Ptr → Ptr
first_with keys key [] = 0
first_with keys key (x ∷ xs) = if keys x == key then x else first_with keys key xs

find_from-first_with :
    (fuel : ℕ) (m : Memory) (head : Ptr) (key : ℕ) (a : Ptr) (xs : List Ptr)
    → Joined m.links a xs head
    → Fresh head xs
    → length xs < fuel
    → find_from fuel m head key (m.links.next a) ≡ some (first_with m.keys key xs)
unfolding find_from
find_from-first_with zero m head key a xs j f h = absurd (omega arith)
find_from-first_with (suc fuel) m head key a [] j f h =
    let at : (m.links.next a == head) ≡ true = ground (arith, j.0) in rw at refl
find_from-first_with (suc fuel) m head key a (x ∷ xs) j f h =
    let at : m.links.next a ≡ x = j.0 in
    let more : (x == head) ≡ false = ground (arith, f.0) in
    rw at (elim (Bool-cases (m.keys x == key)) [
      | inl e ↦ rw (more, e) refl
      | inr e ↦ rw (more, e) (find_from-first_with fuel m head key x xs j.2 f.1 (omega arith))
    ])

-- The search for a key ends, with more fuel than there are items in its bucket, and gives the item
-- with this key that was added last.
pub hash_tbl_find_lem :
    (fuel : ℕ) (ht : HashTbl) (m : Memory) (chain : ℕ → List Ptr) (key : ℕ)
    → Holds ht m chain
    → length (chain (key % ht.size)) < fuel
    → hash_tbl_find fuel ht m key ≡ some (first_with m.keys key (chain (key % ht.size)))
unfolding hash_tbl_find hash_fn
hash_tbl_find_lem fuel ht m chain key h enough =
    let small : key % ht.size < ht.size = mod-lt key h.some_bucket in
    let r = h.ring (key % ht.size) small in
    find_from-first_with fuel m (bucket ht (key % ht.size)) key (bucket ht (key % ht.size))
      (chain (key % ht.size)) r.0 r.1.0 enough
