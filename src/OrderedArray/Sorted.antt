-- ===== src/OrderedArray/Sorted.antt =====
-- The array stays sorted between calls.
use model_lib.Common.{
  ℕ, zero, suc, ◌+◌, ◌≤◌, ◌<◌, ◌≡◌, Bool, true, false, inl, inr, List, [], ◌∷◌, Bool-cases, length,
  u32_mod,
}
use model_lib.OrderedArray.{OrderedArray, insert_ordered_array, remove_ordered_array}
use model_lib.OrderedArray.Insert.{items, sorted_insert, insert_lem}
use model_lib.OrderedArray.Remove.{delete, remove_lem}

module _ (less : ℕ → ℕ → Bool) where
  -- No item is less than the one before it.
  abbrev pub IsSorted : List ℕ → Type 0
  IsSorted [] = Unit {0}
  IsSorted (x ∷ []) = Unit {0}
  IsSorted (x ∷ y ∷ ys) = (less y x ≡ false) × IsSorted (y ∷ ys)

  abbrev pub IsAsymmetric : Type 0
  IsAsymmetric = (a b : ℕ) → less a b ≡ true → less b a ≡ false

  abbrev pub IsNegTransitive : Type 0
  IsNegTransitive = (a b c : ℕ) → less b a ≡ false → less c b ≡ false → less c a ≡ false

  sorted_insert-IsSorted :
      IsAsymmetric → (item : ℕ) (xs : List ℕ) → IsSorted xs → IsSorted (sorted_insert less item xs)
  unfolding sorted_insert
  sorted_insert-IsSorted asym item [] h = tt
  sorted_insert-IsSorted asym item (x ∷ []) h = elim (Bool-cases (less x item)) [
    | inl e ↦ rw e (asym x item e, tt)
    | inr e ↦ rw e (e, tt)
  ]
  sorted_insert-IsSorted asym item (x ∷ y ∷ ys) h = elim (Bool-cases (less x item)) [
    | inr e ↦ rw e (e, h)
    | inl e ↦
        let rest = sorted_insert-IsSorted asym item (y ∷ ys) h.1 in
        elim (Bool-cases (less y item)) [
          | inl f ↦ rw (e, f) (h.0, (rw f at rest))
          | inr f ↦ rw (e, f) (asym x item e, (rw f at rest))
        ]
  ]

  delete-IsSorted : IsNegTransitive → (i : ℕ) (xs : List ℕ) → IsSorted xs → IsSorted (delete i xs)
  unfolding delete
  delete-IsSorted trans i [] h = tt
  delete-IsSorted trans zero (x ∷ []) h = tt
  delete-IsSorted trans zero (x ∷ y ∷ ys) h = h.1
  delete-IsSorted trans (suc i) (x ∷ []) h = tt
  delete-IsSorted trans (suc zero) (x ∷ y ∷ []) h = tt
  delete-IsSorted trans (suc zero) (x ∷ y ∷ z ∷ zs) h = (trans x y z h.0 h.1.0, h.1.1)
  delete-IsSorted trans (suc (suc i)) (x ∷ y ∷ ys) h =
      (h.0, delete-IsSorted trans (suc i) (y ∷ ys) h.1)

-- With room for one more and a predicate that never holds both ways, `insert_ordered_array` keeps a
-- sorted array sorted.
pub insert-IsSorted :
    (item : ℕ) (a : OrderedArray)
    → a.size < length a.array
    → a.size + 1 < u32_mod
    → IsAsymmetric a.less_than
    → IsSorted a.less_than (items a)
    → IsSorted a.less_than (items (insert_ordered_array item a))
insert-IsSorted item a room small asym h =
    rw ((insert_lem item a room small).0) (sorted_insert-IsSorted a.less_than asym item (items a) h)

-- With a predicate whose negation is transitive, `remove_ordered_array` at an index in use keeps a
-- sorted array sorted.
pub remove-IsSorted :
    (i : ℕ) (a : OrderedArray)
    → i < a.size
    → a.size ≤ length a.array
    → a.size < u32_mod
    → IsNegTransitive a.less_than
    → IsSorted a.less_than (items a)
    → IsSorted a.less_than (items (remove_ordered_array i a))
remove-IsSorted i a used room small trans h =
    rw ((remove_lem i a used room small).0) (delete-IsSorted a.less_than trans i (items a) h)
