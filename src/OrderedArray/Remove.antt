-- ===== src/OrderedArray/Remove.antt =====
-- `remove_ordered_array` deletes the item at its index.
use model_lib.Common.{
  ℕ, zero, suc, ◌+◌, ◌-◌, ◌≤◌, ◌<◌, ◌≡◌, refl, ap, List, [], ◌∷◌, arith, length, take, u32_mod,
  sub32,
}
use model_lib.OrderedArray.{OrderedArray, shift_down, remove_ordered_array}
use model_lib.OrderedArray.Insert.{items}

-- The reference: the list without its item at an index.
unfoldable pub delete : ℕ → List ℕ → List ℕ
delete i [] = []
delete zero (x ∷ xs) = xs
delete (suc i) (x ∷ xs) = x ∷ delete i xs

shift_down-cons :
    (x : ℕ) (xs : List ℕ) (n i : ℕ) → shift_down (x ∷ xs) n (suc i) ≡ x ∷ shift_down xs n i
unfolding shift_down
shift_down-cons x xs zero i = refl
shift_down-cons x xs (suc n) i = shift_down-cons x _ n (suc i)

-- Moving the items behind the first one place down.
take-shift_down :
    (x : ℕ) (xs : List ℕ) (n : ℕ)
    → n ≤ length xs
    → take n (shift_down (x ∷ xs) (suc n) 0) ≡ take n xs
unfolding shift_down
take-shift_down x xs zero h = refl
take-shift_down x [] (suc n) h = elim h [ ]
take-shift_down x (y ∷ ys) (suc n) h =
    rw (shift_down-cons y (y ∷ ys) (suc n) 0)
      (ap (λ l. y ∷ l) (take-shift_down y ys n (omega arith)))

take-shift_down_at :
    (xs : List ℕ) (n i : ℕ)
    → i ≤ n
    → n < length xs
    → take n (shift_down xs (suc n - i) i) ≡ delete i (take (suc n) xs)
unfolding delete
take-shift_down_at [] n i p h = elim h [ ]
take-shift_down_at (x ∷ xs) n zero p h =
    let d : suc n - 0 ≡ suc n = omega arith in rw d (take-shift_down x xs n (omega arith))
take-shift_down_at (x ∷ xs) zero (suc i) p h = elim p [ ]
take-shift_down_at (x ∷ xs) (suc n) (suc i) p h =
    let d : suc (suc n) - suc i ≡ suc n - i = omega arith in
    rw (d, shift_down-cons x xs (suc n - i) i)
      (ap (λ l. x ∷ l) (take-shift_down_at xs n i (omega arith) (omega arith)))

remove_items :
    (xs : List ℕ) (size i : ℕ)
    → i < size
    → size ≤ length xs
    → take (size - 1) (shift_down xs (size - i) i) ≡ delete i (take size xs)
remove_items xs zero i p h = elim p [ ]
remove_items xs (suc n) i p h =
    let d : suc n - 1 ≡ n = omega arith in
    rw d (take-shift_down_at xs n i (omega arith) (omega arith))

-- `remove_ordered_array` at an index in use deletes that item, keeps the others in order, and counts
-- one item less.
pub remove_lem :
    (i : ℕ) (a : OrderedArray)
    → i < a.size
    → a.size ≤ length a.array
    → a.size < u32_mod
    → (items (remove_ordered_array i a) ≡ delete i (items a))
      × ((remove_ordered_array i a).size + 1 ≡ a.size)
unfolding remove_ordered_array
remove_lem i a p h small =
    let less : sub32 a.size 1 ≡ a.size - 1 = omega arith in
    (rw less (remove_items a.array a.size i p h), omega arith)
