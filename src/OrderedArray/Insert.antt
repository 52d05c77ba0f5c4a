-- ===== src/OrderedArray/Insert.antt =====
-- `insert_ordered_array` inserts before the first item that is not less than the new one.
use model_lib.Common.{
  ℕ, zero, suc, ◌+◌, ◌-◌, ◌≤◌, ◌<◌, ◌≡◌, refl, ap, Bool, true, false, inl, inr, List, [], ◌∷◌,
  arith, if◌then◌else◌, Bool-cases, ◌==◌, length, take, add32, u32_mod,
}
use model_lib.OrderedArray.{OrderedArray, find_place, shift_up, put_at, insert_ordered_array}

-- The items that the array holds.
abbrev pub items : OrderedArray → List ℕ
items a = take a.size a.array

-- The reference: insertion into a list.
unfoldable pub sorted_insert : (ℕ → ℕ → Bool) → ℕ → List ℕ → List ℕ
sorted_insert less item [] = item ∷ []
sorted_insert less item (x ∷ xs) =
    if less x item then x ∷ sorted_insert less item xs else item ∷ x ∷ xs

module _ (less : ℕ → ℕ → Bool) (item : ℕ) where
  find_place-cons :
      (x : ℕ) (xs : List ℕ) (n i : ℕ)
      → find_place less item (x ∷ xs) n (suc i) ≡ suc (find_place less item xs n i)
  unfolding find_place
  find_place-cons x xs zero i = refl
  find_place-cons x xs (suc n) i = ground (arith, find_place-cons x xs n (suc i))

  shift_up-cons :
      (x : ℕ) (xs : List ℕ) (n i tmp : ℕ)
      → shift_up (x ∷ xs) n (suc i) tmp ≡ x ∷ shift_up xs n i tmp
  unfolding shift_up
  shift_up-cons x xs zero i tmp = refl
  shift_up-cons x xs (suc n) i tmp = shift_up-cons x _ n (suc i) _

  -- Moving the first `n` items one place up, behind `a`.
  take-shift_up :
      (a t : ℕ) (ys : List ℕ) (n : ℕ)
      → n ≤ length ys
      → take (suc n) (shift_up (a ∷ ys) n 0 t) ≡ a ∷ take n (t ∷ ys)
  unfolding shift_up
  take-shift_up a t ys zero h = refl
  take-shift_up a t [] (suc n) h = elim h [ ]
  take-shift_up a t (y ∷ ys) (suc n) h =
      rw (shift_up-cons a (t ∷ ys) n 0 y) (ap (λ l. a ∷ l) (take-shift_up t y ys n (omega arith)))

  put_at-cons :
      (x : ℕ) (xs : List ℕ) (n i : ℕ)
      → put_at (x ∷ xs) item (suc n) (suc i) ≡ x ∷ put_at xs item n i
  unfolding put_at
  put_at-cons x xs n i = elim (Bool-cases (i == n)) [
    | inl e ↦ let e' : (suc i == suc n) ≡ true = ground arith in rw (e, e')
    | inr e ↦
        let e' : (suc i == suc n) ≡ false = ground arith in
        let d : suc n - suc i ≡ n - i = omega arith in rw (e, e', d) (shift_up-cons x _ (n - i) i _)
  ]

  put_at_end : (x : ℕ) (xs : List ℕ) → put_at (x ∷ xs) item 0 0 ≡ item ∷ xs
  unfolding put_at
  put_at_end x xs = refl

  put_at_first :
      (x : ℕ) (xs : List ℕ) (n : ℕ)
      → put_at (x ∷ xs) item (suc n) 0 ≡ shift_up (item ∷ xs) (suc n) 0 x
  unfolding put_at
  put_at_first x xs n =
      let e : (0 == suc n) ≡ false = ground arith in
      let d : suc n - 0 ≡ suc n = omega arith in rw (e, d)

  -- Both loops together, with room for one more item.
  take-put_at :
      (xs : List ℕ) (n : ℕ)
      → n < length xs
      → take (suc n) (put_at xs item n (find_place less item xs n 0))
        ≡ sorted_insert less item (take n xs)
  unfolding find_place sorted_insert
  take-put_at [] n h = elim h [ ]
  take-put_at (x ∷ xs) zero h = rw (put_at_end x xs)
  take-put_at (x ∷ xs) (suc n) h = elim (Bool-cases (less x item)) [
    | inl e ↦
        rw (e, find_place-cons x xs n 0, put_at-cons x xs n)
          (ap (λ l. x ∷ l) (take-put_at xs n (omega arith)))
    | inr e ↦ rw (e, put_at_first x xs n) (take-shift_up item x xs (suc n) (omega arith))
  ]

-- `insert_ordered_array` on an array with room makes its items those of the sorted insertion: the
-- items less than the new one up to the first that is not, the new one, and the rest in order. It
-- counts one item more.
pub insert_lem :
    (item : ℕ) (a : OrderedArray)
    → a.size < length a.array
    → a.size + 1 < u32_mod
    → (items (insert_ordered_array item a) ≡ sorted_insert a.less_than item (items a))
      × ((insert_ordered_array item a).size ≡ a.size + 1)
unfolding insert_ordered_array
insert_lem item a h small =
    let grown : add32 a.size 1 ≡ suc a.size = omega arith in
    (rw grown (take-put_at a.less_than item a.array a.size h), omega arith)
