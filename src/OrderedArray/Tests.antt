-- ===== src/OrderedArray/Tests.antt =====
-- Runs of the ordered array, and its theorems at a concrete one.
use model_lib.Common.{◌+◌, ◌≡◌, refl, none, some, [], ◌∷◌, arith, ltb}
use model_lib.OrderedArray.{
  OrderedArray, place_ordered_array, insert_ordered_array, lookup_ordered_array,
  remove_ordered_array,
}
use model_lib.OrderedArray.Insert.{items, sorted_insert, insert_lem}
use model_lib.OrderedArray.Remove.{delete, remove_lem}

-- Three items in use, one stale item behind them.
abbrev sample : OrderedArray
sample = record { array = 2 ∷ 5 ∷ 9 ∷ 4 ∷ 0 ∷ []; size = 3; max_size = 5; less_than = ltb }

runs :
    (items (insert_ordered_array 5 (insert_ordered_array 3 (place_ordered_array 4 ltb)))
      ≡ 3 ∷ 5 ∷ [])
    × (items (insert_ordered_array 6 sample) ≡ 2 ∷ 5 ∷ 6 ∷ 9 ∷ [])
    × (items (remove_ordered_array 0 sample) ≡ 5 ∷ 9 ∷ [])
    × (lookup_ordered_array 1 sample ≡ some 5)
    × (lookup_ordered_array 3 sample ≡ none)
unfolding place_ordered_array insert_ordered_array remove_ordered_array lookup_ordered_array
runs = (refl, refl, refl, refl, refl)

insert_lem_example :
    (items (insert_ordered_array 6 sample) ≡ sorted_insert ltb 6 (2 ∷ 5 ∷ 9 ∷ []))
    × ((insert_ordered_array 6 sample).size ≡ 3 + 1)
insert_lem_example = insert_lem 6 sample (omega arith) (omega arith)

remove_lem_example :
    (items (remove_ordered_array 1 sample) ≡ delete 1 (2 ∷ 5 ∷ 9 ∷ []))
    × ((remove_ordered_array 1 sample).size + 1 ≡ 3)
remove_lem_example = remove_lem 1 sample (omega arith) (omega arith) (omega arith)
