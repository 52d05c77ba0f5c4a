-- ===== src/OrderedArray.antt =====
-- kernel/memory/ordered_array.c and ordered_array.h: the array of pointers that the kernel heap
-- keeps sorted. Items are addresses (`type_t` is `void*`, NULL is 0). The predicate `less_than` is
-- an argument. A read outside the storage yields 0 and a write outside it is none, so the theorems
-- ask for the room that the code takes for granted.
pub mod Insert
pub mod Remove
pub mod Sorted
mod Tests
use model_lib.Common.{
  ℕ, zero, suc, ◌-◌, Bool, Option, none, List, if◌then◌else◌, ltb, ◌==◌, add32, sub32, get_elem?,
  get_or, set, replicate,
}

pub record OrderedArray : Type 0 where
  pub array : List ℕ
  pub size : ℕ
  pub max_size : ℕ
  pub less_than : ℕ → ℕ → Bool

-- `storage` is what stands at `addr`, of which the first `max_size` items are cleared.
unfoldable pub place_ordered_array : ℕ → (ℕ → ℕ → Bool) → OrderedArray
place_ordered_array max_size less_than = record {
  array = replicate max_size 0;
  size = 0;
  max_size = max_size;
  less_than = less_than;
}

-- The first loop of `insert_ordered_array`, with `n` items left to look at.
find_place : (ℕ → ℕ → Bool) → ℕ → List ℕ → (n iterator : ℕ) → ℕ
find_place less item array zero iterator = iterator
find_place less item array (suc n) iterator =
    if less (get_or array iterator 0) item
    then find_place less item array n (suc iterator)
    else iterator

-- The second loop, with `n` rounds left.
shift_up : List ℕ → (n iterator tmp : ℕ) → List ℕ
shift_up array zero iterator tmp = array
shift_up array (suc n) iterator tmp =
    shift_up (set array (suc iterator) tmp) n (suc iterator) (get_or array (suc iterator) 0)

-- The storage once the place is found.
put_at : List ℕ → ℕ → (size iterator : ℕ) → List ℕ
unfolding shift_up
put_at array item size iterator =
    if iterator == size
    then set array size item
    else shift_up (set array iterator item) (size - iterator) iterator (get_or array iterator 0)

unfoldable pub insert_ordered_array : ℕ → OrderedArray → OrderedArray
unfolding find_place put_at
insert_ordered_array item a =
    let iterator = find_place a.less_than item a.array a.size 0 in
    record a { array = put_at a.array item a.size iterator; size = add32 a.size 1 }

-- `none` is the panic of the ASSERT.
unfoldable pub lookup_ordered_array : ℕ → OrderedArray → Option ℕ
lookup_ordered_array i a = if ltb i a.size then get_elem? a.array i else none

-- The loop of `remove_ordered_array`, with `n` rounds left.
shift_down : List ℕ → (n i : ℕ) → List ℕ
shift_down array zero i = array
shift_down array (suc n) i = shift_down (set array i (get_or array (suc i) 0)) n (suc i)

unfoldable pub remove_ordered_array : ℕ → OrderedArray → OrderedArray
unfolding shift_down
remove_ordered_array i a = record a {
  array = shift_down a.array (a.size - i) i;
  size = sub32 a.size 1;
}
