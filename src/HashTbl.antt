-- ===== src/HashTbl.antt =====
-- kernel/types/hash_tbl.c: the table of chains over the rings of kernel/types/list.h. An item is
-- named by the address of its links, `keys` holds the `key` of each item, and the pointers that
-- kmalloc returned are arguments.
pub mod Find
pub mod Change
pub mod Chain
pub mod Delete
mod Tests
use model_lib.Common.{
  ℕ, zero, suc, ◌+◌, ◌-◌, ◌*◌, ◌%◌, Bool, true, false, ◌&&◌, not, Option, none, some, if◌then◌else◌,
  ◌==◌,
}
use model_lib.Ring.{Ptr, Links, put, init_list_head, list_add, list_delete, list_empty}

pub record HashTbl : Type 0 where
  pub size : ℕ
  pub buckets : Ptr

-- The memory that the table stands in.
pub record Memory : Type 0 where
  pub links : Links
  pub keys : Ptr → ℕ

unfoldable pub hash_fn : (value sz : ℕ) → ℕ
hash_fn value sz = value % sz

-- `&ht->buckets[i]`; a `list_head_t` has 8 bytes.
abbrev pub bucket : HashTbl → ℕ → Ptr
bucket ht i = ht.buckets + 8 * i

-- The loop of `hash_tbl_create`, with `n` rounds left.
unfoldable pub init_buckets : HashTbl → (i n : ℕ) → Links → Links
init_buckets ht i zero l = l
init_buckets ht i (suc n) l = init_buckets ht (suc i) n (init_list_head l (bucket ht i))

unfoldable pub hash_tbl_create : Memory → (buckets : Ptr) → (sz : ℕ) → HashTbl × Memory
unfolding init_buckets
hash_tbl_create m buckets sz =
    let ht : HashTbl = record { size = sz; buckets = buckets } in
    (ht, record m { links = init_buckets ht 0 sz m.links })

unfoldable pub hash_tbl_add : HashTbl → Memory → (key : ℕ) → (item : Ptr) → Memory
unfolding hash_fn
hash_tbl_add ht m key item = record {
  keys = put m.keys item key;
  links = list_add m.links item (bucket ht (hash_fn key ht.size));
}

unfoldable pub empty_from : HashTbl → Memory → (i n : ℕ) → Bool
empty_from ht m i zero = true
empty_from ht m i (suc n) =
    let rest = empty_from ht m (suc i) n in if list_empty m.links (bucket ht i) then rest else false

unfoldable pub hash_tbl_empty : HashTbl → Memory → Bool
unfolding empty_from
hash_tbl_empty ht m = empty_from ht m 0 ht.size

-- The loop of `hash_tbl_find` at an item; `none` when the fuel runs out, and `some 0` is NULL.
unfoldable pub find_from : ℕ → Memory → (head : Ptr) → (key : ℕ) → Ptr → Option Ptr
find_from zero m head key item = none
find_from (suc fuel) m head key item =
    let rest = find_from fuel m head key (m.links.next item) in
    if item == head then some 0 else if m.keys item == key then some item else rest

unfoldable pub hash_tbl_find : ℕ → HashTbl → Memory → (key : ℕ) → Option Ptr
unfolding hash_fn find_from
hash_tbl_find fuel ht m key =
    let head = bucket ht (hash_fn key ht.size) in find_from fuel m head key (m.links.next head)

abbrev pub found : Option Ptr → Option Bool
found none = none
found (some p) = some (not (p == 0))

unfoldable pub hash_tbl_has : ℕ → HashTbl → Memory → (key : ℕ) → Option Bool
unfolding hash_tbl_find
hash_tbl_has fuel ht m key = found (hash_tbl_find fuel ht m key)

unfoldable pub hash_tbl_delete_item : Memory → Ptr → Memory
hash_tbl_delete_item m item = record m { links = list_delete m.links item }

-- What `hash_tbl_delete` does with the item found.
abbrev pub delete_found : Memory → Option Ptr → Option (Ptr × Memory)
delete_found m none = none
delete_found m (some p) = some (p, if p == 0 then m else hash_tbl_delete_item m p)

unfoldable pub hash_tbl_delete : ℕ → HashTbl → Memory → (key : ℕ) → Option (Ptr × Memory)
unfolding hash_tbl_find hash_tbl_delete_item
hash_tbl_delete fuel ht m key = delete_found m (hash_tbl_find fuel ht m key)
