-- ===== src/HashTbl/Tests.antt =====
-- Runs of the table, and its theorems at a concrete one.
use model_lib.Common.{
  ℕ, zero, suc, ◌≡◌, ◌≢◌, ◌<◌, refl, true, false, Option, none, some, List, [], ◌∷◌, arith,
  if◌then◌else◌, ◌==◌,
}
use model_lib.Ring.{
  Ptr, init_list_head, list_add, list_add_between, list_delete, list_delete_entry,
  list_delete_between, list_empty,
}
use model_lib.Ring.Joined.{Fresh, Ring}
use model_lib.Ring.Frame.{Apart}
use model_lib.HashTbl.{
  HashTbl, Memory, bucket, hash_fn, init_buckets, hash_tbl_create, hash_tbl_add, hash_tbl_find,
  find_from, hash_tbl_has, hash_tbl_delete, hash_tbl_delete_item, empty_from, hash_tbl_empty,
}
use model_lib.HashTbl.Find.{Keyed, Holds}
use model_lib.HashTbl.Change.{IsNew, find-hash_tbl_add}
use model_lib.HashTbl.Delete.{Deletes, Lacks, hash_tbl_delete-Lacks}

abbrev blank : Memory
blank = record { links = record { next = λ p. 0; prev = λ p. 0 }; keys = λ p. 0 }

-- Two buckets at 100 and 108.
abbrev ht : HashTbl
ht = record { size = 2; buckets = 100 }

abbrev created : Memory
created = (hash_tbl_create blank 100 2).1

-- Items 200 and 300 with keys 3 and 5, in one bucket.
abbrev filled : Memory
filled = hash_tbl_add ht (hash_tbl_add ht created 3 200) 5 300

abbrev after : Option (Ptr × Memory) → Memory
after none = blank
after (some r) = r.1

finds :
    (hash_tbl_find 9 ht filled 3 ≡ some 200)
    × (hash_tbl_find 9 ht filled 5 ≡ some 300)
    × (hash_tbl_has 9 ht filled 7 ≡ some false)
    × (hash_tbl_empty ht filled ≡ false)
    × (hash_tbl_empty ht created ≡ true)
unfolding hash_tbl_create init_buckets hash_tbl_add hash_tbl_find find_from hash_tbl_has hash_fn
    init_list_head list_add list_add_between hash_tbl_empty empty_from list_empty
finds = (refl, refl, refl, refl, refl)

deletes :
    (hash_tbl_find 9 ht (after (hash_tbl_delete 9 ht filled 5)) 5 ≡ some 0)
    × (hash_tbl_find 9 ht (after (hash_tbl_delete 9 ht filled 5)) 3 ≡ some 200)
unfolding hash_tbl_create init_buckets hash_tbl_add hash_tbl_find find_from hash_tbl_delete
    hash_tbl_delete_item hash_fn init_list_head list_add list_add_between list_delete
    list_delete_entry list_delete_between
deletes = (refl, refl)

abbrev chains : ℕ → List Ptr
chains i = if i == 1 then 300 ∷ 200 ∷ [] else []

Ring-two : (i : ℕ) → i < 2 → Ring filled.links (bucket ht i) (chains i)
unfolding hash_tbl_create init_buckets hash_tbl_add hash_fn init_list_head list_add list_add_between
Ring-two zero lt = ((refl, refl), (tt, tt))
Ring-two (suc zero) lt = (
  (refl, refl, (refl, refl, (refl, refl))),
  ((omega arith, (omega arith, tt)), ((omega arith, tt), (tt, tt))),
)
Ring-two (suc (suc i)) lt = absurd (omega arith)

Keyed-two : (i : ℕ) → i < 2 → Keyed filled.keys 2 i (chains i)
unfolding hash_tbl_create init_buckets hash_tbl_add
Keyed-two zero lt = tt
Keyed-two (suc zero) lt = (omega arith, refl, (omega arith, refl, tt))
Keyed-two (suc (suc i)) lt = absurd (omega arith)

Apart-two :
    (i j : ℕ) → i < 2 → j < 2 → i ≢ j → Apart (bucket ht i ∷ chains i) (bucket ht j ∷ chains j)
Apart-two zero zero p q ne = absurd (ne refl)
Apart-two zero (suc zero) p q ne = ((omega arith, (omega arith, (omega arith, tt))), tt)
Apart-two (suc zero) zero p q ne = ((omega arith, tt), ((omega arith, tt), ((omega arith, tt), tt)))
Apart-two (suc zero) (suc zero) p q ne = absurd (ne refl)
Apart-two (suc (suc i)) j p q ne = absurd (omega arith)
Apart-two zero (suc (suc j)) p q ne = absurd (omega arith)
Apart-two (suc zero) (suc (suc j)) p q ne = absurd (omega arith)

filled-Holds : Holds ht filled chains
filled-Holds = record {
  some_bucket = omega arith;
  ring = Ring-two;
  keyed = Keyed-two;
  apart = Apart-two;
}

IsNew-two : IsNew ht chains 400
IsNew-two = (omega arith, outside)
  where
    outside : (i : ℕ) → i < 2 → Fresh 400 (bucket ht i ∷ chains i)
    outside zero lt = (omega arith, tt)
    outside (suc zero) lt = (omega arith, (omega arith, (omega arith, tt)))
    outside (suc (suc i)) lt = absurd (omega arith)

find-hash_tbl_add_example :
    (old : Ptr) × (hash_tbl_find 4 ht filled 3 ≡ some old)
    × (hash_tbl_find 4 ht (hash_tbl_add ht filled 3 400) 3 ≡ some 400)
find-hash_tbl_add_example =
    find-hash_tbl_add ht filled chains 3 400 filled-Holds IsNew-two 4 3 (omega arith) (omega arith)

hash_tbl_delete-Lacks_example :
    (p : Ptr) × (t : Memory) × (left : ℕ → List Ptr) × (hash_tbl_find 3 ht filled 3 ≡ some p)
    × (hash_tbl_delete 3 ht filled 3 ≡ some (p, t))
    × Deletes ht filled t chains left 3 p
    × Lacks ht filled t chains left 3 p
hash_tbl_delete-Lacks_example =
    hash_tbl_delete-Lacks 3 ht filled chains 3 filled-Holds (omega arith)
