-- ===== src/Cbuff/Tests.antt =====
-- Runs of the circular buffer, and its theorems at concrete buffers.
use model_lib.Common.{ℕ, ◌≡◌, refl, true, false, some, List, [], ◌∷◌, arith}
use model_lib.Cbuff.{
  Cbuff, create, put, get, reset32, create32, put32, get32, empty32, is_full32, capacity32, count32,
}
use model_lib.Cbuff.Inv.{IsValid, create-IsValid, get-IsValid}
use model_lib.Cbuff.Refine.{contents, put_refines, get_refines}
use model_lib.Cbuff.Queue

abbrev three : List ℕ
three = 0 ∷ 0 ∷ 0 ∷ []

-- 7, then 8, round the end of the storage.
abbrev wrapped : Cbuff
wrapped = record { buff = 8 ∷ 9 ∷ 7 ∷ []; head = 1; tail = 2; len = 3; full = false }

wrapped-IsValid : IsValid wrapped
wrapped-IsValid = ground arith

abbrev brimming : Cbuff
brimming = record { buff = 8 ∷ 9 ∷ 7 ∷ []; head = 2; tail = 2; len = 3; full = true }

brimming-IsValid : IsValid brimming
brimming-IsValid = ground arith

contents-wrapped : contents wrapped ≡ 7 ∷ 8 ∷ []
contents-wrapped = refl

put_drops_oldest : contents (put 8 brimming 260) ≡ 8 ∷ 9 ∷ 4 ∷ []
unfolding put
put_drops_oldest = refl

word_keeps_value : contents (put32 wrapped 260) ≡ 7 ∷ 8 ∷ 260 ∷ []
unfolding put32
word_keeps_value = refl

get32_oldest : (get32 wrapped).0 ≡ some (some 7)
unfolding get32
get32_oldest = refl

observers32 :
    (is_full32 brimming ≡ true)
    × (empty32 (reset32 brimming) ≡ true)
    × (capacity32 (create32 three 3) ≡ 3)
unfolding is_full32 empty32 reset32 capacity32 create32
observers32 = (refl, refl, refl)

-- A buffer with nothing in it counts as a full one.
count_of_empty : count32 (create three 3) ≡ 3
unfolding count32 create
count_of_empty = refl

create-IsValid_example : IsValid (create three 3)
create-IsValid_example = create-IsValid three 3 (omega arith) (omega arith) (omega arith)

get-IsValid_example : IsValid (get wrapped).1
get-IsValid_example = get-IsValid wrapped-IsValid

put_refines_example : contents (put 8 brimming 260) ≡ Queue.put 8 3 (contents brimming) 260
put_refines_example = put_refines brimming-IsValid 8 260

get_refines_example : let (out, b) = get wrapped in (out, contents b) ≡ Queue.get (contents wrapped)
get_refines_example = get_refines wrapped-IsValid
