-- ===== src/PhysMem/Tests.antt =====
-- Runs of the frame allocator, and its theorems at concrete indexes.
use model_lib.Common.{
  ℕ, zero, suc, ◌/◌, ◌%◌, ◌^◌, ◌<◌, ◌≡◌, refl, none, some, List, [], ◌∷◌, ◌++◌, arith, get_or,
  replicate,
}
use model_lib.Common.{Option}
use model_lib.Common.Bits.{bit-ones}
use model_lib.PhysMem.{Pmm, pmm_init, pmm_alloc_frame, pmm_free_frame}
use model_lib.PhysMem.Search.{Marked}
use model_lib.PhysMem.Marks.{IsValid}
use model_lib.PhysMem.Alloc.{Allocated, Freed, alloc_lem, free_lem}
use model_lib.PhysMem.Size.{init-IsValid, alloc_beyond_memory}

-- The first word is full, and so are two frames of the second.
abbrev sample : Pmm
sample = record {
  frame_count = 16;
  allocated_count = 34;
  frame_idx = 0xffffffff ∷ 0b101 ∷ [];
  idx_size = 2;
}

sample-fits : (i : ℕ) → get_or sample.frame_idx i 0 < 2 ^ 32
sample-fits zero = omega arith
sample-fits (suc zero) = omega arith
sample-fits (suc (suc i)) = omega arith

sample-IsValid : IsValid sample
sample-IsValid = record { words = refl; fits = sample-fits; small = omega arith }

abbrev number : Option (ℕ × Pmm) → ℕ
number none = 0
number (some (f, _)) = f

alloc_runs : number (pmm_alloc_frame sample) ≡ 33
unfolding pmm_alloc_frame
alloc_runs = refl

double_free_panics : pmm_free_frame sample 33 ≡ none
unfolding pmm_free_frame
double_free_panics = refl

alloc_lem_example : Allocated sample (pmm_alloc_frame sample)
alloc_lem_example = alloc_lem sample-IsValid

free_lem_example : Freed sample 34 (pmm_free_frame sample 34)
free_lem_example = free_lem sample-IsValid 34

-- The index for 1 MB, with its 256 frames marked and the words behind them clear.
abbrev exhausted : List ℕ
exhausted = replicate 8 0xffffffff ++ replicate 24 0

abbrev AllBelow : ℕ → List ℕ → Type 0
AllBelow n [] = Unit {0}
AllBelow n (x ∷ xs) = (x < n) × AllBelow n xs

AllBelow-get_or : (n : ℕ) (xs : List ℕ) → 0 < n → AllBelow n xs → (i : ℕ) → get_or xs i 0 < n
AllBelow-get_or n [] p h i = p
AllBelow-get_or n (x ∷ xs) p h zero = h.0
AllBelow-get_or n (x ∷ xs) p h (suc i) = AllBelow-get_or n xs p h.1 i

exhausted-fits : (i : ℕ) → get_or exhausted i 0 < 2 ^ 32
exhausted-fits = AllBelow-get_or (2 ^ 32) exhausted (omega arith) (omega arith)

get_or-replicate : (n a j : ℕ) (ys : List ℕ) → j < n → get_or (replicate n a ++ ys) j 0 ≡ a
get_or-replicate zero a j ys h = elim h [ ]
get_or-replicate (suc n) a zero ys h = refl
get_or-replicate (suc n) a (suc j) ys h = get_or-replicate n a j ys (omega arith)

exhausted-Marked : Marked exhausted 0 256
exhausted-Marked g p q =
    rw (get_or-replicate 8 0xffffffff (g / 32) (replicate 24 0) (omega arith))
      (bit-ones 32 (g % 32) (omega arith))

init-IsValid_example : IsValid (pmm_init 1 exhausted)
init-IsValid_example = init-IsValid 1 exhausted (omega arith) refl exhausted-fits

alloc_beyond_memory_example :
    ((pmm_init 1 exhausted).frame_count ≡ 256)
    × (t : Pmm) × (pmm_alloc_frame (pmm_init 1 exhausted) ≡ some (256, t))
alloc_beyond_memory_example =
    alloc_beyond_memory 1 exhausted (omega arith) (omega arith) refl exhausted-fits exhausted-Marked
      refl
