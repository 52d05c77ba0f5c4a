-- ===== src/LineBuff/Shift.antt =====
-- The two loops of drivers/console/line_buff.c, byte by byte.
use model_lib.Common.{
  ℕ, zero, suc, ◌+◌, ◌<◌, ◌≤◌, ◌≡◌, ◌≢◌, ◌⊎◌, refl, ap, ◌∙◌, inl, inr, true, some, List, arith, ltb,
  length, get_or, get_elem?, set, length-set, get_or-set_self, get_or-set_ne, get_elem?-eq-get_or,
}
use model_lib.LineBuff.{write, open_gap, close_gap}

pub write-some : (xs : List ℕ) (i v : ℕ) → i < length xs → write xs i v ≡ some (set xs i v)
write-some xs i v h = let test : ltb i (length xs) ≡ true = ground arith in rw test

-- `n` bytes from `cur` on, one place further.
pub record Opened (xs : List ℕ) (cur n : ℕ) (ys : List ℕ) : Type 0 where
  pub size : length ys ≡ length xs
  pub before : (j : ℕ) → j ≤ cur → get_or ys j 0 ≡ get_or xs j 0
  pub moved : (j : ℕ) → cur ≤ j → j < cur + n → get_or ys (suc j) 0 ≡ get_or xs j 0
  pub behind : (j : ℕ) → cur + n < j → get_or ys j 0 ≡ get_or xs j 0

pub open_gap-Opened :
    (xs : List ℕ) (cur n : ℕ)
    → cur + n < length xs
    → (ys : List ℕ) × (open_gap xs cur n ≡ some ys) × Opened xs cur n ys
unfolding open_gap
open_gap-Opened xs cur zero h = (
  xs,
  refl,
  record {
    size = refl;
    before = λ j l. refl;
    moved = λ j l m. absurd (omega arith);
    behind = λ j l. refl;
  },
)
open_gap-Opened xs cur (suc n) h =
    let v = get_or xs (cur + n) 0 in
    let xs' = set xs (cur + suc n) v in
    let size = length-set xs (cur + suc n) v in
    let ih = open_gap-Opened xs' cur n (omega (arith, size)) in
    let p = ih.2 in
    let other : (j : ℕ) → cur + suc n ≢ j → get_or xs' j 0 ≡ get_or xs j 0 =
      λ j ne. get_or-set_ne xs (cur + suc n) j v 0 ne in
    let place : suc (cur + n) ≡ cur + suc n = omega arith in
    let at = ap (λ i. get_or xs' i 0) place ∙ get_or-set_self xs (cur + suc n) v 0 h in
    (
      ih.0,
      rw (write-some xs (cur + suc n) v h) ih.1,
      record {
        size = p.size ∙ size;
        before = λ j l. p.before j l ∙ other j (omega arith);
        moved = λ j l m. elim (last j m) [
          | inl e ↦ rw e (p.behind (suc (cur + n)) (omega arith) ∙ at)
          | inr e ↦ p.moved j l e ∙ other j (omega arith)
        ];
        behind = λ j l. p.behind j (omega arith) ∙ other j (omega arith);
      },
    )
  where
    last : (j : ℕ) → j < cur + suc n → (j ≡ cur + n) ⊎ (j < cur + n)
    last j m = ground arith

-- The `n` bytes behind `i`, one place back.
pub record Closed (xs : List ℕ) (n i : ℕ) (ys : List ℕ) : Type 0 where
  pub size : length ys ≡ length xs
  pub before : (j : ℕ) → j < i → get_or ys j 0 ≡ get_or xs j 0
  pub moved : (j : ℕ) → i ≤ j → j < i + n → get_or ys j 0 ≡ get_or xs (suc j) 0

pub close_gap-Closed :
    (xs : List ℕ) (n i : ℕ)
    → i + n < length xs
    → (ys : List ℕ) × (close_gap xs n i ≡ some ys) × Closed xs n i ys
unfolding close_gap
close_gap-Closed xs zero i h =
    (xs, refl, record { size = refl; before = λ j l. refl; moved = λ j l m. absurd (omega arith) })
close_gap-Closed xs (suc n) i h =
    let v = get_or xs (suc i) 0 in
    let xs' = set xs i v in
    let size = length-set xs i v in
    let ih = close_gap-Closed xs' n (suc i) (omega (arith, size)) in
    let p = ih.2 in
    let other : (j : ℕ) → i ≢ j → get_or xs' j 0 ≡ get_or xs j 0 =
      λ j ne. get_or-set_ne xs i j v 0 ne in
    let read : get_elem? xs (suc i) ≡ some v = get_elem?-eq-get_or xs (suc i) 0 (omega arith) in
    let at = get_or-set_self xs i v 0 (omega arith) in
    (
      ih.0,
      rw (read, write-some xs i v (omega arith)) ih.1,
      record {
        size = p.size ∙ size;
        before = λ j l. p.before j (omega arith) ∙ other j (omega arith);
        moved = λ j l m. elim (first j l) [
          | inl e ↦ rw e (p.before i (omega arith) ∙ at)
          | inr e ↦ p.moved j e (omega arith) ∙ other (suc j) (omega arith)
        ];
      },
    )
  where
    first : (j : ℕ) → i ≤ j → (j ≡ i) ⊎ (suc i ≤ j)
    first j l = ground arith
