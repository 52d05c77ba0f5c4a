-- ===== src/Cbuff/Inv.antt =====
-- The representation invariant of a circular buffer.
use model_lib.Common.{
  ℕ, ◌+◌, ◌-◌, ◌%◌, ◌^◌, ◌≤◌, ◌<◌, ◌≡◌, refl, sym, ap, ◌∙◌, inl, inr, true, List, arith,
  if◌then◌else◌, leb, u32_mod, length, length-set, Bool-cases,
}
use native.Mathlib.Nat.{mod-eq_of_lt}
use model_lib.Cbuff.{Cbuff, reset, create, put, get}

pub record IsValid (b : Cbuff) : Type 0 where
  pub some_room : 0 < b.len
  pub storage : b.len ≤ length b.buff
  pub small : b.len < u32_mod
  pub head_in : b.head < b.len
  pub tail_in : b.tail < b.len
  pub full_meets : b.full ≡ true → b.head ≡ b.tail

-- The number of elements held.
abbrev pub stored : Cbuff → ℕ
stored b =
    if b.full then b.len else if leb b.tail b.head then b.head - b.tail else b.head + b.len - b.tail

pub create-IsValid :
    (buff : List ℕ) (sz : ℕ) → 0 < sz → sz ≤ length buff → sz < u32_mod → IsValid (create buff sz)
unfolding create
create-IsValid buff sz p h s = ground arith

pub reset-IsValid : {b : Cbuff} → IsValid b → IsValid (reset b)
unfolding reset
reset-IsValid v = ground arith

-- `cbuff8_put` keeps the invariant: both indices stay inside the storage, and a full buffer has them
-- meet.
pub put-IsValid : {b : Cbuff} (w x : ℕ) → IsValid b → IsValid (put w b x)
unfolding put
put-IsValid {b} w x v = ground (arith, length-set b.buff b.head (x % 2 ^ w))

pub get-IsValid : {b : Cbuff} → IsValid b → IsValid (get b).1
unfolding get
get-IsValid v = ground arith

-- The index that `put` writes is inside the storage.
pub in_bounds : {b : Cbuff} → IsValid b → (b.head < length b.buff) × (b.tail < length b.buff)
in_bounds v = omega arith

pub plus_mod : (x n : ℕ) → x < n → (x + n) % n ≡ x
plus_mod x n h = grind arith

pub head-stored : {b : Cbuff} → IsValid b → b.head ≡ (b.tail + stored b) % b.len
head-stored {b} v =
    let here : b.full ≡ true → b.head ≡ (b.tail + b.len) % b.len =
      λ e. omega (arith, v.full_meets e, plus_mod b.tail b.len v.tail_in) in
    let ahead : b.tail ≤ b.head → b.head ≡ (b.tail + (b.head - b.tail)) % b.len =
      λ h. sym (ap (λ k. k % b.len) (omega arith) ∙ mod-eq_of_lt v.head_in) in
    let behind : b.head < b.tail → b.head ≡ (b.tail + (b.head + b.len - b.tail)) % b.len =
      λ h. sym (ap (λ k. k % b.len) (omega arith) ∙ plus_mod b.head b.len v.head_in) in
    elim (Bool-cases b.full) [
      | inl e ↦ rw e (here e)
      | inr e ↦ rw e (elim (Bool-cases (leb b.tail b.head)) [
        | inl c ↦ rw c (ahead (ground arith))
        | inr c ↦ rw c (behind (ground arith))
      ])
    ]

pub stored-le : {b : Cbuff} → IsValid b → stored b ≤ b.len
stored-le v = ground arith

pub len-put : (b : Cbuff) (w x : ℕ) → (put w b x).len ≡ b.len
unfolding put
len-put b w x = refl
