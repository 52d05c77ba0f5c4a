-- ===== src/Printf/Digits.antt =====
-- libc/printf_helper.c: the digits that `_int_out` puts out, and libc/stdlib/atoi.c, which reads
-- them.
use native.Mathlib.Nat.{pow-suc}
use mathlib.Core.List.{append_assoc, append-nil}
use model_lib.Common.{
  ℕ, zero, suc, ◌+◌, ◌-◌, ◌*◌, ◌/◌, ◌%◌, ◌^◌, ◌<◌, ◌≤◌, ◌≡◌, ◌≢◌, refl, ap, ◌∙◌, sym, inl, inr,
  true, false, List, [], ◌∷◌, ◌++◌, arith, if◌then◌else◌, leb, ◌==◌, Bool-cases, length, set, drop,
  replicate, u32_mod, length-set, length-replicate, length-append,
}
use model_lib.CString.Copy.{text}
use model_lib.Numbers.{atoi, digits_from, isspace}
use model_lib.Printf.Format.{digit, count_digits, put_digits}

-- The digits of `v`, as far as `n` of them go, the highest first.
unfoldable pub numeral : (base n v : ℕ) → List ℕ
numeral base zero v = []
numeral base (suc n) v =
    let rest = numeral base n (v / base) in
    if v / base == 0 then digit (v % base) ∷ [] else rest ++ digit (v % base) ∷ []

length-numeral : (base n v : ℕ) → length (numeral base n v) ≡ count_digits base n v
unfolding numeral count_digits
length-numeral base zero v = refl
length-numeral base (suc n) v = elim (Bool-cases (v / base == 0)) [
  | inl e ↦ rw e refl
  | inr e ↦ rw e (
      omega (
        arith,
        length-append (numeral base n (v / base)) (digit (v % base) ∷ []),
        length-numeral base n (v / base),
      ))
]

pub count_digits-le : (base n v : ℕ) → count_digits base n v ≤ n
unfolding count_digits
count_digits-le base zero v = omega arith
count_digits-le base (suc n) v = elim (Bool-cases (v / base == 0)) [
  | inl e ↦ rw e (omega arith)
  | inr e ↦ rw e (omega (arith, count_digits-le base n (v / base)))
]

drop-set : (xs : List ℕ) (i v : ℕ) → i < length xs → drop i (set xs i v) ≡ v ∷ drop (suc i) xs
drop-set [] i v h = absurd (omega arith)
drop-set (x ∷ xs) zero v h = refl
drop-set (x ∷ xs) (suc i) v h = drop-set xs i v (omega arith)

-- The second loop of `_int_out` puts just these digits before the place where it starts, when that is
-- the one that the first loop found.
put_digits-numeral :
    (base n : ℕ) (str : List ℕ) (v : ℕ)
    → count_digits base n v ≤ length str
    → put_digits base n str (count_digits base n v) v
      ≡ numeral base n v ++ drop (count_digits base n v) str
unfolding put_digits numeral count_digits
put_digits-numeral base zero str v h = refl
put_digits-numeral base (suc n) str v h = elim (Bool-cases (v / base == 0)) [
  | inl e ↦
      let h' : 1 ≤ length str = rw e at h in rw e (drop-set str 0 (digit (v % base)) (omega arith))
  | inr e ↦
      let c = count_digits base n (v / base) in
      let h' : suc c ≤ length str = rw e at h in
      let less : suc c - 1 ≡ c = omega arith in
      let d = digit (v % base) in
      let str' = set str c d in
      rw (e, less)
        (put_digits-numeral base n str' (v / base) (omega (arith, length-set str c d))
          ∙ ap (λ t. numeral base n (v / base) ++ t) (drop-set str c d (omega arith))
          ∙ sym (append_assoc (numeral base n (v / base)) (d ∷ []) (drop (suc c) str)))
]

set_zero : (n i : ℕ) → set (replicate n 0) i 0 ≡ replicate {A = ℕ} n 0
set_zero zero i = refl
set_zero (suc n) zero = refl
set_zero (suc n) (suc i) = ap (λ t. 0 ∷ t) (set_zero n i)

text-drop_zeros : (k n : ℕ) → text (drop k (replicate n 0)) ≡ []
unfolding text
text-drop_zeros zero zero = refl
text-drop_zeros zero (suc n) = refl
text-drop_zeros (suc k) zero = refl
text-drop_zeros (suc k) (suc n) = text-drop_zeros k n

-- Every one of these bytes is set.
abbrev pub NonZero : List ℕ → Type 0
NonZero [] = Unit {0}
NonZero (c ∷ s) = (c ≢ 0) × NonZero s

NonZero-append : (xs ys : List ℕ) → NonZero xs → NonZero ys → NonZero (xs ++ ys)
NonZero-append [] ys h k = k
NonZero-append (x ∷ xs) ys h k = (h.0, NonZero-append xs ys h.1 k)

digit-ne : (d : ℕ) → digit d ≢ 0
unfolding digit
digit-ne d = ground arith

numeral-NonZero : (base n v : ℕ) → NonZero (numeral base n v)
unfolding numeral
numeral-NonZero base zero v = tt
numeral-NonZero base (suc n) v = elim (Bool-cases (v / base == 0)) [
  | inl e ↦ rw e (digit-ne (v % base), tt)
  | inr e ↦ rw e (
      NonZero-append (numeral base n (v / base)) _ (numeral-NonZero base n (v / base))
        (digit-ne (v % base), tt))
]

text-append : (xs ys : List ℕ) → NonZero xs → text (xs ++ ys) ≡ xs ++ text ys
unfolding text
text-append [] ys h = refl
text-append (x ∷ xs) ys h =
    let set_ : (x == 0) ≡ false = ground (arith, h.0) in
    rw set_ (ap (λ t. x ∷ t) (text-append xs ys h.1))

-- The string that `_int_out` hands on.
pub text-digits :
    (base v : ℕ)
    → let len = count_digits base 64 v in
      text (put_digits base 64 (set (replicate 64 0) len 0) len v) ≡ numeral base 64 v
unfolding text
text-digits base v =
    let len = count_digits base 64 v in
    let le = count_digits-le base 64 v in
    let all =
      put_digits-numeral base 64 (replicate 64 0) v
        (omega (arith, length-replicate {A = ℕ} 64 0)) in
    rw (set_zero 64 len) (
      ap text all
      ∙ text-append (numeral base 64 v) (drop len (replicate 64 0)) (numeral-NonZero base 64 v)
      ∙ ap (λ t. numeral base 64 v ++ t) (text-drop_zeros len 64)
      ∙ append-nil (numeral base 64 v))

pub count_digits-numeral : (base v : ℕ) → count_digits base 64 v ≡ length (numeral base 64 v)
count_digits-numeral base v = sym (length-numeral base 64 v)

-- Decimal digits, and what they spell on 32 bits.
abbrev Decimal : List ℕ → Type 0
Decimal [] = Unit {0}
Decimal (c ∷ s) = (b'0' ≤ c) × (c ≤ b'9') × Decimal s

abbrev value : List ℕ → ℕ → ℕ
value [] i = i
value (c ∷ s) i = value s ((i * 10 + (c - b'0')) % u32_mod)

Decimal-append : (xs ys : List ℕ) → Decimal xs → Decimal ys → Decimal (xs ++ ys)
Decimal-append [] ys h k = k
Decimal-append (x ∷ xs) ys h k = (h.0, h.1, Decimal-append xs ys h.2 k)

value-append : (xs ys : List ℕ) (i : ℕ) → value (xs ++ ys) i ≡ value ys (value xs i)
value-append [] ys i = refl
value-append (x ∷ xs) ys i = value-append xs ys _

digit-Decimal :
    (v : ℕ) → (b'0' ≤ digit (v % 10)) × (digit (v % 10) ≤ b'9') × (digit (v % 10) - b'0' ≡ v % 10)
unfolding digit
digit-Decimal v = ground arith

numeral-Decimal : (n v : ℕ) → Decimal (numeral 10 n v)
unfolding numeral
numeral-Decimal zero v = tt
numeral-Decimal (suc n) v =
    let d = digit-Decimal v in
    elim (Bool-cases (v / 10 == 0)) [
      | inl e ↦ rw e (d.0, d.1, tt)
      | inr e ↦
          rw e
            (Decimal-append (numeral 10 n (v / 10)) _ (numeral-Decimal n (v / 10)) (d.0, d.1, tt))
    ]

value-numeral : (n v : ℕ) → v < 10 ^ n → value (numeral 10 n v) 0 ≡ v % u32_mod
unfolding numeral
value-numeral zero v h = omega arith
value-numeral (suc n) v h =
    let d = (digit-Decimal v).2 in
    elim (Bool-cases (v / 10 == 0)) [
      | inl e ↦ let small : v / 10 ≡ 0 = ground arith in rw (e, d) (omega arith)
      | inr e ↦
          let ih = value-numeral n (v / 10) (omega (arith, pow-suc 10 n)) in
          rw (e, value-append (numeral 10 n (v / 10)) (digit (v % 10) ∷ []) 0, ih, d) (omega arith)
    ]

digits_from-value : (s : List ℕ) (i : ℕ) → Decimal s → digits_from (s ++ 0 ∷ []) i ≡ value s i
unfolding digits_from
digits_from-value [] i h = refl
digits_from-value (c ∷ s) i h =
    let lo : leb b'0' c ≡ true = ground (arith, h.0) in
    let hi : leb c b'9' ≡ true = ground (arith, h.1) in rw (lo, hi) (digits_from-value s _ h.2)

-- `atoi` of a text of decimal digits, of which there is one at least.
atoi-value : (s : List ℕ) → 0 < length s → Decimal s → atoi (s ++ 0 ∷ []) ≡ value s 0
unfolding atoi isspace
atoi-value [] p h = absurd (omega arith)
atoi-value (c ∷ s) p h =
    let solid : isspace c ≡ false = ground (arith, h.0) in rw solid (digits_from-value (c ∷ s) 0 h)

numeral-length : (base n v : ℕ) → 0 < length (numeral base (suc n) v)
unfolding numeral
numeral-length base n v = elim (Bool-cases (v / base == 0)) [
  | inl e ↦ rw e (omega arith)
  | inr e ↦ rw e (omega (arith, length-append (numeral base n (v / base)) (digit (v % base) ∷ [])))
]

-- `atoi` of the decimal digits of a number below 2 ^ 64 is the number modulo 2 ^ 32.
pub atoi-numeral : (v : ℕ) → v < 2 ^ 64 → atoi (numeral 10 64 v ++ 0 ∷ []) ≡ v % u32_mod
atoi-numeral v h =
    atoi-value (numeral 10 64 v) (numeral-length 10 63 v) (numeral-Decimal 64 v)
    ∙ value-numeral 64 v (omega arith)
