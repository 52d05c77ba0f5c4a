-- ===== src/CString/Find.antt =====
-- What the searches find.
use model_lib.Common.{
  ℕ, zero, suc, ◌+◌, ◌-◌, ◌≤◌, ◌<◌, ◌≡◌, ◌≢◌, refl, inl, inr, true, false, Option, none, some, List,
  [], ◌∷◌, arith, Bool-cases, ◌==◌, get_or,
}
use model_lib.CString.{strlen, strchr, strchr_from, strrchr, strrchr_down}

-- What a search for the last place from `n` down to 1 may find.
abbrev Last : List ℕ → (ch n : ℕ) → Option ℕ → Type 0
Last str ch n none = (j : ℕ) → 0 < j → j ≤ n → get_or str j 0 ≢ ch
Last str ch n (some i) =
    (0 < i) × (i ≤ n) × (get_or str i 0 ≡ ch) × ((j : ℕ) → i < j → j ≤ n → get_or str j 0 ≢ ch)

-- One more place without the byte.
further :
    (n i : ℕ) (str : List ℕ) (ch : ℕ)
    → ((j : ℕ) → i < j → j ≤ n → get_or str j 0 ≢ ch)
    → get_or str (suc n) 0 ≢ ch
    → (j : ℕ) → i < j
    → j ≤ suc n
    → get_or str j 0 ≢ ch
further n i str ch below here j p q = elim (Bool-cases (j == suc n)) [
  | inl e ↦ let at : j ≡ suc n = ground arith in rw at here
  | inr e ↦ below j p (ground arith)
]

strrchr_down-Last : (str : List ℕ) (ch n : ℕ) → Last str ch n (strrchr_down str ch n)
unfolding strrchr_down
strrchr_down-Last str ch zero = λ j p q. absurd (omega arith)
strrchr_down-Last str ch (suc n) = elim (Bool-cases (get_or str (suc n) 0 == ch)) [
  | inl e ↦ rw e (omega arith, omega arith, ground arith, λ j p q. absurd (omega arith))
  | inr e ↦
      rw e (go (strrchr_down str ch n) (strrchr_down-Last str ch n) (λ p. absurd (ground arith)))
]
  where
    go : (o : Option ℕ) → Last str ch n o → get_or str (suc n) 0 ≢ ch → Last str ch (suc n) o
    go none h ne = further n 0 str ch h ne
    go (some i) h ne = (h.0, omega (arith, h.1), h.2, further n i str ch h.3 ne)

-- What a search of a string for the last place behind its first byte may find.
abbrev pub LastBehindFirst : List ℕ → ℕ → Option ℕ → Type 0
LastBehindFirst str ch none = (j : ℕ) → 0 < j → j < strlen str → get_or str j 0 ≢ ch
LastBehindFirst str ch (some i) =
    (0 < i)
    × (i < strlen str)
    × (get_or str i 0 ≡ ch)
    × ((j : ℕ) → i < j → j < strlen str → get_or str j 0 ≢ ch)

behind_first :
    (str : List ℕ) (ch : ℕ) (o : Option ℕ)
    → 0 < strlen str
    → Last str ch (strlen str - 1) o
    → LastBehindFirst str ch o
behind_first str ch none pos h = λ j p q. h j p (omega arith)
behind_first str ch (some i) pos h = (h.0, omega (arith, h.1), h.2, λ j p q. h.3 j p (omega arith))

-- `strrchr` finds the last place of the byte in the string, but never looks at the first byte: it
-- reports no place exactly when the byte stands at no other place than the first.
pub strrchr-LastBehindFirst : (str : List ℕ) (ch : ℕ) → LastBehindFirst str ch (strrchr str ch)
unfolding strrchr
strrchr-LastBehindFirst str ch = elim (Bool-cases (strlen str == 0)) [
  | inl e ↦ rw e (λ j p q. absurd (ground arith))
  | inr e ↦ rw e (
      behind_first str ch (strrchr_down str ch (strlen str - 1)) (ground arith)
        (strrchr_down-Last str ch (strlen str - 1)))
]

-- What a search for the first place, counted from `i`, may find.
abbrev pub First : List ℕ → (ch i : ℕ) → Option ℕ → Type 0
First s ch i none = (j : ℕ) → j < strlen s → get_or s j 0 ≢ ch
First s ch i (some k) =
    (m : ℕ) × (k ≡ i + m)
    × (m < strlen s)
    × (get_or s m 0 ≡ ch)
    × ((j : ℕ) → j < m → get_or s j 0 ≢ ch)

pub strlen-cons : (c : ℕ) (s : List ℕ) → 0 < strlen (c ∷ s) → strlen (c ∷ s) ≡ suc (strlen s)
unfolding strlen
strlen-cons c s h = ground arith

strlen_nil : 0 < strlen [] → ⊥
unfolding strlen
strlen_nil h = omega arith

pub strlen_head : (s : List ℕ) → (get_or s 0 0 == 0) ≡ true → strlen s ≡ 0
unfolding strlen
strlen_head [] h = refl
strlen_head (c ∷ s) h = rw h

pub strlen_pos : (s : List ℕ) → (get_or s 0 0 == 0) ≡ false → 0 < strlen s
unfolding strlen
strlen_pos [] h = absurd (ground arith)
strlen_pos (c ∷ s) h = rw h (omega arith)

First-cons :
    (c : ℕ) (s : List ℕ) (ch i : ℕ) (o : Option ℕ)
    → c ≢ ch
    → strlen (c ∷ s) ≡ suc (strlen s)
    → First s ch (suc i) o
    → First (c ∷ s) ch i o
First-cons c s ch i none ne len h = later
  where
    later : (j : ℕ) → j < strlen (c ∷ s) → get_or (c ∷ s) j 0 ≢ ch
    later zero p = ne
    later (suc j) p = h j (omega arith)
First-cons c s ch i (some k) ne len (m, at, inside, found, before) =
    (suc m, omega arith, omega arith, found, first)
  where
    first : (j : ℕ) → j < suc m → get_or (c ∷ s) j 0 ≢ ch
    first zero p = ne
    first (suc j) p = before j (omega arith)

strchr_from-First : (s : List ℕ) (ch i : ℕ) → 0 < strlen s → First s ch i (strchr_from s ch i)
unfolding strchr_from
strchr_from-First [] ch i h = absurd (strlen_nil h)
strchr_from-First (c ∷ s) ch i h =
    let len = strlen-cons c s h in
    elim (Bool-cases (c == ch)) [
      | inl e ↦ rw e (0, omega arith, h, ground arith, λ j p. absurd (omega arith))
      | inr e ↦
          let ne : c ≢ ch = λ p. absurd (ground arith) in
          elim (Bool-cases (get_or s 0 0 == 0)) [
            | inl z ↦
                let short : strlen s ≡ 0 = strlen_head s z in
                rw (e, z) (First-cons c s ch i none ne len (λ j p. absurd (omega arith)))
            | inr z ↦
                rw (e, z)
                  (First-cons c s ch i _ ne len (strchr_from-First s ch (suc i) (strlen_pos s z)))
          ]
    ]

-- On a string that is not empty, `strchr` finds the first place of the byte before the terminator,
-- or no place when it stands at none.
pub strchr-First : (s : List ℕ) (ch : ℕ) → 0 < strlen s → First s ch 0 (strchr s ch)
unfolding strchr
strchr-First s ch h = strchr_from-First s ch 0 h

-- On an empty string `strchr` goes past the terminator, and finds the byte that stands behind it.
pub strchr_past_end : (c : ℕ) (s : List ℕ) → c ≢ 0 → strchr (0 ∷ c ∷ s) c ≡ some 1
unfolding strchr strchr_from
strchr_past_end c s h = ground arith
