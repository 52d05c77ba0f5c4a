-- ===== src/PhysMem/Search.antt =====
-- What `_first_unmarked` finds: the lowest frame whose bit is clear.
use Prim.Native.Nat.{bit_and}
use model_lib.Common.{
  ℕ, zero, suc, ◌+◌, ◌-◌, ◌*◌, ◌/◌, ◌%◌, ◌^◌, ◌≤◌, ◌<◌, ◌≡◌, refl, ap, ◌∙◌, ◌⊎◌, true, false, inl,
  inr, List, Option, none, some, arith, Bool-cases, ltb, ◌==◌, get_or, u32_mod, ==_iff,
}
use model_lib.Common.Bits.{bit, bit-lt, bit-ones, bit_and-pow, pow-pos}
use model_lib.PhysMem.{no_frame, find_bit, frame_at, find_frame}

-- The mark of a frame in an index.
abbrev pub mark : List ℕ → ℕ → ℕ
mark idx frame = bit (get_or idx (frame / 32) 0) (frame % 32)

zero_or_one : (x : ℕ) → x < 2 → (x ≡ 0) ⊎ (x ≡ 1)
zero_or_one x h = ground arith

pub test-bit :
    (x b : ℕ)
    → ((bit_and x (2 ^ b) == 0) ≡ true → bit x b ≡ 0)
      × ((bit_and x (2 ^ b) == 0) ≡ false → bit x b ≡ 1)
test-bit x b = elim (zero_or_one (bit x b) (bit-lt x b)) [
  | inl z ↦
      let clear : bit_and x (2 ^ b) ≡ 0 = bit_and-pow x b ∙ ap (λ t. t * 2 ^ b) z ∙ omega arith in
      (λ _. z, λ h. absurd (ground arith))
  | inr o ↦
      let raised : bit_and x (2 ^ b) ≡ 2 ^ b =
        bit_and-pow x b ∙ ap (λ t. t * 2 ^ b) o ∙ omega arith in
      (λ h. absurd (ground (arith, pow-pos b)), λ _. o)
]

-- All bits of `word` from `j` up to `k` are set.
abbrev Ones : ℕ → ℕ → ℕ → Type 0
Ones word j k = (c : ℕ) → j ≤ c → c < k → bit word c ≡ 1

-- What the inner loop says when it stops.
abbrev Scanned : ℕ → ℕ → ℕ → Option ℕ → Type 0
Scanned word n j none = Ones word j (j + n)
Scanned word n j (some k) = (j ≤ k) × (k < j + n) × (bit word k ≡ 0) × Ones word j k

Ones-suc : (word j k : ℕ) → bit word j ≡ 1 → Ones word (suc j) k → Ones word j k
Ones-suc word j k e h c p q = elim (Bool-cases (c == j)) [
  | inl s ↦ let s' : c ≡ j = ground arith in rw s' e
  | inr d ↦ h c (ground arith) q
]

find_bit-Scanned : (word n j : ℕ) → Scanned word n j (find_bit word n j)
unfolding find_bit
find_bit-Scanned word zero j = λ c p q. absurd (omega arith)
find_bit-Scanned word (suc n) j = elim (Bool-cases (bit_and word (2 ^ j) == 0)) [
  | inl e ↦ rw e (omega arith, omega arith, (test-bit word j).0 e, λ c p q. absurd (omega arith))
  | inr e ↦
      rw e (go (find_bit word n (suc j)) (find_bit-Scanned word n (suc j)) ((test-bit word j).1 e))
]
  where
    go : (o : Option ℕ) → Scanned word n (suc j) o → bit word j ≡ 1 → Scanned word (suc n) j o
    go none h e = λ c p q. Ones-suc word j (suc j + n) e h c p (omega arith)
    go (some k) h e = (omega arith, omega arith, h.2, Ones-suc word j k e h.3)

-- All frames of `idx` from `lo` up to `hi` are marked.
abbrev pub Marked : List ℕ → ℕ → ℕ → Type 0
Marked idx lo hi = (g : ℕ) → lo ≤ g → g < hi → mark idx g ≡ 1

-- What the outer loop says when it stops.
abbrev pub Found : List ℕ → ℕ → ℕ → ℕ → Type 0
Found idx i n r =
    ((i * 32 ≤ r) × (r < (i + n) * 32) × (mark idx r ≡ 0) × Marked idx (i * 32) r)
    ⊎ ((r ≡ no_frame) × Marked idx (i * 32) ((i + n) * 32))

div_block : (g i : ℕ) → i * 32 ≤ g → g < i * 32 + 32 → (g / 32 ≡ i) × (g % 32 ≡ g - i * 32)
div_block g i p q = (omega arith, omega arith)

module _ (idx : List ℕ) where
  -- The marks of one word are the bits of it.
  Ones-Marked : (i k : ℕ) → k ≤ 32 → Ones (get_or idx i 0) 0 k → Marked idx (i * 32) (i * 32 + k)
  Ones-Marked i k h ones g p q =
      let at = div_block g i p (omega arith) in
      rw (at.0, at.1) (ones (g - i * 32) (omega arith) (omega arith))

  Marked-join : (lo mid hi : ℕ) → Marked idx lo mid → Marked idx mid hi → Marked idx lo hi
  Marked-join lo mid hi low high g p q = elim (Bool-cases (ltb g mid)) [
    | inl e ↦ low g p (ground arith)
    | inr e ↦ high g (ground arith) q
  ]

  full-Ones : Ones 0xffffffff 0 32
  full-Ones c p q = bit-ones 32 c q

  Found-suc :
      (i n r : ℕ) → Marked idx (i * 32) (suc i * 32) → Found idx (suc i) n r → Found idx i (suc n) r
  Found-suc i n r here (inl (lo, hi, clear, below)) =
      inl (omega arith, omega arith, clear, Marked-join (i * 32) (suc i * 32) r here below)
  Found-suc i n r here (inr (missing, all)) =
      inr (missing, λ g p q. Marked-join (i * 32) (suc i * 32) _ here all g p (omega arith))

  full-Marked : (i : ℕ) → Ones (get_or idx i 0) 0 32 → Marked idx (i * 32) (suc i * 32)
  full-Marked i ones g p q = Ones-Marked i 32 (omega arith) ones g p (omega arith)

  frame_at-Found :
      (i n rest : ℕ)
      → (i + suc n) * 32 ≤ no_frame
      → (Marked idx (i * 32) (suc i * 32) → Found idx i (suc n) rest)
      → (o : Option ℕ) → Scanned (get_or idx i 0) 32 0 o
      → Found idx i (suc n) (frame_at i rest o)
  unfolding frame_at
  frame_at-Found i n rest h later none ones = later (full-Marked i ones)
  frame_at-Found i n rest h later (some j) (lo, hi, clear, ones) =
      let here : (i * 32 + j) % u32_mod ≡ i * 32 + j = omega arith in
      let at = div_block (i * 32 + j) i (omega arith) (omega arith) in
      let place : (i * 32 + j) - i * 32 ≡ j = omega arith in
      rw here (
        inl (
          omega arith,
          omega arith,
          rw (at.0, at.1, place) clear,
          Ones-Marked i j (omega arith) ones,
        ))

  pub find_frame-Found :
      ((i : ℕ) → get_or idx i 0 < 2 ^ 32)
      → (n i : ℕ) → (i + n) * 32 ≤ no_frame
      → Found idx i n (find_frame idx n i)
  unfolding find_frame
  find_frame-Found fits zero i h = inr (refl, λ g p q. absurd (omega arith))
  find_frame-Found fits (suc n) i h =
      let rest = find_frame-Found fits n (suc i) (omega arith) in
      let later = λ (m : Marked idx (i * 32) (suc i * 32)). Found-suc i n _ m rest in
      elim (Bool-cases (get_or idx i 0 == 0xffffffff)) [
        | inl e ↦
            let word : get_or idx i 0 ≡ 0xffffffff = (==_iff _ _).0 e in
            rw e (later (full-Marked i (rw word full-Ones)))
        | inr e ↦ rw e (
            frame_at-Found i n _ h later (find_bit (get_or idx i 0) 32 0)
              (find_bit-Scanned (get_or idx i 0) 32 0))
      ]
