-- ===== src/Cbuff/Refine.antt =====
-- A valid circular buffer behaves as the dropping queue of the elements that it holds.
use native.Mathlib.Nat.{mod_self, mod-eq_of_lt, mod-add-mod, mod-eq-sub-mod}
use native.Mathlib.Decide.{dec_lt}
use model_lib.Common.{
  ℕ, zero, suc, ◌+◌, ◌-◌, ◌%◌, ◌^◌, ◌≤◌, ◌<◌, ◌≡◌, ◌≢◌, ◌⊎◌, refl, sym, ap, ap₂, ◌∙◌, inl, inr,
  true, false, none, some, List, [], ◌∷◌, ◌++◌, arith, if◌then◌else◌, Bool-cases, ◌==◌, length,
  get_or, get_elem?, set, drop, get_elem?-eq-get_or, get_or-set_self, get_or-set_ne,
}
use model_lib.Cbuff.{Cbuff, next, put, empty, get, count, capacity}
use model_lib.Cbuff.Inv.{IsValid, stored, head-stored, plus_mod}
use model_lib.Cbuff.Queue

-- The `n` elements found from index `h` on, round a storage of `len`.
abbrev pub segment : List ℕ → ℕ → ℕ → ℕ → List ℕ
segment buff len h zero = []
segment buff len h (suc n) = get_or buff h 0 ∷ segment buff len ((h + 1) % len) n

abbrev pub contents : Cbuff → List ℕ
contents b = segment b.buff b.len b.tail (stored b)

length-segment : (buff : List ℕ) (len h n : ℕ) → length (segment buff len h n) ≡ n
length-segment buff len h zero = refl
length-segment buff len h (suc n) = ap suc (length-segment buff len ((h + 1) % len) n)

pub length-contents : (b : Cbuff) → length (contents b) ≡ stored b
length-contents b = length-segment b.buff b.len b.tail (stored b)

segment-pred :
    (buff : List ℕ) (len h n : ℕ)
    → 0 < n
    → segment buff len h n ≡ get_or buff h 0 ∷ segment buff len ((h + 1) % len) (n - 1)
segment-pred buff len h zero p = absurd (omega arith)
segment-pred buff len h (suc n) p =
    ap (λ k. get_or buff h 0 ∷ segment buff len ((h + 1) % len) k) (omega arith)

-- Going on by less than the whole round never comes back to the start.
turn-ne : (len h k : ℕ) → h < len → 0 < k → k < len → (h + k) % len ≢ h
turn-ne len h k hh hp hk = elim (dec_lt (h + k) len) [
  | yes p ↦ omega (arith, mod-eq_of_lt p)
  | no p ↦ omega (
    arith,
    mod-eq-sub-mod {n = h + k} {m = len} (omega arith),
    mod-eq_of_lt {n = h + k - len} {m = len} (omega arith),
  )
]

turn_step : (len h n : ℕ) → (h + suc n) % len ≡ ((h + 1) % len + n) % len
turn_step len h n = rw mod-add-mod (ap (λ k. k % len) (omega arith))

-- Writing behind the last element of a segment appends to it.
segment-set :
    (buff : List ℕ) (len x n h i : ℕ)
    → len ≤ length buff
    → h < len
    → n < len
    → i ≡ (h + n) % len
    → segment (set buff i x) len h (suc n) ≡ segment buff len h n ++ x ∷ []
segment-set buff len x zero h i s hh hn e =
    let e' : i ≡ h = e ∙ ap (λ k. k % len) (omega arith) ∙ mod-eq_of_lt hh in
    rw e' (ap (λ y. y ∷ []) (get_or-set_self buff h x 0 (omega arith)))
segment-set buff len x (suc n) h i s hh hn e =
    let apart : i ≢ h = λ p. turn-ne len h (suc n) hh (omega arith) hn (sym e ∙ p) in
    ap₂ ◌∷◌ (get_or-set_ne buff i h x 0 apart) (
      segment-set buff len x n ((h + 1) % len) i s (omega arith) (omega arith)
        (e ∙ turn_step len h n))

module _ {b : Cbuff} (v : IsValid b) where
  next-eq : (i : ℕ) → i < b.len → next b i ≡ (i + 1) % b.len
  next-eq i h = ap (λ k. k % b.len) (omega arith)

  next-cases :
      (i : ℕ)
      → i < b.len
      → ((i + 1 ≡ b.len) × (next b i ≡ 0)) ⊎ ((i + 1 < b.len) × (next b i ≡ i + 1))
  next-cases i h = elim (dec_lt (i + 1) b.len) [
    | yes p ↦ inr (p, next-eq i h ∙ mod-eq_of_lt p)
    | no p ↦ let e : i + 1 ≡ b.len = omega arith in inl (e, next-eq i h ∙ rw e (mod_self b.len))
  ]

  stored-put : (w x : ℕ) → stored (put w b x) ≡ (if b.full then b.len else stored b + 1)
  unfolding put
  stored-put w x = ground (arith, next-cases b.head v.head_in, next-cases b.tail v.tail_in)

  stored-pos : empty b ≡ false → 0 < stored b
  unfolding empty
  stored-pos e = ground arith

  stored-zero : empty b ≡ true → stored b ≡ 0
  unfolding empty
  stored-zero e = ground arith

  stored-get : empty b ≡ false → stored (get b).1 ≡ stored b - 1
  unfolding get
  stored-get e = ground (arith, next-cases b.tail v.tail_in)

  stored-lt : b.full ≡ false → stored b < b.len
  stored-lt e = ground arith

  contents-put_room :
      (w x : ℕ) → b.full ≡ false → contents (put w b x) ≡ contents b ++ (x % 2 ^ w) ∷ []
  unfolding put
  contents-put_room w x e =
      let y = x % 2 ^ w in
      let count : stored (put w b x) ≡ suc (stored b) = stored-put w x ∙ rw e (omega arith) in
      let kept : (put w b x).tail ≡ b.tail = rw e in
      ap₂ (λ t n. segment (set b.buff b.head y) b.len t n) kept count
      ∙ segment-set b.buff b.len y (stored b) b.tail b.head v.storage v.tail_in (stored-lt e)
          (head-stored v)

  contents_full :
      b.full ≡ true
      → contents b ≡ get_or b.buff b.tail 0 ∷ segment b.buff b.len (next b b.tail) (b.len - 1)
  contents_full e = rw e (
      segment-pred b.buff b.len b.tail b.len v.some_room
      ∙ ap (λ t. get_or b.buff b.tail 0 ∷ segment b.buff b.len t (b.len - 1))
          (sym (next-eq b.tail v.tail_in)))

  -- The element after a full round is the one before the tail.
  full_round : b.full ≡ true → b.head ≡ (next b b.tail + (b.len - 1)) % b.len
  full_round e =
      v.full_meets e
      ∙ sym (plus_mod b.tail b.len v.tail_in)
      ∙ ap (λ k. (b.tail + k) % b.len) {x = b.len} {y = suc (b.len - 1)} (omega arith)
      ∙ turn_step b.len b.tail (b.len - 1)
      ∙ ap (λ t. (t + (b.len - 1)) % b.len) (sym (next-eq b.tail v.tail_in))

  contents-put_full :
      (w x : ℕ) → b.full ≡ true → contents (put w b x) ≡ drop 1 (contents b) ++ (x % 2 ^ w) ∷ []
  unfolding put
  contents-put_full w x e =
      let y = x % 2 ^ w in
      let t = next b b.tail in
      let count : stored (put w b x) ≡ suc (b.len - 1) = stored-put w x ∙ rw e (omega arith) in
      let moved : (put w b x).tail ≡ t = rw e in
      let inside : t < b.len = omega (arith, next-cases b.tail v.tail_in) in
      ap₂ (λ t n. segment (set b.buff b.head y) b.len t n) moved count
      ∙ segment-set b.buff b.len y (b.len - 1) t b.head v.storage inside (omega arith)
          (full_round e)
      ∙ ap (λ q. drop 1 q ++ y ∷ []) (sym (contents_full e))

  -- `cbuff8_put` on a valid buffer appends its element, and drops the oldest one exactly when the
  -- buffer is full: it does what the dropping queue of capacity `len` does.
  pub put_refines : (w x : ℕ) → contents (put w b x) ≡ Queue.put w b.len (contents b) x
  unfolding Queue.put
  put_refines w x = elim (Bool-cases b.full) [
    | inl e ↦
        let size : length (contents b) ≡ b.len = length-contents b ∙ rw e in
        let at : (length (contents b) == b.len) ≡ true = ground (arith, size) in
        rw at (contents-put_full w x e)
    | inr e ↦
        let size : length (contents b) < b.len = omega (arith, length-contents b, stored-lt e) in
        let at : (length (contents b) == b.len) ≡ false = ground (arith, size) in
        rw at (contents-put_room w x e)
  ]

  get-none : empty b ≡ true → get b ≡ (none, b)
  unfolding get
  get-none e = rw (e, empty)

  -- The buffer that `get` leaves when it has an element to give.
  abbrev after : Cbuff
  after = record b { full = false; tail = next b b.tail }

  get-some : empty b ≡ false → get b ≡ (some (get_elem? b.buff b.tail), after)
  unfolding get
  get-some e = rw (e, empty)

  contents-after :
      empty b ≡ false → contents after ≡ segment b.buff b.len ((b.tail + 1) % b.len) (stored b - 1)
  contents-after e =
      ap₂ (segment b.buff b.len) (next-eq b.tail v.tail_in) (rw (get-some e) at (stored-get e))

  oldest : get_elem? b.buff b.tail ≡ some (get_or b.buff b.tail 0)
  oldest = get_elem?-eq-get_or b.buff b.tail 0 (omega arith)

  -- `cbuff8_get` on a valid buffer returns false and changes nothing when no element is held;
  -- otherwise it stores the oldest element in `*val` and removes that one.
  pub get_refines : let (out, b') = get b in (out, contents b') ≡ Queue.get (contents b)
  unfolding Queue.get
  get_refines = elim (Bool-cases (empty b)) [
    | inl e ↦ rw (get-none e, stored-zero e)
    | inr e ↦
        rw (get-some e, segment-pred b.buff b.len b.tail (stored b) (stored-pos e))
          (ap₂ (λ o q. (some o, q)) oldest (contents-after e))
  ]

  -- `cbuff8_count` is the number of elements held, except on an empty buffer, where it is the
  -- capacity.
  pub count_lem : count b ≡ (if empty b then capacity b else length (contents b))
  unfolding count empty capacity
  count_lem = ground (arith, length-contents b)
