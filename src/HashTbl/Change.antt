-- ===== src/HashTbl/Change.antt =====
-- kernel/types/hash_tbl.c: adding and deleting items, as changes of what the search finds.
use native.Mathlib.Nat.{mod-lt}
use mathlib.Core.Path.{subst}
use model_lib.Common.{
  ℕ, ◌%◌, ◌<◌, ◌≡◌, ◌≢◌, refl, sym, ap, ◌∙◌, inl, inr, true, false, some, List, [], ◌∷◌, arith,
  if◌then◌else◌, ◌==◌, Bool-cases, length,
}
use model_lib.Ring.{Ptr, put, list_add}
use model_lib.Ring.Joined.{Fresh, Ring, list_add-Ring}
use model_lib.Ring.Frame.{Apart, list_add-Frame}
use model_lib.HashTbl.{HashTbl, Memory, hash_fn, bucket, hash_tbl_add, hash_tbl_find}
use model_lib.HashTbl.Find.{Keyed, Holds, first_with, hash_tbl_find_lem}

-- The chains with one put in the place of that of bucket `b`.
abbrev pub replaced : (ℕ → List Ptr) → (b : ℕ) → List Ptr → ℕ → List Ptr
replaced chain b xs i = if i == b then xs else chain i

Keyed-put :
    (keys : Ptr → ℕ) (size i : ℕ) (item k : ℕ) (xs : List Ptr)
    → Fresh item xs
    → Keyed keys size i xs
    → Keyed (put keys item k) size i xs
Keyed-put keys size i item k [] f h = tt
Keyed-put keys size i item k (x ∷ xs) f h =
    let other : (x == item) ≡ false = ground (arith, f.0) in
    (h.0, rw other h.1, Keyed-put keys size i item k xs f.1 h.2)

first_with-put :
    (keys : Ptr → ℕ) (item k key : ℕ) (xs : List Ptr)
    → Fresh item xs
    → first_with (put keys item k) key xs ≡ first_with keys key xs
first_with-put keys item k key [] f = refl
first_with-put keys item k key (x ∷ xs) f =
    let other : (x == item) ≡ false = ground (arith, f.0) in
    rw (other, first_with-put keys item k key xs f.1) refl

Apart-behind :
    (xs : List Ptr) (h item : Ptr) (zs : List Ptr)
    → Fresh item xs
    → Apart xs (h ∷ zs)
    → Apart xs (h ∷ item ∷ zs)
Apart-behind [] h item zs f a = tt
Apart-behind (x ∷ xs) h item zs f a =
    let ne : item ≢ x = f.0 in
    ((a.0.0, ((λ e. ne (sym e)), a.0.1)), Apart-behind xs h item zs f.1 a.1)

-- An item that is in no bucket.
abbrev pub IsNew : HashTbl → (ℕ → List Ptr) → Ptr → Type 0
IsNew ht chain item = (item ≢ 0) × ((i : ℕ) → i < ht.size → Fresh item (bucket ht i ∷ chain i))

module _ (ht : HashTbl) (m : Memory) (chain : ℕ → List Ptr) (key item : ℕ) (h : Holds ht m chain)
    (new : IsNew ht chain item) where
  abbrev b : ℕ
  b = key % ht.size

  b-lt : b < ht.size
  b-lt = mod-lt key h.some_bucket

  abbrev pub with_item : ℕ → List Ptr
  with_item = replaced chain b (item ∷ chain b)

  add-ring :
      (i : ℕ) → i < ht.size → Ring (hash_tbl_add ht m key item).links (bucket ht i) (with_item i)
  unfolding hash_tbl_add hash_fn
  add-ring i lt = elim (Bool-cases (i == b)) [
    | inl e ↦
        let at : i ≡ b = ground arith in
        rw e (
          subst (λ j. Ring (list_add m.links item (bucket ht b)) (bucket ht j) (item ∷ chain b))
            (sym at)
            (list_add-Ring m.links item (bucket ht b) (chain b) (new.1 b b-lt) (h.ring b b-lt)))
    | inr e ↦
        let away = h.apart b i b-lt lt (λ p. absurd (ground arith)) in
        rw e (
          list_add-Frame m.links item (bucket ht b) (chain b) (bucket ht i) (chain i)
            (h.ring b b-lt) (h.ring i lt) (new.1 i lt) away.0 away.1)
  ]

  add-Keyed :
      (i : ℕ) → i < ht.size → Keyed (hash_tbl_add ht m key item).keys ht.size i (with_item i)
  unfolding hash_tbl_add hash_fn
  add-Keyed i lt = elim (Bool-cases (i == b)) [
    | inl e ↦
        let at : i ≡ b = ground arith in
        let self : (item == item) ≡ true = ground arith in
        rw e (
          new.0,
          rw self (sym at),
          Keyed-put m.keys ht.size i item key (chain b) (new.1 b b-lt).1
              (subst (λ j. Keyed m.keys ht.size j (chain b)) (sym at) (h.keyed b b-lt)),
        )
    | inr e ↦ rw e (Keyed-put m.keys ht.size i item key (chain i) (new.1 i lt).1 (h.keyed i lt))
  ]

  add-Apart :
      (i j : ℕ)
      → i < ht.size
      → j < ht.size
      → i ≢ j
      → Apart (bucket ht i ∷ with_item i) (bucket ht j ∷ with_item j)
  add-Apart i j li lj ne = elim (Bool-cases (i == b)) [
    | inl e ↦
        let at : i ≡ b = ground arith in
        let other : (j == b) ≡ false = ground (arith, ne) in
        let a = h.apart i j li lj ne in
        let a' : Apart (chain b) (bucket ht j ∷ chain j) =
          subst (λ k. Apart (chain k) (bucket ht j ∷ chain j)) at a.1 in
        rw (e, other) (a.0, (new.1 j lj, a'))
    | inr e ↦ elim (Bool-cases (j == b)) [
      | inl f ↦
          let at : j ≡ b = ground arith in
          let a = h.apart i j li lj ne in
          let a' : Apart (bucket ht i ∷ chain i) (bucket ht j ∷ chain b) =
            subst (λ k. Apart (bucket ht i ∷ chain i) (bucket ht j ∷ chain k)) at a in
          rw (e, f)
            (Apart-behind (bucket ht i ∷ chain i) (bucket ht j) item (chain b) (new.1 i li) a')
      | inr f ↦ rw (e, f) (h.apart i j li lj ne)
    ]
  ]

  -- `hash_tbl_add` of an item in no bucket puts it in front of the chain of its key's bucket.
  pub hash_tbl_add-Holds : Holds ht (hash_tbl_add ht m key item) with_item
  hash_tbl_add-Holds = record {
    some_bucket = h.some_bucket;
    ring = add-ring;
    keyed = add-Keyed;
    apart = add-Apart;
  }

  first_with-item :
      (k : ℕ)
      → first_with (hash_tbl_add ht m key item).keys k (with_item (k % ht.size))
        ≡ (if k == key then item else first_with m.keys k (chain (k % ht.size)))
  unfolding hash_tbl_add
  first_with-item k =
      let kept =
        first_with-put m.keys item key k (chain (k % ht.size))
          (new.1 (k % ht.size) (mod-lt k h.some_bucket)).1 in
      let self : (item == item) ≡ true = ground arith in
      elim (Bool-cases (k == key)) [
        | inl e ↦
            let at : k ≡ key = ground arith in
            let here : (k % ht.size == b) ≡ true =
              let same : k % ht.size ≡ b = ap (λ n. n % ht.size) at in ground (arith, same) in
            let mine : (key == k) ≡ true = ground arith in rw (here, self, mine, e) refl
        | inr e ↦
            let mine : (key == k) ≡ false = ground arith in
            elim (Bool-cases (k % ht.size == b)) [
              | inl f ↦
                  let at : k % ht.size ≡ b = ground arith in
                  let kept' =
                    subst
                      (λ c.
                        first_with (put m.keys item key) k (chain c)
                        ≡ first_with m.keys k (chain c))
                      at kept in
                  rw (f, self, mine, e) (kept' ∙ ap (λ c. first_with m.keys k (chain c)) (sym at))
              | inr f ↦ rw (f, e) kept
            ]
      ]

  -- The search after `hash_tbl_add` of an item in no bucket ends, with more fuel than there are items
  -- in its bucket, and gives the new item for its key, and for every other key what it gave before.
  pub find-hash_tbl_add :
      (fuel k : ℕ)
      → length (with_item (k % ht.size)) < fuel
      → length (chain (k % ht.size)) < fuel
      → (old : Ptr) × (hash_tbl_find fuel ht m k ≡ some old)
        × (hash_tbl_find fuel ht (hash_tbl_add ht m key item) k
            ≡ some (if k == key then item else old))
  find-hash_tbl_add fuel k more enough = (
    first_with m.keys k (chain (k % ht.size)),
    hash_tbl_find_lem fuel ht m chain k h enough,
    hash_tbl_find_lem fuel ht (hash_tbl_add ht m key item) with_item k hash_tbl_add-Holds more
        ∙ ap some (first_with-item k),
  )
