-- ===== src/HashTbl/Delete.antt =====
-- kernel/types/hash_tbl.c: `hash_tbl_delete`.
use native.Mathlib.Nat.{mod-lt}
use mathlib.Core.Path.{subst}
use model_lib.Common.{
  ℕ, ◌%◌, ◌<◌, ◌≤◌, ◌≡◌, ◌≢◌, ◌⊎◌, refl, sym, ap, ◌∙◌, inl, inr, true, false, some, List, ◌∷◌, ◌++◌,
  arith, if◌then◌else◌, ◌==◌, Bool-cases, length, length-append,
}
use model_lib.Ring.{Ptr, list_delete}
use model_lib.Ring.Joined.{Fresh, Distinct, Ring, list_delete-Ring}
use model_lib.Ring.Frame.{Apart, list_delete-Frame}
use model_lib.HashTbl.{
  HashTbl, Memory, bucket, hash_tbl_find, hash_tbl_delete, hash_tbl_delete_item, delete_found,
}
use model_lib.HashTbl.Find.{Keyed, Holds, first_with, hash_tbl_find_lem}
use model_lib.HashTbl.Change.{replaced}
use model_lib.HashTbl.Chain.{
  around, Keyed-unsplit, first_with-unsplit, Apart-unsplit, Apart-less, Distinct-Fresh, null-Fresh,
}

module _ (ht : HashTbl) (m : Memory) (chain : ℕ → List Ptr) (b : ℕ) (b-lt : b < ht.size)
    (h : Holds ht m chain) (xs : List Ptr) (p : Ptr) (ys : List Ptr)
    (cut : chain b ≡ xs ++ p ∷ ys) where
  abbrev pub less : ℕ → List Ptr
  less = replaced chain b (xs ++ ys)

  ring_here : Ring m.links (bucket ht b) (xs ++ p ∷ ys)
  ring_here = subst (Ring m.links (bucket ht b)) cut (h.ring b b-lt)

  less-ring : (i : ℕ) → i < ht.size → Ring (list_delete m.links p) (bucket ht i) (less i)
  less-ring i lt = elim (Bool-cases (i == b)) [
    | inl e ↦
        let at : i ≡ b = ground arith in
        rw e (
          subst (λ j. Ring (list_delete m.links p) (bucket ht j) (xs ++ ys)) (sym at)
            (list_delete-Ring m.links (bucket ht b) xs p ys ring_here))
    | inr e ↦
        let away = h.apart b i b-lt lt (λ q. absurd (ground arith)) in
        rw e (
          list_delete-Frame m.links (bucket ht b) xs p ys (bucket ht i) (chain i) ring_here
            (h.ring i lt) away.0 (subst (λ c. Apart c (bucket ht i ∷ chain i)) cut away.1))
  ]

  less-Keyed : (i : ℕ) → i < ht.size → Keyed m.keys ht.size i (less i)
  less-Keyed i lt = elim (Bool-cases (i == b)) [
    | inl e ↦
        let at : i ≡ b = ground arith in
        rw e (
          subst (λ j. Keyed m.keys ht.size j (xs ++ ys)) (sym at)
            (Keyed-unsplit m.keys ht.size b xs p ys
              (subst (Keyed m.keys ht.size b) cut (h.keyed b b-lt))))
    | inr e ↦ rw e (h.keyed i lt)
  ]

  less-Apart :
      (i j : ℕ)
      → i < ht.size
      → j < ht.size
      → i ≢ j
      → Apart (bucket ht i ∷ less i) (bucket ht j ∷ less j)
  less-Apart i j li lj ne = elim (Bool-cases (i == b)) [
    | inl e ↦
        let at : i ≡ b = ground arith in
        let other : (j == b) ≡ false = ground (arith, ne) in
        let a = h.apart i j li lj ne in
        let a' = subst (λ c. Apart c (bucket ht j ∷ chain j)) (ap chain at ∙ cut) a.1 in
        rw (e, other) (a.0, Apart-unsplit xs p ys (bucket ht j ∷ chain j) a')
    | inr e ↦ elim (Bool-cases (j == b)) [
      | inl f ↦
          let at : j ≡ b = ground arith in
          let a = h.apart i j li lj ne in
          let a' =
            subst (λ c. Apart (bucket ht i ∷ chain i) (bucket ht j ∷ c)) (ap chain at ∙ cut) a in
          rw (e, f) (Apart-less (bucket ht i ∷ chain i) (bucket ht j) xs p ys a')
      | inr f ↦ rw (e, f) (h.apart i j li lj ne)
    ]
  ]

  pub delete_item-Holds : Holds ht (hash_tbl_delete_item m p) less
  unfolding hash_tbl_delete_item
  delete_item-Holds = record {
    some_bucket = h.some_bucket;
    ring = less-ring;
    keyed = less-Keyed;
    apart = less-Apart;
  }

-- A table after the item `p` with this key, or NULL, has been taken out: the chains `left` hold no
-- `p` in its bucket, and every other key finds in them what it found before.
pub record Lacks (ht : HashTbl) (m t : Memory) (chain left : ℕ → List Ptr) (key : ℕ) (p : Ptr)
    : Type 0 where
  pub holds : Holds ht t left
  pub gone : Fresh p (left (key % ht.size))
  pub shorter : (i : ℕ) → length (left i) ≤ length (chain i)
  pub others :
      (k : ℕ)
      → k ≢ key
      → first_with t.keys k (left (k % ht.size)) ≡ first_with m.keys k (chain (k % ht.size))

-- How the table changes: not at all if nothing was found; else the item found, whose key is the one
-- searched for, leaves its chain, and every other chain and all keys stay.
abbrev pub Deletes :
    (ht : HashTbl) → (m t : Memory) → (chain left : ℕ → List Ptr) → (key : ℕ) → (p : Ptr) → Type 0
Deletes ht m t chain left key p =
    ((p ≡ 0) × (t ≡ m) × (left ≡ chain))
    ⊎ ((p ≢ 0)
        × (m.keys p ≡ key)
        × (t.keys ≡ m.keys)
        × (xs : List Ptr) × (ys : List Ptr) × (chain (key % ht.size) ≡ xs ++ p ∷ ys)
        × (left (key % ht.size) ≡ xs ++ ys)
        × ((i : ℕ) → i ≢ key % ht.size → left i ≡ chain i))

item-Deletes :
    (ht : HashTbl) (m : Memory) (chain : ℕ → List Ptr) (key : ℕ) (xs : List Ptr) (p : Ptr)
    (ys : List Ptr)
    → chain (key % ht.size) ≡ xs ++ p ∷ ys
    → m.keys p ≡ key
    → p ≢ 0
    → Deletes ht m
        (hash_tbl_delete_item m p)
        chain
        (replaced chain (key % ht.size) (xs ++ ys))
        key
        p
unfolding hash_tbl_delete_item
item-Deletes ht m chain key xs p ys cut at ne =
    let b = key % ht.size in
    let self : (b == b) ≡ true = ground arith in
    inr (
      ne,
      at,
      refl,
      xs,
      ys,
      cut,
      rw self refl,
      λ i apart. let other : (i == b) ≡ false = ground arith in rw other refl,
    )

nothing-Lacks :
    (ht : HashTbl) (m : Memory) (chain : ℕ → List Ptr) (key : ℕ)
    → Holds ht m chain
    → Lacks ht m m chain chain key 0
nothing-Lacks ht m chain key h =
    let lt = mod-lt key h.some_bucket in
    record {
      holds = h;
      gone = null-Fresh m.keys ht.size (key % ht.size) (chain (key % ht.size)) (h.keyed _ lt);
      shorter = λ i. omega arith;
      others = λ k ne. refl;
    }

item-Lacks :
    (ht : HashTbl) (m : Memory) (chain : ℕ → List Ptr) (key : ℕ)
    → Holds ht m chain
    → (xs : List Ptr) (p : Ptr) (ys : List Ptr) → chain (key % ht.size) ≡ xs ++ p ∷ ys
    → m.keys p ≡ key
    → Lacks ht m (hash_tbl_delete_item m p) chain (replaced chain (key % ht.size) (xs ++ ys)) key p
unfolding hash_tbl_delete_item
item-Lacks ht m chain key h xs p ys cut at =
    let b = key % ht.size in
    let lt = mod-lt key h.some_bucket in
    let self : (b == b) ≡ true = ground arith in
    let d = subst (λ c. Distinct c) cut (h.ring b lt).1.1 in
    record {
      holds = delete_item-Holds ht m chain b lt h xs p ys cut;
      gone = rw self (Distinct-Fresh xs p ys d);
      shorter = λ i. elim (Bool-cases (i == b)) [
        | inl e ↦
            let here : i ≡ b = ground arith in
            let same : length (chain i) ≡ length (xs ++ p ∷ ys) =
              ap (λ j. length (chain j)) here ∙ ap length cut in
            rw (e, same) (omega (arith, length-append xs ys, length-append xs (p ∷ ys)))
        | inr e ↦ rw e (omega arith)
      ];
      others = λ k ne. elim (Bool-cases (k % ht.size == b)) [
        | inl e ↦
            let here : k % ht.size ≡ b = ground arith in
            rw e (
              first_with-unsplit m.keys k xs p ys (λ q. ne (sym q ∙ at))
              ∙ ap (first_with m.keys k) (sym (ap chain here ∙ cut)))
        | inr e ↦ rw e refl
      ];
    }

delete-found :
    (fuel : ℕ) (ht : HashTbl) (m : Memory) (key : ℕ) (p : Ptr)
    → hash_tbl_find fuel ht m key ≡ some p
    → hash_tbl_delete fuel ht m key ≡ some (p, if p == 0 then m else hash_tbl_delete_item m p)
unfolding hash_tbl_delete
delete-found fuel ht m key p e = ap (delete_found m) e

-- `hash_tbl_delete` ends, with more fuel than there are items in the bucket of its key, and returns
-- what the search finds. That is NULL, and then nothing changes, or an item with this key, which then
-- leaves the chain of its bucket, while the other chains and the keys stay. The buckets are still
-- rings that share no address, and every other key finds what it found before.
pub hash_tbl_delete-Lacks :
    (fuel : ℕ) (ht : HashTbl) (m : Memory) (chain : ℕ → List Ptr) (key : ℕ)
    → Holds ht m chain
    → length (chain (key % ht.size)) < fuel
    → (p : Ptr) × (t : Memory) × (left : ℕ → List Ptr) × (hash_tbl_find fuel ht m key ≡ some p)
      × (hash_tbl_delete fuel ht m key ≡ some (p, t))
      × Deletes ht m t chain left key p
      × Lacks ht m t chain left key p
hash_tbl_delete-Lacks fuel ht m chain key h enough =
    let b = key % ht.size in
    let p = first_with m.keys key (chain b) in
    let find = hash_tbl_find_lem fuel ht m chain key h enough in
    let done = delete-found fuel ht m key p find in
    elim (around m.keys ht.size b key (chain b) (h.keyed b (mod-lt key h.some_bucket))) [
      | inl none_there ↦
          let null : (p == 0) ≡ true = ground arith in
          (
            p,
            m,
            chain,
            find,
            done ∙ rw null refl,
            inl (none_there, refl, refl),
            subst (Lacks ht m m chain chain key) (sym none_there) (nothing-Lacks ht m chain key h),
          )
      | inr (xs, ys, cut, at, ne) ↦
          let set_ : (p == 0) ≡ false = ground arith in
          (
            p,
            hash_tbl_delete_item m p,
            replaced chain b (xs ++ ys),
            find,
            done ∙ rw set_ refl,
            item-Deletes ht m chain key xs p ys cut at ne,
            item-Lacks ht m chain key h xs p ys cut at,
          )
    ]
