-- ===== src/HashTbl/Chain.antt =====
-- kernel/types/hash_tbl.c: an item in a chain, and the chain without it.
use model_lib.Common.{
  ℕ, ◌≡◌, ◌≢◌, ◌⊎◌, refl, sym, ap, inl, inr, false, List, [], ◌∷◌, ◌++◌, arith, ◌==◌, Bool-cases,
}
use model_lib.Ring.{Ptr}
use model_lib.Ring.Joined.{Fresh, Distinct, Fresh-split, Fresh-unsplit}
use model_lib.Ring.Frame.{Apart}
use model_lib.HashTbl.Find.{Keyed, first_with}

-- A chain around the item that the search finds.
abbrev pub Around : (keys : Ptr → ℕ) → (key : ℕ) → List Ptr → Type 0
Around keys key zs =
    (xs : List Ptr) × (ys : List Ptr) × (zs ≡ xs ++ first_with keys key zs ∷ ys)
    × (keys (first_with keys key zs) ≡ key)
    × (first_with keys key zs ≢ 0)

pub around :
    (keys : Ptr → ℕ) (size i key : ℕ) (zs : List Ptr)
    → Keyed keys size i zs
    → (first_with keys key zs ≡ 0) ⊎ Around keys key zs
around keys size i key [] h = inl refl
around keys size i key (x ∷ zs) h = elim (Bool-cases (keys x == key)) [
  | inl e ↦ let at : keys x ≡ key = ground arith in inr (rw e ([], zs, refl, at, h.0))
  | inr e ↦ rw e (further (around keys size i key zs h.2))
]
  where
    further :
        (first_with keys key zs ≡ 0) ⊎ Around keys key zs
        → (first_with keys key zs ≡ 0)
          ⊎ ((xs : List Ptr) × (ys : List Ptr) × (x ∷ zs ≡ xs ++ first_with keys key zs ∷ ys)
              × (keys (first_with keys key zs) ≡ key)
              × (first_with keys key zs ≢ 0))
    further (inl e) = inl e
    further (inr (xs, ys, e, k, ne)) = inr (x ∷ xs, ys, ap (λ l. x ∷ l) e, k, ne)

pub Keyed-unsplit :
    (keys : Ptr → ℕ) (size i : ℕ) (xs : List Ptr) (p : Ptr) (ys : List Ptr)
    → Keyed keys size i (xs ++ p ∷ ys)
    → Keyed keys size i (xs ++ ys)
Keyed-unsplit keys size i [] p ys h = h.2
Keyed-unsplit keys size i (x ∷ xs) p ys h = (h.0, h.1, Keyed-unsplit keys size i xs p ys h.2)

pub first_with-unsplit :
    (keys : Ptr → ℕ) (key : ℕ) (xs : List Ptr) (p : Ptr) (ys : List Ptr)
    → keys p ≢ key
    → first_with keys key (xs ++ ys) ≡ first_with keys key (xs ++ p ∷ ys)
first_with-unsplit keys key [] p ys ne =
    let other : (keys p == key) ≡ false = ground arith in rw other refl
first_with-unsplit keys key (x ∷ xs) p ys ne = rw (first_with-unsplit keys key xs p ys ne) refl

pub Apart-unsplit :
    (xs : List Ptr) (p : Ptr) (ys zs : List Ptr) → Apart (xs ++ p ∷ ys) zs → Apart (xs ++ ys) zs
Apart-unsplit [] p ys zs a = a.1
Apart-unsplit (x ∷ xs) p ys zs a = (a.0, Apart-unsplit xs p ys zs a.1)

pub Apart-less :
    (ws : List Ptr) (q : Ptr) (xs : List Ptr) (p : Ptr) (ys : List Ptr)
    → Apart ws (q ∷ xs ++ p ∷ ys)
    → Apart ws (q ∷ xs ++ ys)
Apart-less [] q xs p ys a = tt
Apart-less (w ∷ ws) q xs p ys a =
    ((a.0.0, Fresh-unsplit w xs p ys a.0.1), Apart-less ws q xs p ys a.1)

pub Distinct-Fresh :
    (xs : List Ptr) (p : Ptr) (ys : List Ptr) → Distinct (xs ++ p ∷ ys) → Fresh p (xs ++ ys)
Distinct-Fresh [] p ys d = d.0
Distinct-Fresh (x ∷ xs) p ys d =
    let apart = (Fresh-split x xs p ys d.0).1 in ((λ e. apart (sym e)), Distinct-Fresh xs p ys d.1)

pub null-Fresh : (keys : Ptr → ℕ) (size i : ℕ) (xs : List Ptr) → Keyed keys size i xs → Fresh 0 xs
null-Fresh keys size i [] h = tt
null-Fresh keys size i (x ∷ xs) h =
    let ne : x ≢ 0 = h.0 in ((λ e. ne (sym e)), null-Fresh keys size i xs h.2)
