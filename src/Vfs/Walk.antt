-- ===== src/Vfs/Walk.antt =====
-- kernel/vfs/vfs.c: where the walk along a path ends.
use model_lib.Common.{
  ℕ, zero, suc, ◌<◌, ◌≡◌, ◌≢◌, refl, sym, ap, ◌∙◌, inl, inr, true, false, Option, none, some, List,
  [], ◌∷◌, arith, if◌then◌else◌, ◌==◌, Bool-cases, get_or, set, drop,
}
use model_lib.CString.{strlen, strchr}
use model_lib.CString.Copy.{text}
use model_lib.CString.Find.{First, strchr-First}
use model_lib.Vfs.{
  Ptr, Nodes, Found, fs_is_dir, fs_find_child, call_find, leaf, beyond, at_sep, get_node,
}
use model_lib.Vfs.Cut.{push, names, text_end, text_more, names-cut, names_whole}

abbrev ask : Option (List ℕ → Ptr) → List ℕ → Ptr
ask none name = 0
ask (some f) name = f name

-- The child of a name: NULL for a node that is no directory, and for one that cannot be searched.
unfoldable pub child : Nodes → Ptr → List ℕ → Ptr
unfolding fs_is_dir
child ns n name = if fs_is_dir (ns n) then ask (ns n).find_child name else 0

-- The node that the names lead to, NULL as soon as there is none.
unfoldable pub follow : Nodes → Ptr → List (List ℕ) → Ptr
unfolding child
follow ns n [] = n
follow ns n (x ∷ xs) =
    let c = child ns n x in let rest = follow ns c xs in if c == 0 then 0 else rest

-- All names but the last.
unfoldable pub init : List (List ℕ) → List (List ℕ)
init [] = []
init (x ∷ []) = []
init (x ∷ y ∷ ys) = x ∷ init (y ∷ ys)

-- The node that the names lead to, and with it, if it is one, the node that all but the last lead to.
abbrev pub LedTo : Nodes → Ptr → List (List ℕ) → Found → Type 0
LedTo ns n xs r = (r.0 ≡ follow ns n xs) × (r.0 ≢ 0 → r.1 ≡ some (follow ns n (init xs)))

fs_find_child-child :
    (ns : Nodes) (n : Ptr) (name : List ℕ) → fs_find_child ns n name ≡ child ns n (text name)
unfolding fs_find_child child
fs_find_child-child ns n name = go (ns n).find_child
  where
    go :
        (f : Option (List ℕ → Ptr))
        → (if fs_is_dir (ns n) then call_find f name else 0)
          ≡ (if fs_is_dir (ns n) then ask f (text name) else 0)
    go none = refl
    go (some f) = refl

last-LedTo :
    (ns : Nodes) (n c : Ptr) (x : List ℕ) (o : Option Ptr)
    → c ≡ child ns n x
    → (c ≢ 0 → o ≡ some n)
    → LedTo ns n (x ∷ []) (c, o)
unfolding follow init
last-LedTo ns n c x o e h = elim (Bool-cases (child ns n x == 0)) [
  | inl z ↦ rw z (ground (arith, z), h)
  | inr z ↦ rw z (e, h)
]

parent_if : (n c : Ptr) → c ≢ 0 → (if c == 0 then none else some n) ≡ some n
parent_if n c h = ground arith

follow-through :
    (ns : Nodes) (n c : Ptr) (x : List ℕ) (xs : List (List ℕ))
    → c ≡ child ns n x
    → (c == 0) ≡ false
    → follow ns n (x ∷ xs) ≡ follow ns c xs
unfolding follow
follow-through ns n c x xs e z = rw (sym e, z) refl

follow_null :
    (ns : Nodes) (n c : Ptr) (x : List ℕ) (xs : List (List ℕ))
    → c ≡ child ns n x
    → (c == 0) ≡ true
    → follow ns n (x ∷ xs) ≡ 0
unfolding follow
follow_null ns n c x xs e z = rw (sym e, z) refl

-- One name more in front.
behind-LedTo :
    (ns : Nodes) (n c : Ptr) (x y : List ℕ) (ys : List (List ℕ)) (r : Found)
    → c ≡ child ns n x
    → (c == 0) ≡ false
    → LedTo ns c (y ∷ ys) r
    → LedTo ns n (x ∷ y ∷ ys) r
unfolding init
behind-LedTo ns n c x y ys r e z h = (
  h.0 ∙ sym (follow-through ns n c x (y ∷ ys) e z),
  λ p. h.1 p ∙ ap some (sym (follow-through ns n c x (init (y ∷ ys)) e z)),
)

names_nil : names [] ≡ []
unfolding names
names_nil = refl

names_shape : (c : ℕ) (s : List ℕ) → (y : List ℕ) × (ys : List (List ℕ)) × (names (c ∷ s) ≡ y ∷ ys)
unfolding names
names_shape c s = elim (Bool-cases (c == b'/')) [
  | inl e ↦ rw e ([], _, refl)
  | inr e ↦ rw e (go (names s))
]
  where
    go : (l : List (List ℕ)) → (y : List ℕ) × (ys : List (List ℕ)) × (push c l ≡ y ∷ ys)
    go [] = (_, _, refl)
    go (x ∷ xs) = (_, _, refl)

behind_names-LedTo :
    (ns : Nodes) (n c : Ptr) (x : List ℕ) (s : List ℕ) (r : Found)
    → c ≡ child ns n x
    → (c == 0) ≡ false
    → (d : ℕ) × (t : List ℕ) × (s ≡ d ∷ t)
    → LedTo ns c (names s) r
    → LedTo ns n (x ∷ names s) r
behind_names-LedTo ns n c x s r e z (d, t, cons) h =
    let (y, ys, at) = names_shape d t in
    let at' : names s ≡ y ∷ ys = ap names cons ∙ at in
    rw at' (behind-LedTo ns n c x y ys r e z (rw at' at h))

-- The two branches of `_get_node`.
get_node-leaf :
    (fuel : ℕ) (ns : Nodes) (n : Ptr) (path : List ℕ)
    → strchr path b'/' ≡ none
    → get_node (suc fuel) ns n path ≡ some (leaf n (fs_find_child ns n path))
unfolding get_node
get_node-leaf fuel ns n path at = ap (λ o. at_sep o ns n path (get_node fuel ns)) at

get_node-beyond :
    (fuel : ℕ) (ns : Nodes) (n : Ptr) (path : List ℕ) (i : ℕ)
    → strchr path b'/' ≡ some i
    → get_node (suc fuel) ns n path
      ≡ beyond n
          (fs_find_child ns n (set path i 0))
          (drop (suc i) path)
          (get_node fuel ns (fs_find_child ns n (set path i 0)) (drop (suc i) path))
unfolding get_node
get_node-beyond fuel ns n path i at = ap (λ o. at_sep o ns n path (get_node fuel ns)) at

beyond_end :
    (n sub : Ptr) (sep : List ℕ) (rest : Option Found)
    → (get_or sep 0 0 == 0) ≡ true
    → beyond n sub sep rest ≡ some (sub, some n)
beyond_end n sub sep rest e = rw e refl

beyond_null :
    (n sub : Ptr) (sep : List ℕ) (rest : Option Found)
    → (get_or sep 0 0 == 0) ≡ false
    → (sub == 0) ≡ true
    → beyond n sub sep rest ≡ some (0, none)
beyond_null n sub sep rest e z = rw (e, z) refl

beyond_rest :
    (n sub : Ptr) (sep : List ℕ) (rest : Option Found)
    → (get_or sep 0 0 == 0) ≡ false
    → (sub == 0) ≡ false
    → beyond n sub sep rest ≡ rest
beyond_rest n sub sep rest e z = rw (e, z) refl

strlen-drop : (s : List ℕ) (k : ℕ) → k < strlen s → strlen (drop (suc k) s) < strlen s
unfolding strlen
strlen-drop [] k h = absurd (ground arith)
strlen-drop (c ∷ s) zero h = ground arith
strlen-drop (c ∷ s) (suc k) h = elim (Bool-cases (c == 0)) [
  | inl e ↦ absurd (ground arith)
  | inr e ↦ let ih = strlen-drop s k (ground arith) in rw e (omega (arith, ih))
]

-- `_get_node` on a path that is not empty, with fuel for its bytes, ends: it gives the node that
-- the path's names lead to, from directory to directory, and NULL as soon as a name is not found.
-- With a node it gives, as its parent, the node that all names but the last lead to.
pub get_node-LedTo :
    (fuel : ℕ) (ns : Nodes) (n : Ptr) (path : List ℕ)
    → 0 < strlen path
    → strlen path < fuel
    → (r : Found) × (get_node fuel ns n path ≡ some r) × LedTo ns n (names (text path)) r
unfolding get_node
get_node-LedTo zero ns n path pos enough = absurd (omega arith)
get_node-LedTo (suc fuel) ns n path pos enough =
    go (strchr path b'/') refl (strchr-First path b'/' pos) (get_node-LedTo fuel ns)
  where
    go :
        (o : Option ℕ)
        → strchr path b'/' ≡ o
        → First path b'/' 0 o
        → (walks : (n : Ptr) (path : List ℕ)
            → 0 < strlen path
            → strlen path < fuel
            → (r : Found) × (get_node fuel ns n path ≡ some r) × LedTo ns n (names (text path)) r)
        → (r : Found) × (get_node (suc fuel) ns n path ≡ some r) × LedTo ns n (names (text path)) r
    go none at h walks =
        let c = fs_find_child ns n path in
        (
          leaf n c,
          get_node-leaf fuel ns n path at,
          rw (names_whole path pos h)
              (last-LedTo ns n c (text path) _ (fs_find_child-child ns n path) (parent_if n c)),
        )
    go (some i) at (m, im, inside, here, before) walks =
        let same : i ≡ m = omega (arith, im) in
        let x = set path i 0 in
        let c = fs_find_child ns n x in
        let found = fs_find_child-child ns n x in
        let sep = drop (suc i) path in
        let cut = names-cut path i (rw same inside) (rw same here) (rw same before) in
        let at' = get_node-beyond fuel ns n path i at in
        elim (Bool-cases (get_or sep 0 0 == 0)) [
          | inl e ↦ (
            (c, some n),
            at' ∙ beyond_end n c sep _ e,
            rw (cut, ap names (text_end sep e) ∙ names_nil)
                (last-LedTo ns n c (text x) _ found (λ p. refl)),
          )
          | inr e ↦
              let (pos', d, t, cons) = text_more sep e in
              rw cut (elim (Bool-cases (c == 0)) [
                | inl z ↦ (
                  (0, none),
                  at' ∙ beyond_null n c sep _ e z,
                  (sym (follow_null ns n c (text x) _ found z), λ p. absurd (p refl)),
                )
                | inr z ↦
                    let (r, runs, led) =
                      walks c sep pos'
                        (omega (arith, enough, strlen-drop path i (rw same inside))) in
                    (
                      r,
                      at' ∙ beyond_rest n c sep _ e z ∙ runs,
                      behind_names-LedTo ns n c (text x) (text sep) r found z (d, t, cons) led,
                    )
              ])
        ]
