-- ===== src/Ring/Frame.antt =====
-- kernel/types/list.h: what insertion and removal leave alone, the rings that share no address.
use mathlib.Core.Path.{subst}
use model_lib.Common.{sym, List, [], ◌∷◌, ◌++◌}
use model_lib.Ring.{
  Ptr, Links, set_next, set_prev, list_add_between, list_add, list_delete_between,
  list_delete_entry, list_delete,
}
use model_lib.Ring.Joined.{Fresh, Joined, Ring, next-Joined, prev-Joined, Joined-split}

-- No address stands in both lists.
abbrev pub Apart : List Ptr → List Ptr → Type 0
Apart [] zs = Unit {0}
Apart (x ∷ xs) zs = Fresh x zs × Apart xs zs

-- A write at an address outside a ring.
next-Ring :
    (l : Links) (h : Ptr) (zs : List Ptr) (p v : Ptr)
    → Fresh p (h ∷ zs)
    → Ring l h zs
    → Ring (set_next l p v) h zs
next-Ring l h zs p v f r = (next-Joined l h zs h p v f.0 f.1 r.0, r.1)

prev-Ring :
    (l : Links) (h : Ptr) (zs : List Ptr) (p v : Ptr)
    → Fresh p (h ∷ zs)
    → Ring l h zs
    → Ring (set_prev l p v) h zs
prev-Ring l h zs p v f r = (prev-Joined l h zs h p v f.1 f.0 r.0, r.1)

first-Fresh :
    (l : Links) (a : Ptr) (xs : List Ptr) (b : Ptr) (zs : List Ptr)
    → Joined l a xs b
    → Apart xs zs
    → Fresh b zs
    → Fresh (l.next a) zs
first-Fresh l a [] b zs j f g = subst (λ p. Fresh p zs) (sym j.0) g
first-Fresh l a (x ∷ xs) b zs j f g = subst (λ p. Fresh p zs) (sym j.0) f.0

last-Fresh :
    (l : Links) (a : Ptr) (xs : List Ptr) (b : Ptr) (zs : List Ptr)
    → Joined l a xs b
    → Apart xs zs
    → Fresh a zs
    → Fresh (l.prev b) zs
last-Fresh l a [] b zs j f g = subst (λ p. Fresh p zs) (sym j.1) g
last-Fresh l a (x ∷ xs) b zs j f g = last-Fresh l x xs b zs j.2 f.1 f.0

pub list_add-Frame :
    (l : Links) (item head : Ptr) (xs : List Ptr) (h : Ptr) (zs : List Ptr)
    → Ring l head xs
    → Ring l h zs
    → Fresh item (h ∷ zs)
    → Fresh head (h ∷ zs)
    → Apart xs (h ∷ zs)
    → Ring (list_add l item head) h zs
unfolding list_add list_add_between
list_add-Frame l item head xs h zs r q fi fh fx =
    let n = l.next head in
    let fn = first-Fresh l head xs head (h ∷ zs) r.0 fx fh in
    let one = prev-Ring l h zs n item fn q in
    let two = next-Ring _ h zs item n fi one in
    let three = prev-Ring _ h zs item head fi two in next-Ring _ h zs head item fh three

Apart-split :
    (xs : List Ptr) (c : Ptr) (ys zs : List Ptr)
    → Apart (xs ++ c ∷ ys) zs
    → Apart xs zs × Fresh c zs × Apart ys zs
Apart-split [] c ys zs f = (tt, f.0, f.1)
Apart-split (x ∷ xs) c ys zs f = let k = Apart-split xs c ys zs f.1 in ((f.0, k.0), k.1, k.2)

pub list_delete-Frame :
    (l : Links) (head : Ptr) (xs : List Ptr) (item : Ptr) (ys : List Ptr) (h : Ptr) (zs : List Ptr)
    → Ring l head (xs ++ item ∷ ys)
    → Ring l h zs
    → Fresh head (h ∷ zs)
    → Apart (xs ++ item ∷ ys) (h ∷ zs)
    → Ring (list_delete l item) h zs
unfolding list_delete list_delete_entry list_delete_between
list_delete-Frame l head xs item ys h zs r q fh f =
    let cut = Joined-split l head xs item ys head r.0 in
    let a = Apart-split xs item ys (h ∷ zs) f in
    let p = l.prev item in
    let n = l.next item in
    let fp = last-Fresh l head xs item (h ∷ zs) cut.0 a.0 fh in
    let fn = first-Fresh l item ys head (h ∷ zs) cut.1 a.2 fh in
    let one = prev-Ring l h zs n p fn q in
    let two = next-Ring _ h zs p n fp one in
    let three = prev-Ring _ h zs item 0 a.1 two in next-Ring _ h zs item 0 a.1 three
