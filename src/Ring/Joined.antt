-- ===== src/Ring/Joined.antt =====
-- kernel/types/list.h: a ring as the sequence of its items, through insertion and removal.
use mathlib.Core.Path.{subst}
use model_lib.Common.{◌≡◌, ◌≢◌, sym, ◌∙◌, true, false, List, [], ◌∷◌, ◌++◌, arith}
use model_lib.Ring.{
  Ptr, Links, put, set_next, set_prev, init_list_head, list_add_between, list_add,
  list_delete_between, list_delete_entry, list_delete, list_empty,
}

-- `p` is none of these addresses.
abbrev pub Fresh : Ptr → List Ptr → Type 0
Fresh p [] = Unit {0}
Fresh p (x ∷ xs) = (p ≢ x) × Fresh p xs

abbrev pub Distinct : List Ptr → Type 0
Distinct [] = Unit {0}
Distinct (x ∷ xs) = Fresh x xs × Distinct xs

-- From `a` the `next` pointers lead through `xs` to `b`, and the `prev` pointers back.
abbrev pub Joined : Links → Ptr → List Ptr → Ptr → Type 0
Joined l a [] b = (l.next a ≡ b) × (l.prev b ≡ a)
Joined l a (x ∷ xs) b = (l.next a ≡ x) × (l.prev x ≡ a) × Joined l x xs b

-- The ring of `head` holds exactly the items `xs`.
abbrev pub Ring : Links → Ptr → List Ptr → Type 0
Ring l head xs = Joined l head xs head × Distinct (head ∷ xs)

put_self : (f : Ptr → Ptr) (p v : Ptr) → put f p v p ≡ v
put_self f p v = ground arith

put_ne : (f : Ptr → Ptr) (p v q : Ptr) → q ≢ p → put f p v q ≡ f q
put_ne f p v q h = ground arith

pub init-Ring : (l : Links) (head : Ptr) → Ring (init_list_head l head) head []
unfolding init_list_head
init-Ring l head = ((put_self l.next head head, put_self l.prev head head), (tt, tt))

-- A write of `next` elsewhere than at `a` and the items keeps a join.
pub next-Joined :
    (l : Links) (a : Ptr) (xs : List Ptr) (b p v : Ptr)
    → p ≢ a
    → Fresh p xs
    → Joined l a xs b
    → Joined (set_next l p v) a xs b
next-Joined l a [] b p v h f j = (put_ne l.next p v a (λ e. h (sym e)) ∙ j.0, j.1)
next-Joined l a (x ∷ xs) b p v h f j =
    (put_ne l.next p v a (λ e. h (sym e)) ∙ j.0, j.1, next-Joined l x xs b p v f.0 f.1 j.2)

-- A write of `prev` elsewhere than at the items and `b`.
pub prev-Joined :
    (l : Links) (a : Ptr) (xs : List Ptr) (b p v : Ptr)
    → Fresh p xs
    → p ≢ b
    → Joined l a xs b
    → Joined (set_prev l p v) a xs b
prev-Joined l a [] b p v f h j = (j.0, put_ne l.prev p v b (λ e. h (sym e)) ∙ j.1)
prev-Joined l a (x ∷ xs) b p v f h j =
    (j.0, put_ne l.prev p v x (λ e. f.0 (sym e)) ∙ j.1, prev-Joined l x xs b p v f.1 h j.2)

pub Joined-append :
    (l : Links) (a : Ptr) (xs : List Ptr) (c : Ptr) (ys : List Ptr) (b : Ptr)
    → Joined l a xs c
    → Joined l c ys b
    → Joined l a (xs ++ c ∷ ys) b
Joined-append l a [] c ys b j k = (j.0, j.1, k)
Joined-append l a (x ∷ xs) c ys b j k = (j.0, j.1, Joined-append l x xs c ys b j.2 k)

pub Joined-split :
    (l : Links) (a : Ptr) (xs : List Ptr) (c : Ptr) (ys : List Ptr) (b : Ptr)
    → Joined l a (xs ++ c ∷ ys) b
    → Joined l a xs c × Joined l c ys b
Joined-split l a [] c ys b j = ((j.0, j.1), j.2)
Joined-split l a (x ∷ xs) c ys b j =
    let k = Joined-split l x xs c ys b j.2 in ((j.0, j.1, k.0), k.1)

-- The rest of a ring, from its first item on, through an insertion behind the head.
list_add-rest :
    (l : Links) (item head n : Ptr) (ys : List Ptr)
    → Fresh item (head ∷ n ∷ ys)
    → Fresh head (n ∷ ys)
    → Fresh n ys
    → Joined l n ys head
    → Joined (list_add_between l item head n) n ys head
unfolding list_add_between
list_add-rest l item head n ys f h d j =
    let one = prev-Joined l n ys head n item d (λ e. h.0 (sym e)) j in
    let two = next-Joined _ n ys head item n f.1.0 f.1.1 one in
    let three = prev-Joined _ n ys head item head f.1.1 f.0 two in
    next-Joined _ n ys head head item h.0 h.1 three

-- `list_add` puts an item that is not in the ring at its start.
pub list_add-Ring :
    (l : Links) (item head : Ptr) (xs : List Ptr)
    → Fresh item (head ∷ xs)
    → Ring l head xs
    → Ring (list_add l item head) head (item ∷ xs)
unfolding list_add list_add_between
list_add-Ring l item head [] f r =
    let apart : item ≢ head = f.0 in
    subst (λ n. Ring (list_add_between l item head n) head (item ∷ [])) (sym r.0.0)
      (
        (ground arith, ground arith, (ground arith, ground arith)),
        (((λ e. apart (sym e)), tt), (tt, tt)),
      )
list_add-Ring l item head (x ∷ xs) f r =
    let apart : item ≢ head = f.0 in
    let other : item ≢ x = f.1.0 in
    let away : head ≢ x = r.1.0.0 in
    let rest = list_add-rest l item head x xs f r.1.0 r.1.1.0 r.0.2 in
    subst (λ n. Ring (list_add_between l item head n) head (item ∷ x ∷ xs)) (sym r.0.0)
      (
        (ground arith, ground arith, (ground arith, ground arith, rest)),
        (((λ e. apart (sym e)), r.1.0), (f.1, r.1.1)),
      )

prev-ne :
    (l : Links) (a x : Ptr) (xs : List Ptr) (b q : Ptr)
    → Fresh q (x ∷ xs)
    → Joined l a (x ∷ xs) b
    → l.prev b ≢ q
prev-ne l a x [] b q f j = λ e. f.0 (sym e ∙ j.2.1)
prev-ne l a x (y ∷ xs) b q f j = prev-ne l x y xs b q f.1 j.2

next-ne :
    (l : Links) (a : Ptr) (xs : List Ptr) (b q : Ptr)
    → Fresh q xs
    → q ≢ b
    → Joined l a xs b
    → l.next a ≢ q
next-ne l a [] b q f h j e = h (sym e ∙ j.0)
next-ne l a (x ∷ xs) b q f h j e = f.0 (sym e ∙ j.0)

pub Fresh-split :
    (p : Ptr) (xs : List Ptr) (c : Ptr) (ys : List Ptr)
    → Fresh p (xs ++ c ∷ ys)
    → Fresh p xs × (p ≢ c) × Fresh p ys
Fresh-split p [] c ys f = (tt, f.0, f.1)
Fresh-split p (x ∷ xs) c ys f = let k = Fresh-split p xs c ys f.1 in ((f.0, k.0), k.1, k.2)

-- What `list_delete` leaves, with the neighbours that it finds.
abbrev unlinked : Links → (item p n : Ptr) → Links
unlinked l item p n = set_next (set_prev (list_delete_between l p n) item 0) item 0

-- Past the item that is taken out.
unlinked-behind :
    (l : Links) (a item : Ptr) (ys : List Ptr) (b : Ptr)
    → a ≢ item
    → Fresh a ys
    → Fresh item ys
    → Distinct ys
    → Fresh b ys
    → item ≢ b
    → Joined l item ys b
    → Joined (unlinked l item a (l.next item)) a ys b
unfolding list_delete_between
unlinked-behind l a item [] b ai fa fi d fb ib j =
    subst (λ n. Joined (unlinked l item a n) a [] b) (sym j.0) (ground arith, ground arith)
unlinked-behind l a item (y ∷ ys) b ai fa fi d fb ib j =
    let one = prev-Joined l y ys b y a d.0 (λ e. fb.0 (sym e)) j.2 in
    let two = next-Joined (set_prev l y a) y ys b a y fa.0 fa.1 one in
    let three = prev-Joined (list_delete_between l a y) y ys b item 0 fi.1 ib two in
    let away : a ≢ y = fa.0 in
    let apart : item ≢ y = fi.0 in
    subst (λ n. Joined (unlinked l item a n) a (y ∷ ys) b) (sym j.0)
      (
        ground arith,
        ground arith,
        next-Joined (set_prev (list_delete_between l a y) item 0) y ys b item 0 apart fi.1 three,
      )

unlinked-Joined :
    (l : Links) (a : Ptr) (xs : List Ptr) (item : Ptr) (ys : List Ptr) (b : Ptr)
    → Distinct (a ∷ xs ++ item ∷ ys)
    → Fresh b (xs ++ item ∷ ys)
    → Joined l a xs item
    → Joined l item ys b
    → Joined (unlinked l item (l.prev item) (l.next item)) a (xs ++ ys) b
unfolding list_delete_between
unlinked-Joined l a [] item ys b d f j k =
    subst (λ p. Joined (unlinked l item p (l.next item)) a ys b) (sym j.1)
      (unlinked-behind l a item ys b d.0.0 d.0.1 d.1.0 d.1.1 f.1 (λ e. f.0 (sym e)) k)
unlinked-Joined l a (x ∷ xs) item ys b d f j k =
    let fa = Fresh-split a (x ∷ xs) item ys d.0 in
    let fx = Fresh-split x xs item ys d.1.0 in
    let before = prev-ne l a x xs item a fa.0 j in
    let behind = next-ne l item ys b x fx.2 (λ e. f.0 (sym e)) k in
    let ai : a ≢ item = fa.1 in
    let xi : x ≢ item = fx.1 in
    let na : l.next a ≡ x = j.0 in
    let px : l.prev x ≡ a = j.1 in
    (ground arith, ground arith, unlinked-Joined l x xs item ys b d.1 f.1 j.2 k)

pub Fresh-unsplit :
    (p : Ptr) (xs : List Ptr) (c : Ptr) (ys : List Ptr)
    → Fresh p (xs ++ c ∷ ys)
    → Fresh p (xs ++ ys)
Fresh-unsplit p [] c ys f = f.1
Fresh-unsplit p (x ∷ xs) c ys f = (f.0, Fresh-unsplit p xs c ys f.1)

Distinct-unsplit :
    (xs : List Ptr) (c : Ptr) (ys : List Ptr) → Distinct (xs ++ c ∷ ys) → Distinct (xs ++ ys)
Distinct-unsplit [] c ys d = d.1
Distinct-unsplit (x ∷ xs) c ys d = (Fresh-unsplit x xs c ys d.0, Distinct-unsplit xs c ys d.1)

-- `list_delete` takes an item out of its ring, and leaves the others in their order.
pub list_delete-Ring :
    (l : Links) (head : Ptr) (xs : List Ptr) (item : Ptr) (ys : List Ptr)
    → Ring l head (xs ++ item ∷ ys)
    → Ring (list_delete l item) head (xs ++ ys)
unfolding list_delete list_delete_entry
list_delete-Ring l head xs item ys r =
    let cut = Joined-split l head xs item ys head r.0 in
    (
      unlinked-Joined l head xs item ys head r.1 r.1.0 cut.0 cut.1,
      Distinct-unsplit (head ∷ xs) item ys r.1,
    )

-- A ring is empty exactly when it has no items.
pub list_empty-eq :
    (l : Links) (head : Ptr) (xs : List Ptr)
    → Ring l head xs
    → list_empty l head ≡ (elim xs [ [] ↦ true | _ ∷ _ ↦ false ])
unfolding list_empty
list_empty-eq l head [] r = let e : l.next head ≡ head = r.0.0 in ground arith
list_empty-eq l head (x ∷ xs) r =
    let e : l.next head ≡ x = r.0.0 in let apart : head ≢ x = r.1.0.0 in ground arith
