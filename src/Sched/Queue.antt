-- ===== src/Sched/Queue.antt =====
-- The ready list as a queue of threads.
use model_lib.Common.{
  ◌≡◌, ◌≢◌, refl, sym, ap, ◌∙◌, inl, inr, true, false, List, [], ◌∷◌, ◌++◌, arith, if◌then◌else◌,
  Bool-cases, ◌==◌,
}
use model_lib.Sched.{Ptr, null, Thread, Threads, update}

-- `p` is none of the threads of a list.
abbrev pub Fresh : Ptr → List Ptr → Type 0
Fresh p [] = Unit {0}
Fresh p (x ∷ xs) = (p ≢ x) × Fresh p xs

-- From `first` to `last` the `next` pointers lead through exactly these threads, all different, and
-- the last one's is NULL.
abbrev pub IsQueue : Threads → List Ptr → (first last : Ptr) → Type 0
IsQueue ts [] first last = (first ≡ null) × (last ≡ null)
IsQueue ts (x ∷ []) first last = (first ≡ x) × (last ≡ x) × (x ≢ null) × ((ts x).next ≡ null)
IsQueue ts (x ∷ y ∷ r) first last =
    (first ≡ x) × (x ≢ null) × Fresh x (y ∷ r) × IsQueue ts (y ∷ r) (ts x).next last

-- The last pointer of a queue that is not empty is one of its threads.
last-ne :
    (ts : Threads) (x y : Ptr) (r : List Ptr) (first last : Ptr)
    → Fresh x (y ∷ r)
    → IsQueue ts (y ∷ r) first last
    → last ≢ x
last-ne ts x y [] first last f q e = f.0 (sym (sym q.1 ∙ e))
last-ne ts x y (z ∷ r) first last f q e = last-ne ts x z r _ last f.1 q.3 e

pub update_ne : (ts : Threads) (p q : Ptr) (t : Thread) → q ≢ p → update ts p t q ≡ ts q
update_ne ts p q t h = ground arith

pub update_self : (ts : Threads) (p : Ptr) (t : Thread) → update ts p t p ≡ t
update_self ts p t = ground arith

pub first-ne-null :
    (ts : Threads) (x : Ptr) (r : List Ptr) (first last : Ptr)
    → IsQueue ts (x ∷ r) first last
    → (first ≡ x) × (x ≢ null)
first-ne-null ts x [] first last q = (q.0, q.2)
first-ne-null ts x (y ∷ r) first last q = (q.0, q.1)

pub last-ne-null :
    (ts : Threads) (x : Ptr) (r : List Ptr) (first last : Ptr)
    → IsQueue ts (x ∷ r) first last
    → last ≢ null
last-ne-null ts x [] first last q e = q.2 (sym q.1 ∙ e)
last-ne-null ts x (y ∷ r) first last q e = last-ne-null ts y r _ last q.3 e

-- Taking the first thread off leaves the queue of the others.
pub IsQueue-tail :
    (ts : Threads) (x : Ptr) (r : List Ptr) (first last : Ptr)
    → IsQueue ts (x ∷ r) first last
    → IsQueue ts r (ts first).next (if (ts first).next == null then null else last)
IsQueue-tail ts x [] first last q =
    let end : (ts first).next ≡ null = ap (λ p. (ts p).next) q.0 ∙ q.3 in
    let test : ((ts first).next == null) ≡ true = ground arith in (end, rw test)
IsQueue-tail ts x (y ∷ r) first last q =
    let same : (ts first).next ≡ (ts x).next = ap (λ p. (ts p).next) q.0 in
    let next = first-ne-null ts y r _ last q.3 in
    let test : ((ts x).next == null) ≡ false = ground arith in rw (same, test) q.3

pub Fresh-append :
    (p : Ptr) (xs : List Ptr) (th : Ptr) → Fresh p xs → p ≢ th → Fresh p (xs ++ th ∷ [])
Fresh-append p [] th f ne = (ne, tt)
Fresh-append p (x ∷ xs) th f ne = (f.0, Fresh-append p xs th f.1 ne)

-- Linking a fresh thread behind the last one appends it.
pub IsQueue-append :
    (ts : Threads) (x : Ptr) (r : List Ptr) (th : Ptr) (first last : Ptr)
    → IsQueue ts (x ∷ r) first last
    → Fresh th (x ∷ r)
    → th ≢ null
    → (ts th).next ≡ null
    → IsQueue (update ts last (record (ts last) { next = th })) ((x ∷ r) ++ th ∷ []) first th
IsQueue-append ts x [] th first last q f ne end =
    let t = record (ts last) { next = th } in
    let apart : th ≢ last = λ e. f.0 (e ∙ q.1) in
    (
      q.0,
      q.2,
      ((λ e. f.0 (sym e)), tt),
      (
        ap (λ u. u.next) (ap (update ts last t) (sym q.1) ∙ update_self ts last t),
        refl,
        ne,
        ap (λ u. u.next) (update_ne ts last th t apart) ∙ end,
      ),
    )
IsQueue-append ts x (y ∷ r) th first last q f ne end =
    let t = record (ts last) { next = th } in
    let other : x ≢ last = λ e. last-ne ts x y r _ last q.2 q.3 (sym e) in
    let kept : (update ts last t x).next ≡ (ts x).next =
      ap (λ u. u.next) (update_ne ts last x t other) in
    (
      q.0,
      q.1,
      Fresh-append x (y ∷ r) th q.2 (λ e. f.0 (sym e)),
      rw kept (IsQueue-append ts y r th _ last q.3 f.1 ne end),
    )

-- A queue depends on the `next` pointers alone.
pub IsQueue-next :
    (ts us : Threads) (xs : List Ptr) (first last : Ptr)
    → ((p : Ptr) → (us p).next ≡ (ts p).next)
    → IsQueue ts xs first last
    → IsQueue us xs first last
IsQueue-next ts us [] first last same q = q
IsQueue-next ts us (x ∷ []) first last same q = (q.0, q.1, q.2, same x ∙ q.3)
IsQueue-next ts us (x ∷ y ∷ r) first last same q =
    (q.0, q.1, q.2, rw (same x) (IsQueue-next ts us (y ∷ r) (ts x).next last same q.3))

-- A write that keeps a thread's successor.
pub update-next :
    (ts : Threads) (p : Ptr) (t : Thread)
    → t.next ≡ (ts p).next
    → (q : Ptr) → (update ts p t q).next ≡ (ts q).next
update-next ts p t h q = elim (Bool-cases (q == p)) [
  | inl e ↦ let at : q ≡ p = ground arith in rw (e, at) h
  | inr e ↦ rw e
]
