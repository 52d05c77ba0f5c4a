-- ===== src/Sched/Chain.antt =====
-- kernel/tasks/sched.c: the ready list as `_pop_first_ready` and `sched_task` keep it, where the last
-- thread's `next` pointer may lead anywhere: neither function clears it.
use model_lib.Common.{◌≡◌, ◌≢◌, refl, sym, ap, ◌∙◌, List, [], ◌∷◌, ◌++◌}
use model_lib.Sched.{Ptr, null, ready_to_run, Threads, update}
use model_lib.Sched.Queue.{Fresh, Fresh-append, update_ne, update_self}

-- From `first` to `last` the `next` pointers lead through exactly these threads, all different.
abbrev pub Chain : Threads → List Ptr → (first last : Ptr) → Type 0
Chain ts [] first last = ⊥
Chain ts (x ∷ []) first last = (first ≡ x) × (last ≡ x) × (x ≢ null)
Chain ts (x ∷ y ∷ r) first last =
    (first ≡ x) × (x ≢ null) × Fresh x (y ∷ r) × Chain ts (y ∷ r) (ts x).next last

pub Chain-first :
    (ts : Threads) (x : Ptr) (r : List Ptr) (first last : Ptr)
    → Chain ts (x ∷ r) first last
    → (first ≡ x) × (x ≢ null)
Chain-first ts x [] first last q = (q.0, q.2)
Chain-first ts x (y ∷ r) first last q = (q.0, q.1)

pub Chain-last :
    (ts : Threads) (x : Ptr) (r : List Ptr) (first last : Ptr)
    → Chain ts (x ∷ r) first last
    → last ≢ null
Chain-last ts x [] first last q e = q.2 (sym q.1 ∙ e)
Chain-last ts x (y ∷ r) first last q e = Chain-last ts y r _ last q.3 e

last-Chain-ne :
    (ts : Threads) (x y : Ptr) (r : List Ptr) (first last : Ptr)
    → Fresh x (y ∷ r)
    → Chain ts (y ∷ r) first last
    → last ≢ x
last-Chain-ne ts x y [] first last f q e = f.0 (sym (sym q.1 ∙ e))
last-Chain-ne ts x y (z ∷ r) first last f q e = last-Chain-ne ts x z r _ last f.1 q.3 e

pub Chain-append :
    (ts : Threads) (x : Ptr) (r : List Ptr) (th : Ptr) (first last : Ptr)
    → Chain ts (x ∷ r) first last
    → Fresh th (x ∷ r)
    → th ≢ null
    → Chain (update ts last (record (ts last) { next = th })) ((x ∷ r) ++ th ∷ []) first th
Chain-append ts x [] th first last q f ne =
    let t = record (ts last) { next = th } in
    (
      q.0,
      q.2,
      ((λ e. f.0 (sym e)), tt),
      (ap (λ u. u.next) (ap (update ts last t) (sym q.1) ∙ update_self ts last t), refl, ne),
    )
Chain-append ts x (y ∷ r) th first last q f ne =
    let t = record (ts last) { next = th } in
    let other : x ≢ last = λ e. last-Chain-ne ts x y r _ last q.2 q.3 (sym e) in
    let kept : (update ts last t x).next ≡ (ts x).next =
      ap (λ u. u.next) (update_ne ts last x t other) in
    (
      q.0,
      q.1,
      Fresh-append x (y ∷ r) th q.2 (λ e. f.0 (sym e)),
      rw kept (Chain-append ts y r th _ last q.3 f.1 ne),
    )

pub Chain-next :
    (ts us : Threads) (xs : List Ptr) (first last : Ptr)
    → ((p : Ptr) → (us p).next ≡ (ts p).next)
    → Chain ts xs first last
    → Chain us xs first last
Chain-next ts us [] first last same q = q
Chain-next ts us (x ∷ []) first last same q = q
Chain-next ts us (x ∷ y ∷ r) first last same q =
    (q.0, q.1, q.2, rw (same x) (Chain-next ts us (y ∷ r) (ts x).next last same q.3))

-- Every thread of the list is ready.
abbrev pub Ready : Threads → List Ptr → Type 0
Ready ts [] = Unit {0}
Ready ts (x ∷ xs) = ((ts x).state ≡ ready_to_run) × Ready ts xs

pub Ready-same :
    (ts us : Threads) (p : Ptr) (xs : List Ptr)
    → Fresh p xs
    → ((q : Ptr) → q ≢ p → (us q).state ≡ (ts q).state)
    → Ready ts xs
    → Ready us xs
Ready-same ts us p [] f same h = tt
Ready-same ts us p (x ∷ xs) f same h =
    (same x (λ e. f.0 (sym e)) ∙ h.0, Ready-same ts us p xs f.1 same h.1)

pub Ready-append :
    (ts : Threads) (xs : List Ptr) (p : Ptr)
    → Ready ts xs
    → (ts p).state ≡ ready_to_run
    → Ready ts (xs ++ p ∷ [])
Ready-append ts [] p h e = (e, tt)
Ready-append ts (x ∷ xs) p h e = (h.0, Ready-append ts xs p h.1 e)
