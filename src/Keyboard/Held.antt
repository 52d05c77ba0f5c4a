-- ===== src/Keyboard/Held.antt =====
-- drivers/keyboard/keyboard.c: the events that the ring holds, oldest first.
use model_lib.Common.{
  ℕ, zero, suc, ◌+◌, ◌-◌, ◌%◌, ◌<◌, ◌≡◌, ◌≢◌, refl, ap, ap₂, ◌∙◌, inl, inr, true, false, Option,
  some, List, [], ◌∷◌, ◌++◌, arith, if◌then◌else◌, ◌==◌, leb, Bool-cases, length, length-set,
  get_elem?, set, drop,
}
use model_lib.Keyboard.{Kb, KbEvent, put_event}

-- The indices are inside the ring, and a full ring has them meet.
pub record IsRing (k : Kb) : Type 0 where
  pub storage : length k.events ≡ 128
  pub head_in : k.events_head < 128
  pub tail_in : k.events_tail < 128
  pub full_meets : k.events_full ≡ true → k.events_head ≡ k.events_tail

abbrev count : Kb → ℕ
count k =
    if k.events_full
    then 128
    else if leb k.events_tail k.events_head
    then k.events_head - k.events_tail
    else k.events_head + 128 - k.events_tail

-- The `n` events from index `h` on, round the ring.
abbrev run : List KbEvent → (h n : ℕ) → List (Option KbEvent)
run es h zero = []
run es h (suc n) = get_elem? es h ∷ run es ((h + 1) % 128) n

unfoldable pub held : Kb → List (Option KbEvent)
held k = run k.events k.events_tail (count k)

-- The queue that drops its oldest event to take one more than 128.
abbrev pub queued : List (Option KbEvent) → KbEvent → List (Option KbEvent)
queued q e = (if length q == 128 then drop 1 q else q) ++ some e ∷ []

length-run : (es : List KbEvent) (h n : ℕ) → length (run es h n) ≡ n
length-run es h zero = refl
length-run es h (suc n) = ap suc (length-run es ((h + 1) % 128) n)

get_elem?-set_same :
    (es : List KbEvent) (i : ℕ) (e : KbEvent) → i < length es → get_elem? (set es i e) i ≡ some e
get_elem?-set_same [] i e h = absurd (omega arith)
get_elem?-set_same (x ∷ es) zero e h = refl
get_elem?-set_same (x ∷ es) (suc i) e h = get_elem?-set_same es i e (omega arith)

get_elem?-set_ne :
    (es : List KbEvent) (i j : ℕ) (e : KbEvent) → i ≢ j → get_elem? (set es i e) j ≡ get_elem? es j
get_elem?-set_ne [] i j e ne = refl
get_elem?-set_ne (x ∷ es) zero zero e ne = absurd (ne refl)
get_elem?-set_ne (x ∷ es) zero (suc j) e ne = refl
get_elem?-set_ne (x ∷ es) (suc i) zero e ne = refl
get_elem?-set_ne (x ∷ es) (suc i) (suc j) e ne = get_elem?-set_ne es i j e (λ p. ne (ap suc p))

-- A write behind the last event of a run adds to it.
run-set :
    (es : List KbEvent) (e : KbEvent) (n h i : ℕ)
    → length es ≡ 128
    → h < 128
    → n < 128
    → i ≡ (h + n) % 128
    → run (set es i e) h (suc n) ≡ run es h n ++ some e ∷ []
run-set es e zero h i size hh hn at =
    let here : i ≡ h = omega (arith, at) in
    rw here (ap (λ y. y ∷ []) (get_elem?-set_same es h e (omega (arith, size))))
run-set es e (suc n) h i size hh hn at =
    ap₂ ◌∷◌ (get_elem?-set_ne es i h e (λ p. absurd (omega (arith, at, p))))
      (run-set es e n ((h + 1) % 128) i size (omega arith) (omega arith) (omega (arith, at)))

count_put :
    (k : Kb) (e : KbEvent)
    → IsRing k
    → count (put_event k e) ≡ (if k.events_full then 128 else count k + 1)
unfolding put_event
count_put k e v = ground (arith, v.head_in, v.tail_in, v.full_meets)

pub put_event-IsRing : (k : Kb) (e : KbEvent) → IsRing k → IsRing (put_event k e)
unfolding put_event
put_event-IsRing k e v = record {
  storage = length-set k.events k.events_head e ∙ v.storage;
  head_in = omega arith;
  tail_in = ground (arith, v.tail_in);
  full_meets = λ h. ground (arith, h);
}

length-held : (k : Kb) → length (held k) ≡ count k
unfolding held
length-held k = length-run k.events k.events_tail (count k)

put_full :
    (k : Kb) (e : KbEvent)
    → IsRing k
    → k.events_full ≡ true
    → held (put_event k e) ≡ drop 1 (held k) ++ some e ∷ []
unfolding held put_event
put_full k e v full =
    let t = k.events_tail in
    let t-lt = v.tail_in in
    let meets = v.full_meets full in
    let n : count (put_event k e) ≡ 128 = count_put k e v ∙ rw full refl in
    rw (n, full)
      (run-set k.events e 127 ((t + 1) % 128) k.events_head v.storage (omega arith) (omega arith)
        (omega (arith, meets, t-lt)))

put_room :
    (k : Kb) (e : KbEvent)
    → IsRing k
    → k.events_full ≡ false
    → held (put_event k e) ≡ held k ++ some e ∷ []
unfolding held put_event
put_room k e v room =
    let n : count (put_event k e) ≡ suc (count k) = count_put k e v ∙ rw room (omega arith) in
    let kept : (put_event k e).events_tail ≡ k.events_tail = rw room refl in
    ap₂ (run (set k.events k.events_head e)) kept n
    ∙ run-set k.events e (count k) k.events_tail k.events_head v.storage v.tail_in
        (ground (arith, room, v.head_in, v.tail_in)) (ground (arith, room, v.head_in, v.tail_in))

-- `_put_event` adds its event to those held, and drops the oldest of 128.
pub put_event-queued : (k : Kb) (e : KbEvent) → IsRing k → held (put_event k e) ≡ queued (held k) e
put_event-queued k e v = elim (Bool-cases k.events_full) [
  | inl f ↦
      let size : length (held k) ≡ 128 = length-held k ∙ rw f refl in
      let at : (length (held k) == 128) ≡ true = ground (arith, size) in rw at (put_full k e v f)
  | inr f ↦
      let few : count k < 128 = ground (arith, f, v.head_in, v.tail_in) in
      let size : length (held k) < 128 = omega (arith, length-held k, few) in
      let at : (length (held k) == 128) ≡ false = ground (arith, size) in rw at (put_room k e v f)
]
