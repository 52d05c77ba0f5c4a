-- ===== src/Keyboard/Read.antt =====
-- Where `_read_keyboard` writes the events that it takes.
use model_lib.Common.{
  ℕ, zero, suc, ◌+◌, ◌*◌, ◌≡◌, sym, ap, ap₂, ◌∙◌, Option, List, [], ◌∷◌, ◌++◌, arith, inl, inr,
  Option-cases,
}
use mathlib.Core.List.{append_assoc, append-nil, map, map-append}
use model_lib.Keyboard.{
  Kb, KbEvent, Reading, done, blocked, event_size, get_event, read_loop, read_keyboard,
}

abbrev pub offsets : List (ℕ × Option KbEvent) → List ℕ
offsets out = map (λ w. w.0) out

-- `n` offsets, `step` apart.
abbrev pub spaced : (step n from : ℕ) → List ℕ
spaced step zero from = []
spaced step (suc n) from = from ∷ spaced step n (from + step)

-- What a read that does not wait leaves.
abbrev Ends : ℕ → ℕ → List (ℕ × Option KbEvent) → Reading → Type 0
Ends n i out (done i' out' k') =
    (i' ≡ i + n * event_size) × (offsets out' ≡ offsets out ++ spaced 9 n (i * event_size))
Ends n i out (blocked i' out' k') = Unit {0}

Ends-suc :
    (n i : ℕ) (out : List (ℕ × Option KbEvent)) (v : Option KbEvent) (r : Reading)
    → Ends n (i + event_size) (out ++ (i * event_size, v) ∷ []) r
    → Ends (suc n) i out r
Ends-suc n i out v (blocked i' out' k') h = tt
Ends-suc n i out v (done i' out' k') (count, places) =
    let step : (i + 3) * 3 ≡ i * 3 + 9 = omega arith in
    (
      omega arith,
      places
          ∙ ap₂ ◌++◌ (map-append (λ w. w.0) out ((i * 3, v) ∷ [])) (ap (spaced 9 n) step)
          ∙ append_assoc (offsets out) (i * 3 ∷ []) (spaced 9 n (i * 3 + 9)),
    )

read_loop-Ends :
    (n i : ℕ) (out : List (ℕ × Option KbEvent)) (k : Kb) → Ends n i out (read_loop n i out k)
unfolding read_loop
read_loop-Ends zero i out k = (omega arith, sym (append-nil (offsets out)))
read_loop-Ends (suc n) i out k = elim (Option-cases (get_event k).0) [
  | inl e ↦ rw (e, Ends) tt
  | inr (v, e) ↦
      let k' = (get_event k).1 in
      rw (e, Ends)
        (Ends-suc n i out v _
          (read_loop-Ends n (i + event_size) (out ++ (i * event_size, v) ∷ []) k'))
]

-- A read of `n` events that does not wait returns the size of `n` events, and writes the first event
-- at the start of the caller's buffer and each next one nine bytes on: three times the size of an
-- event.
pub read_keyboard-offsets :
    (n : ℕ) (k : Kb) {i : ℕ} {out : List (ℕ × Option KbEvent)} {k' : Kb}
    → read_keyboard n k ≡ done i out k'
    → (i ≡ n * event_size) × (offsets out ≡ spaced (3 * event_size) n 0)
unfolding read_keyboard
read_keyboard-offsets n k e =
    let ends = rw e at (read_loop-Ends n 0 [] k) in (omega (arith, ends.0), ends.1)
