-- ===== src/Signals/Deliver.antt =====
-- kernel/signals/signal.c: queueing, delivery and return.
use model_lib.Common.{
  ℕ, zero, suc, ◌+◌, ◌<◌, ◌≤◌, ◌≡◌, ◌≢◌, ◌⊎◌, refl, sym, ap, ◌∙◌, inl, inr, Bool, true, false, not,
  ◌&&◌, Option, some, List, [], ◌∷◌, arith, if◌then◌else◌, ltb, ◌==◌, Bool-cases, length, get_or,
  set, get_or-set_self, get_or-set_ne,
}
use model_lib.Signals.{
  IsrState, Process, sig_count, due, taken, sig_queue_signal, deliver, sig_handle_pending,
  sig_return,
}

-- `k` is the first signal that is due, of the `n` from `i` on.
pub record FirstDue (p : Process) (i n k : ℕ) : Type 0 where
  pub from : i ≤ k
  pub below : k < i + n
  pub is_due : due p k ≡ true
  pub earlier : (j : ℕ) → i ≤ j → j < k → due p j ≡ false

-- None of the `n` signals from `i` on is due.
abbrev pub NoneDue : Process → (i n : ℕ) → Type 0
NoneDue p i n = (j : ℕ) → i ≤ j → j < i + n → due p j ≡ false

abbrev Outcome : Process → (i n : ℕ) → IsrState → Process × IsrState → Type 0
Outcome p i n s got =
    ((k : ℕ) × FirstDue p i n k × (got ≡ taken p k s)) ⊎ (NoneDue p i n × (got ≡ (p, s)))

deliver-Outcome : (p : Process) (n i : ℕ) (s : IsrState) → Outcome p i n s (deliver p n i s)
unfolding deliver
deliver-Outcome p zero i s = inr (λ j l m. absurd (omega arith), refl)
deliver-Outcome p (suc n) i s = elim (Bool-cases (due p i)) [
  | inl e ↦ inl (
    i,
    record {
      from = omega arith;
      below = omega arith;
      is_due = e;
      earlier = λ j l m. absurd (omega arith);
    },
    rw e refl,
  )
  | inr e ↦ elim (deliver-Outcome p n (suc i) s) [
    | inl r ↦ inl (
      r.0,
      (let f = r.1 in
          let from = f.from in
          let below = f.below in
          record {
            from = omega arith;
            below = omega arith;
            is_due = f.is_due;
            earlier = λ j l m. split j l e (λ l'. f.earlier j l' m);
          }),
      rw e r.2,
    )
    | inr r ↦ inr (λ j l m. split j l e (λ l'. r.0 j l' (omega arith)), rw e r.1)
  ]
]
  where
    at : (j : ℕ) → i ≤ j → (j ≡ i) ⊎ (suc i ≤ j)
    at j l = ground arith

    split : (j : ℕ) → i ≤ j → due p i ≡ false → (suc i ≤ j → due p j ≡ false) → due p j ≡ false
    split j l e f = elim (at j l) [ inl q ↦ rw q e | inr q ↦ f q ]

-- A call of `sig_handle_pending` is `taken` or nothing.
abbrev Takes : Process → IsrState → Option Process × IsrState → Type 0
Takes p s got =
    ((k : ℕ) × FirstDue p 0 sig_count k × (got ≡ (some (taken p k s).0, (taken p k s).1)))
    ⊎ (NoneDue p 0 sig_count × (got ≡ (some p, s)))

sig_handle_pending-Takes :
    (p : Process) (s : IsrState)
    → p.in_sig ≡ false
    → Takes p s (sig_handle_pending (some p) false s)
unfolding sig_handle_pending
sig_handle_pending-Takes p s out =
    let got = deliver p sig_count 0 s in
    let pass : Process × IsrState → Option Process × IsrState = λ g. (some g.0, g.1) in
    let by : Bool → Option Process × IsrState = λ b. if b then (some p, s) else pass got in
    elim (deliver-Outcome p sig_count 0 s) [
      | inl r ↦ inl (r.0, r.1, ap by out ∙ ap pass r.2)
      | inr r ↦ inr (r.0, ap by out ∙ ap pass r.1)
    ]

-- Signal `j` is not pending, or it has no handler.
abbrev pub Quiet : Process → ℕ → Type 0
Quiet p j = (get_or p.pending_signals j false ≡ false) ⊎ (get_or p.sig_handlers j 0 ≡ 0)

-- From `p` with registers `s`, the handler of signal `k` is entered: `q` and `t` are then the process
-- and its registers.
pub record Enters (p : Process) (s : IsrState) (k : ℕ) (q : Process) (t : IsrState) : Type 0 where
  pub pending : get_or p.pending_signals k false ≡ true
  pub handler : get_or p.sig_handlers k 0 ≢ 0
  pub earlier : (j : ℕ) → j < k → Quiet p j
  pub cleared : get_or q.pending_signals k false ≡ false
  pub others : (j : ℕ) → j ≢ k → get_or q.pending_signals j false ≡ get_or p.pending_signals j false
  pub handlers : q.sig_handlers ≡ p.sig_handlers
  pub saved : q.sig_return_state ≡ s
  pub inside : q.in_sig ≡ true
  pub jumps : t ≡ record s { eip = get_or p.sig_handlers k 0 }

-- What `sig_handle_pending` makes of the process and its registers.
abbrev pub Handles : Process → IsrState → Option Process × IsrState → Type 0
Handles p s got =
    ((k : ℕ) × (q : Process) × (t : IsrState) × (k < sig_count)
      × (got ≡ (some q, t))
      × Enters p s k q t)
    ⊎ (((j : ℕ) → j < sig_count → Quiet p j) × (got ≡ (some p, s)))

due_parts :
    (p : Process) (k : ℕ)
    → due p k ≡ true
    → (get_or p.pending_signals k false ≡ true) × (get_or p.sig_handlers k 0 ≢ 0)
due_parts p k h = elim (Bool-cases (get_or p.pending_signals k false)) [
  | inl e ↦ (e, λ z. absurd (ground (arith, h, z)))
  | inr e ↦ absurd (ground (arith, h, e))
]

not_due-Quiet : (p : Process) (j : ℕ) → due p j ≡ false → Quiet p j
not_due-Quiet p j h = elim (Bool-cases (get_or p.pending_signals j false)) [
  | inl e ↦ inr (ground (arith, h, e))
  | inr e ↦ inl e
]

set-false : (l : List Bool) (k : ℕ) → get_or (set l k false) k false ≡ false
set-false [] k = refl
set-false (x ∷ l) zero = refl
set-false (x ∷ l) (suc k) = set-false l k

-- For a process other than the kernel's that is in no handler, `sig_handle_pending` takes the first
-- signal that is pending and has a handler: it clears the mark of this one and no other, saves the
-- registers, notes that a handler runs, and continues at the handler of this signal with all other
-- registers as they are. Without such a signal it changes nothing.
pub sig_handle_pending-Handles :
    (p : Process) (s : IsrState)
    → p.in_sig ≡ false
    → Handles p s (sig_handle_pending (some p) false s)
sig_handle_pending-Handles p s out = elim (sig_handle_pending-Takes p s out) [
  | inl (k, first, got) ↦
      let parts = due_parts p k first.is_due in
      inl (
        k,
        (taken p k s).0,
        (taken p k s).1,
        omega (arith, first.below),
        got,
        record {
          pending = parts.0;
          handler = parts.1;
          earlier = λ j l. not_due-Quiet p j (first.earlier j (omega arith) l);
          cleared = set-false p.pending_signals k;
          others = λ j ne. get_or-set_ne p.pending_signals k j false false (λ e. ne (sym e));
          handlers = refl;
          saved = refl;
          inside = refl;
          jumps = refl;
        },
      )
  | inr (none_due, got) ↦
      inr (λ j l. not_due-Quiet p j (none_due j (omega arith) (omega arith)), got)
]

-- For a process other than the kernel's that is in no handler, and with a signal pending that has a
-- handler: once `sig_handle_pending` has entered a handler, `sig_return` ends in the registers from
-- before, whatever the handler left in them, and the process is in no handler again.
pub return_after_handler :
    (p : Process) (s u : IsrState) (j : ℕ)
    → p.in_sig ≡ false
    → j < sig_count
    → due p j ≡ true
    → (q : Process) × (t : IsrState) × (r : Process) × (sig_handle_pending (some p) false s
        ≡ (some q, t))
      × (sig_return q u ≡ some (r, s))
      × (r.in_sig ≡ false)
unfolding sig_return
return_after_handler p s u j out small d = elim (sig_handle_pending-Takes p s out) [
  | inl h ↦ (
    (taken p h.0 s).0,
    (taken p h.0 s).1,
    record (taken p h.0 s).0 { in_sig = false },
    h.2,
    refl,
    refl,
  )
  | inr h ↦ absurd (no_both (due p j) d (h.0 j (omega arith) (omega arith)))
]
  where
    no_both : (b : Bool) → b ≡ true → b ≡ false → ⊥
    no_both b x y = ground arith

-- What `sig_queue_signal` makes of a signal: one with a handler is due afterwards, and the other
-- signals stay as they are; one without is refused.
abbrev pub Queues : Process → ℕ → Option (Bool × Option Process) → Type 0
Queues p i got =
    ((get_or p.sig_handlers i 0 ≢ 0)
      × (q : Process) × (got ≡ some (true, some q))
      × (due q i ≡ true)
      × (q.in_sig ≡ p.in_sig)
      × ((j : ℕ) → i ≢ j → due q j ≡ due p j))
    ⊎ ((get_or p.sig_handlers i 0 ≡ 0) × (got ≡ some (false, some p)))

-- `sig_queue_signal` of a process and a signal number from 1 to SIG_COUNT makes the signal due if it
-- has a handler, leaves the other signals and the handler state alone, and returns true; without a
-- handler it returns false and changes nothing.
pub sig_queue_signal-Queues :
    (p : Process) (i : ℕ)
    → length p.pending_signals ≡ sig_count
    → i < sig_count
    → Queues p i (sig_queue_signal (some p) (suc i))
unfolding sig_queue_signal
sig_queue_signal-Queues p i size h =
    let ok : ltb i sig_count ≡ true = ground arith in
    elim (Bool-cases (get_or p.sig_handlers i 0 == 0)) [
      | inl e ↦ inr (ground (arith, e), rw (ok, e) refl)
      | inr e ↦ inl (
        ground (arith, e),
        record p { pending_signals = set p.pending_signals i true },
        rw (ok, e) refl,
        rw (get_or-set_self p.pending_signals i true false (omega (arith, size)), e) refl,
        refl,
        λ j ne.
            ap (λ b. b && not (get_or p.sig_handlers j 0 == 0))
              (get_or-set_ne p.pending_signals i j true false ne),
      )
    ]
