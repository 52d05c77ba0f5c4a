-- ===== src/Sched/Ready.antt =====
-- `sched_task` and `_pop_first_ready` against the queue of ready threads.
use model_lib.Common.{
  ℕ, zero, suc, ◌≡◌, ◌≢◌, ◌<◌, refl, sym, ap, ◌∙◌, inl, inr, true, false, some, List, [], ◌∷◌, ◌++◌,
  arith, if◌then◌else◌, Bool-cases, ◌==◌, length,
}
use mathlib.Core.Path.{subst}
use model_lib.Sched.{
  Ptr, null, ready_to_run, Threads, Sched, store, is_ready, unlink_first, pop_first_ready,
  sched_task,
}
use model_lib.Sched.Queue.{
  Fresh, IsQueue, IsQueue-tail, IsQueue-append, first-ne-null, last-ne-null,
}

-- The ready list of a scheduler holds exactly these threads.
abbrev pub Holds : Sched → List Ptr → Type 0
Holds s xs = IsQueue s.threads xs s.ready_list_start s.ready_list_end

-- The scheduler with `th` linked behind the last thread of a list that is not empty.
abbrev pub linked : Sched → Ptr → Sched
linked s th =
    record (store s s.ready_list_end (record (s.threads s.ready_list_end) { next = th })) {
      ready_list_end = th;
    }

pub sched_task-linked :
    (s : Sched) (th : Ptr)
    → (s.threads th).state ≡ ready_to_run
    → th ≢ s.idle_task
    → s.ready_list_end ≢ null
    → sched_task s th ≡ linked s th
unfolding sched_task
sched_task-linked s th ready busy last =
    let other : (th == s.idle_task) ≡ false = ground arith in
    let some_last : (s.ready_list_end == null) ≡ false = ground arith in
    rw (other, ready, some_last)

-- `sched_task` of a thread that is ready, is not the idle task, does not stand in the list and has no
-- successor puts it at the end of the list.
pub sched_task-Holds :
    (s : Sched) (xs : List Ptr) (th : Ptr)
    → Holds s xs
    → (s.threads th).state ≡ ready_to_run
    → th ≢ s.idle_task
    → th ≢ null
    → Fresh th xs
    → (s.threads th).next ≡ null
    → Holds (sched_task s th) (xs ++ th ∷ [])
unfolding sched_task
sched_task-Holds s [] th q ready busy ne f end =
    let other : (th == s.idle_task) ≡ false = ground arith in
    let none : (s.ready_list_end == null) ≡ true = ground (arith, q.1) in
    rw (other, ready, none) (refl, refl, ne, end)
sched_task-Holds s (x ∷ r) th q ready busy ne f end =
    let last = last-ne-null s.threads x r s.ready_list_start s.ready_list_end q in
    subst (λ t. Holds t ((x ∷ r) ++ th ∷ [])) (sym (sched_task-linked s th ready busy last))
      (IsQueue-append s.threads x r th s.ready_list_start s.ready_list_end q f ne end)

-- The first ready thread of a list, NULL if there is none, and the threads behind it.
unfoldable pub first_ready : Threads → List Ptr → Ptr × List Ptr
first_ready ts [] = (null, [])
first_ready ts (x ∷ xs) = if is_ready (ts x).state then (x, xs) else first_ready ts xs

-- What `_pop_first_ready` leaves: the thread, the rest in the list, and all else as it was.
pub record Pops (s : Sched) (want : Ptr × List Ptr) (got : Ptr × Sched) : Type 0 where
  pub task : got.0 ≡ want.0
  pub rest : Holds got.1 want.1
  pub threads : got.1.threads ≡ s.threads
  pub current : got.1.cur_task ≡ s.cur_task

later :
    (s : Sched) (xs : List Ptr) (got : Ptr × Sched)
    → Pops (unlink_first s) (first_ready s.threads xs) got
    → Pops s (first_ready s.threads xs) got
later s xs got p = record { task = p.task; rest = p.rest; threads = p.threads; current = p.current }

-- With the list holding `xs` and more fuel than threads in it, `_pop_first_ready` ends: it gives the
-- first ready thread of `xs`, or NULL if none is ready, drops the threads before that one, leaves
-- the list holding those behind it, and changes no thread.
pub pop_first_ready-Pops :
    (fuel : ℕ) (s : Sched) (xs : List Ptr)
    → Holds s xs
    → length xs < fuel
    → (got : Ptr × Sched) × (pop_first_ready fuel s ≡ some got)
      × Pops s (first_ready s.threads xs) got
unfolding pop_first_ready first_ready
pop_first_ready-Pops zero s xs q h = absurd (omega arith)
pop_first_ready-Pops (suc fuel) s [] q h =
    let none_left : (s.ready_list_start == null) ≡ true = ground (arith, q.0) in
    ((null, s), rw none_left, record { task = refl; rest = q; threads = refl; current = refl })
pop_first_ready-Pops (suc fuel) s (x ∷ xs) q h =
    let first = first-ne-null s.threads x xs s.ready_list_start s.ready_list_end q in
    let some_left : (s.ready_list_start == null) ≡ false = ground arith in
    let tail = IsQueue-tail s.threads x xs s.ready_list_start s.ready_list_end q in
    let same = ap (λ p. is_ready (s.threads p).state) first.0 in
    elim (Bool-cases (is_ready (s.threads s.ready_list_start).state)) [
      | inl e ↦ (
        (s.ready_list_start, unlink_first s),
        rw (some_left, e),
        rw (sym same ∙ e) (record { task = first.0; rest = tail; threads = refl; current = refl }),
      )
      | inr e ↦
          let ih = pop_first_ready-Pops fuel (unlink_first s) xs tail (omega arith) in
          (ih.0, rw (some_left, e) ih.1, rw (sym same ∙ e) (later s xs ih.0 ih.2))
    ]
