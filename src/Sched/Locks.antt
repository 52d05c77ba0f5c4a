-- ===== src/Sched/Locks.antt =====
-- The scheduler's lock count, and how it leaves `_switch_task`.
use model_lib.Common.{
  ℕ, zero, suc, ◌+◌, ◌≡◌, ◌<◌, refl, sym, ap, ◌∙◌, inl, inr, Bool, true, ◌&&◌, Option, none, some,
  arith, if◌then◌else◌, Bool-cases, ◌==◌, add32, sub32, u32_mod,
}
use mathlib.Core.Path.{subst}
use model_lib.Sched.{
  then_switch, Ptr, null, Sched, is_ready, unlink_first, pop_first_ready, then_choose,
  get_next_task, sched_task, sched_lock, sched_unlock, proc_switch_to_thread, switch_to,
  switch_task,
}

-- What the search for the next task leaves alone.
abbrev Keeps : Sched → Option (Ptr × Sched) → Type 0
Keeps s none = Unit {0}
Keeps s (some got) = (got.1.sched_slock ≡ s.sched_slock) × (got.1.cur_task ≡ s.cur_task)

pop_first_ready-Keeps : (fuel : ℕ) (s : Sched) → Keeps s (pop_first_ready fuel s)
unfolding pop_first_ready
pop_first_ready-Keeps zero s = tt
pop_first_ready-Keeps (suc fuel) s = elim (Bool-cases (s.ready_list_start == null)) [
  | inl e ↦ rw e (refl, refl)
  | inr e ↦ elim (Bool-cases (is_ready (s.threads s.ready_list_start).state)) [
    | inl f ↦ rw (e, f) (refl, refl)
    | inr f ↦ rw (e, f) (pop_first_ready-Keeps fuel (unlink_first s))
  ]
]

get_next_task-Keeps : (fuel : ℕ) (s : Sched) → Keeps s (get_next_task fuel s)
unfolding get_next_task
get_next_task-Keeps fuel s = chosen (pop_first_ready fuel s) (pop_first_ready-Keeps fuel s)
  where
    chosen : (o : Option (Ptr × Sched)) → Keeps s o → Keeps s (then_choose o)
    chosen none k = tt
    chosen (some r) k = k

sched_task-slock : (s : Sched) (th : Ptr) → (sched_task s th).sched_slock ≡ s.sched_slock
unfolding sched_task
sched_task-slock s th = ground arith

sched_task-cur_task : (s : Sched) (th : Ptr) → (sched_task s th).cur_task ≡ s.cur_task
unfolding sched_task
sched_task-cur_task s th = ground arith

-- `_switch_task` past the choice: the count falls only if another task is taken.
SwitchesTo : (prev task : Ptr) (before after : Sched) → Type 0
SwitchesTo prev task before after =
    (after.cur_task ≡ task)
    × (after.sched_slock
        ≡ (if prev == task then before.sched_slock else sub32 before.sched_slock 1))

switch_to-SwitchesTo :
    (ms : ℕ) (prev task : Ptr) (s : Sched) → SwitchesTo prev task s (switch_to ms prev (task, s))
unfolding SwitchesTo switch_to sched_unlock proc_switch_to_thread
switch_to-SwitchesTo ms prev task s = elim (Bool-cases (prev == task)) [
  | inl e ↦ rw e (refl, refl)
  | inr e ↦ rw e (sched_task-cur_task _ prev, ap (λ n. sub32 n 1) (sched_task-slock _ prev))
]

-- What a call of `_switch_task` does to the lock count.
abbrev pub Counts : Sched → Option Sched → Type 0
Counts s none = Unit {0}
Counts s (some t) =
    t.sched_slock
    ≡ (if s.switching_flag && (s.cur_task == t.cur_task) then s.sched_slock + 1 else s.sched_slock)

choice-Counts :
    (ms : ℕ) (s : Sched) (o : Option (Ptr × Sched))
    → s.switching_flag ≡ true
    → s.sched_slock + 1 < u32_mod
    → Keeps (record s { sched_slock = add32 s.sched_slock 1 }) o
    → Counts s (then_switch ms s.cur_task o)
unfolding SwitchesTo
choice-Counts ms s none on h k = tt
choice-Counts ms s (some (task, u)) on h k =
    let to = switch_to-SwitchesTo ms s.cur_task task u in
    let raised : u.sched_slock ≡ s.sched_slock + 1 = k.0 ∙ omega arith in
    elim (Bool-cases (s.cur_task == task)) [
      | inl e ↦ rw (to.0, on, e) ((rw e at to.1) ∙ raised)
      | inr e ↦ rw (to.0, on, e) ((rw e at to.1) ∙ ap (λ n. sub32 n 1) raised ∙ omega arith)
    ]

-- A call of `_switch_task` that ends leaves the lock count as it found it, except when switching is
-- on and the running task is taken again: then the count stays one higher.
pub switch_task-Counts :
    (fuel ms : ℕ) (s : Sched) → s.sched_slock + 1 < u32_mod → Counts s (switch_task fuel ms s)
unfolding switch_task sched_lock sched_unlock
switch_task-Counts fuel ms s h =
    let locked = record s { sched_slock = add32 s.sched_slock 1 } in
    let on = then_switch ms s.cur_task (get_next_task fuel locked) in
    let off = some (record s { sched_slock = sub32 locked.sched_slock 1 }) in
    let by = λ (b : Bool). if b then on else off in
    elim (Bool-cases s.switching_flag) [
      | inr e ↦ subst (Counts s) (sym (ap by e)) (rw e (omega arith))
      | inl e ↦
          subst (Counts s) (sym (ap by e))
            (choice-Counts ms s (get_next_task fuel locked) e h (get_next_task-Keeps fuel locked))
    ]
