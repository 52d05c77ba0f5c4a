-- ===== src/Sched.antt =====
-- kernel/tasks/sched.c: the scheduler. Its static variables are the fields of `Sched`, and the
-- threads stand in a store by their addresses, 0 being NULL. The switch itself
-- (`proc_switch_to_thread`, in assembly below kernel/tasks/proc.c) marks the new thread running; it
-- is recorded in `switches`. The assertions of sched_task are left out. The code behind a switch
-- runs when the thread is taken up again: the model goes on with it at once, as the thread taken up
-- does with the same lines. Times are 64 bits wide and are taken not to wrap.
pub mod Queue
pub mod Ready
pub mod Locks
pub mod Rotate
pub mod Chain
pub mod Fair
pub mod Stuck
mod Tests
use model_lib.Common.{
  ℕ, zero, suc, ◌+◌, ◌-◌, Bool, true, false, not, Option, none, some, List, [], ◌∷◌, if◌then◌else◌,
  ◌==◌, add32, sub32,
}

abbrev pub Ptr : Type 0
Ptr = ℕ

abbrev pub null : Ptr
null = 0

pub data ThreadState : Type 0 where
  running ready_to_run blocked term : ThreadState

-- `thread_t`, as far as the scheduler uses it.
pub record Thread : Type 0 where
  pub state : ThreadState
  pub wake_time : ℕ
  pub cpu_time : ℕ
  pub waiters : Ptr
  pub next : Ptr

abbrev pub Threads : Type 0
Threads = Ptr → Thread

abbrev pub update : Threads → Ptr → Thread → Threads
update ts p t q = if q == p then t else ts q

pub record Sched : Type 0 where
  pub threads : Threads
  pub sched_slock : ℕ
  pub switching_flag : Bool
  pub ready_list_start : Ptr
  pub ready_list_end : Ptr
  pub idle_task : Ptr
  pub sleep_list : Ptr
  pub cur_task : Ptr
  pub prev_switch_time : ℕ
  -- the threads switched to, the latest first
  pub switches : List Ptr

abbrev pub is_ready : ThreadState → Bool
is_ready ready_to_run = true
is_ready _ = false

abbrev pub is_running : ThreadState → Bool
is_running running = true
is_running _ = false

abbrev pub is_term : ThreadState → Bool
is_term term = true
is_term _ = false

-- A write to the thread at `p`.
abbrev pub store : Sched → Ptr → Thread → Sched
store s p t = record s { threads = update s.threads p t }

pub sched_lock : Sched → Sched
sched_lock s = record s { sched_slock = add32 s.sched_slock 1 }

pub sched_unlock : Sched → Sched
sched_unlock s = record s { sched_slock = sub32 s.sched_slock 1 }

-- The list with its first thread taken off, as one round of `_pop_first_ready` leaves it.
abbrev pub unlink_first : Sched → Sched
unlink_first s =
    let rest = (s.threads s.ready_list_start).next in
    record s {
      ready_list_start = rest;
      ready_list_end = if rest == null then null else s.ready_list_end;
    }

-- The loop of `_pop_first_ready`; `none` when the fuel runs out.
pub pop_first_ready : ℕ → Sched → Option (Ptr × Sched)
pop_first_ready zero s = none
pop_first_ready (suc fuel) s =
    let rest = pop_first_ready fuel (unlink_first s) in
    if s.ready_list_start == null
    then some (null, s)
    else if is_ready (s.threads s.ready_list_start).state
    then some (s.ready_list_start, unlink_first s)
    else rest

-- The task to run, given the one taken off the ready list.
abbrev pub choose : Ptr × Sched → Ptr × Sched
choose (task, s) = (
  (if task == null
      then (if s.cur_task == null
          then s.idle_task
          else if is_running (s.threads s.cur_task).state
          then s.cur_task
          else s.idle_task)
      else task),
  s,
)

abbrev pub then_choose : Option (Ptr × Sched) → Option (Ptr × Sched)
then_choose none = none
then_choose (some r) = some (choose r)

pub get_next_task : ℕ → Sched → Option (Ptr × Sched)
get_next_task fuel s = then_choose (pop_first_ready fuel s)

pub sched_task : Sched → Ptr → Sched
sched_task s th =
    if th == s.idle_task
    then s
    else if is_ready (s.threads th).state
    then (if s.ready_list_end == null
        then record s { ready_list_start = th; ready_list_end = th }
        else record (store s s.ready_list_end (record (s.threads s.ready_list_end) { next = th })) {
          ready_list_end = th;
        })
    else s

-- `prev` put by to run again, and its time counted.
abbrev pub retire : Sched → (prev : Ptr) (ms : ℕ) → Sched
retire s prev ms =
    let t = s.threads prev in
    let t' = record t { state = if is_running t.state then ready_to_run else t.state } in
    let s' = sched_task (store s prev t') prev in
    let u = s'.threads prev in
    record (store s' prev (record u { cpu_time = u.cpu_time + (ms - s'.prev_switch_time) })) {
      prev_switch_time = ms;
    }

-- `proc_switch_to_thread`, in kernel/tasks/proc.c.
pub proc_switch_to_thread : Sched → Ptr → Sched
proc_switch_to_thread s p = record (store s p (record (s.threads p) { state = running })) {
  switches = p ∷ s.switches;
}

-- `_switch_task` past the choice of the next task.
pub switch_to : (ms : ℕ) (prev : Ptr) → Ptr × Sched → Sched
switch_to ms prev (task, s) =
    let s' = record s { cur_task = task } in
    if prev == task then s' else sched_unlock (proc_switch_to_thread (retire s' prev ms) task)

abbrev pub then_switch : (ms : ℕ) (prev : Ptr) → Option (Ptr × Sched) → Option Sched
then_switch ms prev none = none
then_switch ms prev (some r) = some (switch_to ms prev r)

pub switch_task : (fuel ms : ℕ) → Sched → Option Sched
switch_task fuel ms s =
    let locked = sched_lock s in
    if locked.switching_flag
    then then_switch ms s.cur_task (get_next_task fuel locked)
    else some (sched_unlock locked)

abbrev pub then_unlock : Option Sched → Option Sched
then_unlock none = none
then_unlock (some s) = some (sched_unlock s)

pub sched_run : Sched → Sched
sched_run s = sched_unlock (record (sched_lock s) { switching_flag = true })

pub sched_pause : Sched → Sched
sched_pause s = sched_unlock (record (sched_lock s) { switching_flag = false })

pub sched_block : (fuel ms : ℕ) → Sched → Option Sched
sched_block fuel ms s =
    let l = sched_lock s in
    then_unlock
      (switch_task fuel ms (store l l.cur_task (record (l.threads l.cur_task) { state = blocked })))

pub sched_unblock : (fuel ms : ℕ) → Sched → Ptr → Option Sched
sched_unblock fuel ms s t =
    let l = sched_lock s in
    let r = store l t (record (l.threads t) { state = ready_to_run }) in
    then_unlock (switch_task fuel ms (sched_task r t))

pub sched_sleep_until : (fuel ms : ℕ) → Sched → (until : ℕ) → Option Sched
sched_sleep_until fuel ms s until =
    let l = sched_lock s in
    let t = record (l.threads l.cur_task) { wake_time = until; next = l.sleep_list } in
    then_unlock (sched_block fuel ms (record (store l l.cur_task t) { sleep_list = l.cur_task }))

pub sched_wait_task : (fuel ms : ℕ) → Sched → Ptr → Option Sched
sched_wait_task fuel ms s task =
    let l = sched_lock s in
    if is_term (l.threads task).state
    then some (sched_unlock l)
    else let c =
        store l l.cur_task (record (l.threads l.cur_task) { next = (l.threads task).waiters }) in
      then_unlock
        (sched_block fuel ms (store c task (record (c.threads task) { waiters = c.cur_task })))
