-- ===== src/Sched/Tests.antt =====
-- Runs of the scheduler, and its theorems at concrete states.
use model_lib.Common.{
  ℕ, ◌≡◌, ◌≢◌, inl, inr, refl, true, false, Option, none, some, List, [], ◌∷◌, arith, if◌then◌else◌,
  ◌==◌,
}
use model_lib.Sched.{
  is_ready, Ptr, null, ThreadState, running, ready_to_run, blocked, Thread, Threads, Sched,
  sched_lock, sched_unlock, pop_first_ready, get_next_task, sched_task, proc_switch_to_thread,
  switch_to, switch_task, sched_run, sched_pause, sched_block, sched_unblock, sched_sleep_until,
  sched_wait_task,
}
use model_lib.Sched.Ready.{Holds, Pops, first_ready, pop_first_ready-Pops}
use model_lib.Sched.Locks.{Counts, switch_task-Counts}
use model_lib.Sched.Rotate.{Turns, switch_task-Turns}
use model_lib.Sched.Fair.{Rotates, switches_at, switches_at-runs}
use model_lib.Sched.Stuck.{In, IsTrap, switch_task-stuck}

abbrev thread : ThreadState → Ptr → Thread
thread st p = record { state = st; wake_time = 0; cpu_time = 0; waiters = null; next = p }

-- Thread 2 runs, 3 and 4 are ready, 5 is new, all others are blocked; 1 is the idle task.
abbrev four : Threads
four p =
    if p == 2
    then thread running null
    else if p == 3
    then thread ready_to_run 4
    else if p == 4
    then thread ready_to_run null
    else if p == 5
    then thread ready_to_run null
    else thread blocked null

abbrev busy : Sched
busy = record {
  threads = four;
  sched_slock = 0;
  switching_flag = true;
  ready_list_start = 3;
  ready_list_end = 4;
  idle_task = 1;
  sleep_list = null;
  cur_task = 2;
  prev_switch_time = 0;
  switches = [];
}

-- What a run shows: the running thread, the first ready one and the lock count.
abbrev seen : Option Sched → List ℕ
seen none = []
seen (some s) = s.cur_task ∷ s.ready_list_start ∷ s.sched_slock ∷ []

abbrev then_run : (Sched → Option Sched) → Option Sched → Option Sched
then_run f none = none
then_run f (some s) = f s

next_turn : seen (switch_task 8 50 busy) ≡ 3 ∷ 4 ∷ 0 ∷ []
unfolding switch_task sched_lock sched_unlock get_next_task pop_first_ready switch_to sched_task
    proc_switch_to_thread
next_turn = refl

paused : seen (switch_task 8 50 (sched_pause busy)) ≡ 2 ∷ 3 ∷ 0 ∷ []
unfolding switch_task sched_lock sched_unlock sched_pause
paused = refl

resumed : sched_run (sched_pause busy) ≡ busy
unfolding sched_run sched_pause sched_lock sched_unlock
resumed = refl

blocks : seen (sched_block 8 50 busy) ≡ 3 ∷ 4 ∷ 0 ∷ []
unfolding sched_block switch_task sched_lock sched_unlock get_next_task pop_first_ready switch_to
    sched_task proc_switch_to_thread
blocks = refl

unblocks : seen (sched_unblock 8 50 busy 6) ≡ 3 ∷ 4 ∷ 0 ∷ []
unfolding sched_unblock switch_task sched_lock sched_unlock get_next_task pop_first_ready switch_to
    sched_task proc_switch_to_thread
unblocks = refl

waits : seen (sched_wait_task 8 50 busy 4) ≡ 3 ∷ 4 ∷ 0 ∷ []
unfolding sched_wait_task sched_block switch_task sched_lock sched_unlock get_next_task
    pop_first_ready switch_to sched_task proc_switch_to_thread
waits = refl

-- Two turns, then the running thread 4 sleeps, then two turns more: thread 2 is ready and in no list.
abbrev five_steps : Option Sched
five_steps = then_run (switch_task 8 250) (
    then_run (switch_task 8 200) (
      then_run (λ s. sched_sleep_until 8 150 s 9000)
        (then_run (switch_task 8 100) (switch_task 8 50 busy))))

abbrev state_of : Ptr → Option Sched → Option ThreadState
state_of p none = none
state_of p (some s) = some (s.threads p).state

lost : seen five_steps ≡ 3 ∷ null ∷ 1 ∷ []
unfolding sched_sleep_until sched_block switch_task sched_lock sched_unlock get_next_task
    pop_first_ready switch_to sched_task proc_switch_to_thread
lost = refl

lost_is_ready : state_of 2 five_steps ≡ some ready_to_run
unfolding sched_sleep_until sched_block switch_task sched_lock sched_unlock get_next_task
    pop_first_ready switch_to sched_task proc_switch_to_thread
lost_is_ready = refl

busy-Holds : Holds busy (3 ∷ 4 ∷ [])
busy-Holds = (refl, omega arith, (omega arith, tt), (refl, refl, omega arith, refl))

pop_first_ready-Pops_example :
    (got : Ptr × Sched) × (pop_first_ready 3 busy ≡ some got)
    × Pops busy (first_ready four (3 ∷ 4 ∷ [])) got
pop_first_ready-Pops_example = pop_first_ready-Pops 3 busy (3 ∷ 4 ∷ []) busy-Holds (omega arith)

switch_task-Counts_example : Counts busy (switch_task 8 50 busy)
switch_task-Counts_example = switch_task-Counts 8 50 busy (omega arith)

switch_task-Turns_example :
    (t : Sched) × (switch_task 3 50 busy ≡ some t) × Turns 2 3 (4 ∷ 2 ∷ []) t
switch_task-Turns_example =
    switch_task-Turns 2 50 busy 3 (4 ∷ []) refl busy-Holds refl refl (omega arith) (omega arith)
      (omega arith, (omega arith, tt)) refl

busy-Rotates : Rotates busy 2 (3 ∷ 4 ∷ [])
busy-Rotates = record {
  current = refl;
  runs = refl;
  some_task = omega arith;
  list = (refl, omega arith, (omega arith, tt), (refl, refl, omega arith));
  ready = (refl, (refl, tt));
  apart = (omega arith, (omega arith, tt));
  idle = (omega arith, (omega arith, (omega arith, tt)));
  on = refl;
}

switches_at-runs_example :
    (t : Sched) × (switches_at 3 (50 ∷ 100 ∷ []) busy ≡ some t)
    × (t.cur_task ≡ 4)
    × ((t.threads 4).state ≡ running)
switches_at-runs_example =
    switches_at-runs 2 (50 ∷ 100 ∷ []) busy 2 (3 ∷ []) 4 [] busy-Rotates (omega arith) refl

-- After three turns threads 2, 3 and 4 lead to each other; when all three have blocked, the last
-- call looks for a ready one without end.
abbrev all_block : ℕ → Option Sched
all_block fuel = then_run (sched_block fuel 300) (
    then_run (sched_block 8 250) (
      then_run (sched_block 8 200)
        (then_run (switch_task 8 150) (then_run (switch_task 8 100) (switch_task 8 50 busy)))))

hangs : seen (all_block 500) ≡ []
unfolding sched_block switch_task sched_lock sched_unlock get_next_task pop_first_ready switch_to
    sched_task proc_switch_to_thread
hangs = refl

-- The threads as the last of these calls finds them.
abbrev ring : Threads
ring p =
    if p == 2
    then thread blocked 3
    else if p == 3
    then thread blocked 4
    else if p == 4
    then thread blocked 2
    else thread running null

abbrev trapped : Sched
trapped = record busy { threads = ring; ready_list_start = 2; cur_task = 4 }

ring-closed : (p : Ptr) → In p (2 ∷ 3 ∷ 4 ∷ []) → In (ring p).next (2 ∷ 3 ∷ 4 ∷ [])
ring-closed p (inl e) = rw e (inr (inl refl))
ring-closed p (inr (inl e)) = rw e (inr (inr (inl refl)))
ring-closed p (inr (inr (inl e))) = rw e (inl refl)
ring-closed p (inr (inr (inr x))) = elim x [ ]

ring-unready : (p : Ptr) → In p (2 ∷ 3 ∷ 4 ∷ []) → is_ready (ring p).state ≡ false
ring-unready p (inl e) = rw e refl
ring-unready p (inr (inl e)) = rw e refl
ring-unready p (inr (inr (inl e))) = rw e refl
ring-unready p (inr (inr (inr x))) = elim x [ ]

ring-some : (p : Ptr) → In p (2 ∷ 3 ∷ 4 ∷ []) → p ≢ null
ring-some p m = ground arith

ring-IsTrap : IsTrap ring (2 ∷ 3 ∷ 4 ∷ [])
ring-IsTrap = record { some_thread = ring-some; unready = ring-unready; closed = ring-closed }

switch_task-stuck_example : switch_task 500 300 trapped ≡ none
switch_task-stuck_example =
    switch_task-stuck 500 300 trapped (2 ∷ 3 ∷ 4 ∷ []) refl ring-IsTrap (inl refl)
