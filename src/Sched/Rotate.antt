-- ===== src/Sched/Rotate.antt =====
-- One task switch: the ready threads take turns.
use mathlib.Core.Path.{subst}
use model_lib.Common.{
  ℕ, suc, ◌≡◌, ◌≢◌, refl, sym, ap, ◌∙◌, Bool, true, false, some, List, [], ◌∷◌, ◌++◌, arith,
  if◌then◌else◌, ◌==◌, add32,
}
use model_lib.Sched.{
  Ptr, null, running, ready_to_run, Thread, Sched, store, is_ready, is_running, unlink_first,
  pop_first_ready, then_choose, get_next_task, sched_task, sched_lock, sched_unlock, retire,
  proc_switch_to_thread, switch_to, then_switch, switch_task,
}
use model_lib.Sched.Queue.{
  Fresh, IsQueue-tail, IsQueue-next, first-ne-null, update-next, update_self, update_ne,
}
use model_lib.Sched.Ready.{Holds, sched_task-Holds}

pop_first_ready-first :
    (fuel : ℕ) (s : Sched)
    → s.ready_list_start ≢ null
    → is_ready (s.threads s.ready_list_start).state ≡ true
    → pop_first_ready (suc fuel) s ≡ some (s.ready_list_start, unlink_first s)
unfolding pop_first_ready
pop_first_ready-first fuel s ne ready =
    let some_left : (s.ready_list_start == null) ≡ false = ground arith in rw (some_left, ready)

pub get_next_task-first :
    (fuel : ℕ) (s : Sched)
    → s.ready_list_start ≢ null
    → is_ready (s.threads s.ready_list_start).state ≡ true
    → get_next_task (suc fuel) s ≡ some (s.ready_list_start, unlink_first s)
unfolding get_next_task
get_next_task-first fuel s ne ready =
    let some_left : (s.ready_list_start == null) ≡ false = ground arith in
    ap then_choose (pop_first_ready-first fuel s ne ready) ∙ rw some_left

pub switch_task-on :
    (fuel ms : ℕ) (s : Sched)
    → s.switching_flag ≡ true
    → switch_task fuel ms s
      ≡ then_switch ms s.cur_task
          (get_next_task fuel (record s { sched_slock = add32 s.sched_slock 1 }))
unfolding switch_task sched_lock
switch_task-on fuel ms s on =
    let locked = record s { sched_slock = add32 s.sched_slock 1 } in
    ap
      (λ (b : Bool).
        if b
        then then_switch ms s.cur_task (get_next_task fuel locked)
        else some (sched_unlock locked))
      on

pub sched_task-state :
    (s : Sched) (th q : Ptr) → ((sched_task s th).threads q).state ≡ (s.threads q).state
unfolding sched_task
sched_task-state s th q = ground arith

pub sched_task-cur : (s : Sched) (th : Ptr) → (sched_task s th).cur_task ≡ s.cur_task
unfolding sched_task
sched_task-cur s th = ground arith

-- A running thread put by behind the list.
module _ (s : Sched) (c : Ptr) (run : (s.threads c).state ≡ running) (ms : ℕ) where
  abbrev pub stopped : Thread
  stopped =
      let t = s.threads c in
      record t { state = if is_running t.state then ready_to_run else t.state }

  abbrev pub put_by : Sched
  put_by = store s c stopped

  pub put_by-state : (put_by.threads c).state ≡ ready_to_run
  put_by-state =
      ap (λ t. t.state) (update_self s.threads c stopped)
      ∙ ap (λ st. if is_running st then ready_to_run else st) run

  pub retire-state : ((retire s c ms).threads c).state ≡ ready_to_run
  retire-state =
      ap (λ t. t.state) (update_self (sched_task put_by c).threads c _)
      ∙ sched_task-state put_by c c
      ∙ put_by-state

  retire-Holds :
      (r : List Ptr)
      → Holds s r
      → c ≢ s.idle_task
      → c ≢ null
      → Fresh c r
      → (s.threads c).next ≡ null
      → Holds (retire s c ms) (r ++ c ∷ [])
  retire-Holds r q busy ne f end =
      let by = update-next s.threads c stopped refl in
      let q' = IsQueue-next s.threads put_by.threads r _ _ by q in
      let after = sched_task put_by c in
      IsQueue-next after.threads (retire s c ms).threads (r ++ c ∷ []) _ _
        (update-next after.threads c _ refl)
        (sched_task-Holds put_by r c q' put_by-state busy ne f (by c ∙ end))

-- What a switch from `c` to `x` leaves, with `xs` in the ready list.
pub record Turns (c x : Ptr) (xs : List Ptr) (t : Sched) : Type 0 where
  pub current : t.cur_task ≡ x
  pub holds : Holds t xs
  pub runs : (t.threads x).state ≡ running
  pub waits : (t.threads c).state ≡ ready_to_run

switch_to-Turns :
    (ms : ℕ) (s : Sched) (c x : Ptr) (r : List Ptr)
    → Holds s r
    → c ≢ x
    → (s.threads c).state ≡ running
    → c ≢ s.idle_task
    → c ≢ null
    → Fresh c r
    → (s.threads c).next ≡ null
    → Turns c x (r ++ c ∷ []) (switch_to ms c (x, s))
unfolding switch_to proc_switch_to_thread sched_unlock
switch_to-Turns ms s c x r q apart run busy ne f end =
    let s' = record s { cur_task = x } in
    let gone = retire s' c ms in
    let on : Thread = record (gone.threads x) { state = running } in
    let switched : (c == x) ≡ false = ground arith in
    let done = sched_unlock (proc_switch_to_thread gone x) in
    let turns : Turns c x (r ++ c ∷ []) done = record {
      current = sched_task-cur _ c;
      holds =
          IsQueue-next gone.threads done.threads (r ++ c ∷ []) _ _
            (update-next gone.threads x on refl) (retire-Holds s' c run ms r q busy ne f end);
      runs = ap (λ t. t.state) (update_self gone.threads x on);
      waits = ap (λ t. t.state) (update_ne gone.threads x c on apart) ∙ retire-state s' c run ms;
    } in
    rw switched turns

-- With switching on, the list holding `x` and then `r`, `x` ready, and enough fuel, a call of
-- `_switch_task` out of a running thread that is neither the idle task nor in the list, and that has
-- no successor, ends: `x` runs, the old thread is ready, and the list holds `r` and then the old
-- thread.
pub switch_task-Turns :
    (fuel ms : ℕ) (s : Sched) (x : Ptr) (r : List Ptr)
    → s.switching_flag ≡ true
    → Holds s (x ∷ r)
    → (s.threads x).state ≡ ready_to_run
    → (s.threads s.cur_task).state ≡ running
    → s.cur_task ≢ s.idle_task
    → s.cur_task ≢ null
    → Fresh s.cur_task (x ∷ r)
    → (s.threads s.cur_task).next ≡ null
    → (t : Sched) × (switch_task (suc fuel) ms s ≡ some t)
      × Turns s.cur_task x (r ++ s.cur_task ∷ []) t
switch_task-Turns fuel ms s x r on q ready run busy ne f end =
    let locked = record s { sched_slock = add32 s.sched_slock 1 } in
    let first = first-ne-null s.threads x r _ _ q in
    let rest = IsQueue-tail s.threads x r s.ready_list_start s.ready_list_end q in
    let start-ready : is_ready (s.threads s.ready_list_start).state ≡ true =
      ap (λ p. is_ready (s.threads p).state) first.0 ∙ ap is_ready ready in
    let found = get_next_task-first fuel locked (λ e. first.1 (sym first.0 ∙ e)) start-ready in
    let apart : s.cur_task ≢ s.ready_list_start = λ e. f.0 (e ∙ first.0) in
    let turns =
      switch_to-Turns ms (unlink_first locked) s.cur_task s.ready_list_start r rest apart run busy
        ne f.1 end in
    let after = switch_to ms s.cur_task (s.ready_list_start, unlink_first locked) in
    (
      after,
      switch_task-on (suc fuel) ms s on ∙ ap (then_switch ms s.cur_task) found,
      subst (λ p. Turns s.cur_task p (r ++ s.cur_task ∷ []) after) first.0 turns,
    )
