-- ===== src/Sched/Stuck.antt =====
-- kernel/tasks/sched.c: `_pop_first_ready` on a ready list that leads back into itself.
use model_lib.Common.{
  ℕ, zero, suc, ◌≡◌, ◌≢◌, refl, ap, ◌∙◌, ◌⊎◌, true, false, none, List, [], ◌∷◌, arith, ◌==◌,
}
use model_lib.Sched.{
  Ptr, null, Threads, Sched, is_ready, unlink_first, pop_first_ready, get_next_task, then_choose,
  switch_task, then_switch,
}
use model_lib.Sched.Rotate.{switch_task-on}

-- `p` is one of the threads of a list.
abbrev pub In : Ptr → List Ptr → Type 0
In p [] = ⊥
In p (x ∷ xs) = (p ≡ x) ⊎ In p xs

-- The threads `xs` lead nowhere but to each other, and none of them is ready.
pub record IsTrap (ts : Threads) (xs : List Ptr) : Type 0 where
  pub some_thread : (p : Ptr) → In p xs → p ≢ null
  pub unready : (p : Ptr) → In p xs → is_ready (ts p).state ≡ false
  pub closed : (p : Ptr) → In p xs → In (ts p).next xs

pop_first_ready-stuck :
    (fuel : ℕ) (s : Sched) (xs : List Ptr)
    → IsTrap s.threads xs
    → In s.ready_list_start xs
    → pop_first_ready fuel s ≡ none
unfolding pop_first_ready
pop_first_ready-stuck zero s xs h m = refl
pop_first_ready-stuck (suc fuel) s xs h m =
    let left : (s.ready_list_start == null) ≡ false =
      ground (arith, h.some_thread s.ready_list_start m) in
    rw (left, h.unready s.ready_list_start m)
      (pop_first_ready-stuck fuel (unlink_first s) xs h (h.closed s.ready_list_start m))

-- While the ready list begins with a thread of such a trap and switching is on, `_switch_task` does
-- not end, however many threads it may look at.
pub switch_task-stuck :
    (fuel ms : ℕ) (s : Sched) (xs : List Ptr)
    → s.switching_flag ≡ true
    → IsTrap s.threads xs
    → In s.ready_list_start xs
    → switch_task fuel ms s ≡ none
unfolding get_next_task
switch_task-stuck fuel ms s xs on h m =
    switch_task-on fuel ms s on
    ∙ ap (λ o. then_switch ms s.cur_task (then_choose o)) (pop_first_ready-stuck fuel _ xs h m)
